-- ===== src/Start/Ends.antt =====
-- How the start of a node ends: what it refuses, and what it lets serve.
use driftstore.Text.{Text}
use driftstore.Network.{Network}
