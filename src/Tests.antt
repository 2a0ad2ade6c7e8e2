-- ===== src/Tests.antt =====
-- Small runs of the definitions, and the theorems at concrete inputs.
mod Samples
mod Clocks
mod Rings
mod Stores
mod Members
mod Coordination
mod Reads
mod Clients
mod Texts
mod Tools
mod Starts
mod Clusters
mod Handoffs
