-- ===== src/Lib.antt =====
-- driftstore: a replicated key-value store in the manner of Dynamo, as the C++ under src/ has it.
--
-- The program's parts and the files that model them. A name in backquotes is the source's; the
-- definitions keep its words in snake case.
--
--   Clock       src/vector_clock.hpp: `compareVectorClocks`, `mergeClocks`, `buildNewClock`.
--   Resolve     src/vector_clock.hpp: `resolveLWW`, `computeFrontier`, `resolveGetResult`.
--   Ring        src/ring.hpp: the hashes, the ordered map of tokens, `preferenceList`.
--   Node        src/node_service.hpp and src/driftstore.proto: the members of `NodeServiceImpl`
--               and the messages.
--   Store       src/node_kv.cpp: `localGet`, `commitCoordinatedWrite`, `storeReplicatedWrite`,
--               `ReplicateWrite` with its hints, `ReplicateRead`.
--   Network     src/driftstore.proto: the calls that a node makes to its peers.
--   Route       src/node_kv.cpp: `preferenceListForKey`, `findSubstitute`.
--   FanOut      src/node_kv.cpp: the threads that `coordinatePut` starts.
--   Put         src/node_kv.cpp: `Put`, `coordinatePut`, `forwardPut`.
--   Get         src/node_kv.cpp: `Get`, `repairReplicas`.
--   Cluster     src/node_kv.cpp, src/node_reachability.cpp: several nodes, whose calls run one
--               another's handlers: puts, reads, and the delivery of hints between them.
--   Membership  src/ring.hpp `mergeInto`; src/node_membership.cpp `applyGossip`,
--               `GossipExchange`, `RemoveNode`, `selectGossipTarget`, `computeTokens`; the
--               constructor in src/node_main.cpp.
--   Gossip      src/node_membership.cpp: `SendGossip`, `gossipRound`, `bootstrapFromSeed`.
--   Reachability  src/node_reachability.cpp: marks, `reachabilityRound`, `deliverHints`.
--   Sections    the critical sections by which all of these change a node, as steps in any order.
--   DriftClient   src/driftclient.hpp: `connect`, `put`, `get`.
--   Cli         src/client.cpp `parseClockArg`, `clockToString`; src/node_main.cpp `splitSeeds`.
--   Status      src/node_status.cpp `Ping`, `GetStatus`; src/node_membership.cpp `dumpTable`,
--               `dumpRing`.
--   Logging     src/logging.hpp: the events and the line of one.
--   ClientTool  src/client.cpp: `main`, its options, its modes and their calls.
--   DriverTool  src/driftclient.cpp: `main`.
--   Start       src/node_main.cpp: `main`, with the quorum check, and `start`.
--   Options     what the three mains share: `stoi`, lines of output, the end of a process, and
--               arguments as the settings that they spell.
--   Prelude, Text, Assoc, Rotation  lists and numbers, strings, maps, and positions in a rotation.
--   Tests       small runs, and the theorems at concrete inputs.
--
-- How they interact. A write arrives at `Put`, which asks Route for the preference list of the
-- key; the coordinator writes its own copy through Store and sends the clock it built to the
-- others through FanOut, with a substitute from Route for each node that fails. A read asks the
-- nodes of the list, resolves what they return through Resolve and repairs the stale ones through
-- Store. Membership keeps the ring that Route walks. Reachability delivers the hints that Store
-- holds.
--
-- How the code is modelled.
--   State: `Node` is a record of the members of `NodeServiceImpl` but its mutexes. A function that
--   changes the node takes it and returns the next one. Each critical section is one function.
--   Calls: the peers stand behind the record `Network`, over a type of their own states; a call
--   that fails is `none`. Nothing is assumed of the answers.
--   Cluster: a map of nodes by their addresses. A call runs the handler of the callee, and a fate
--   for each call says whether the request or the answer is lost; how a put ends that is passed on
--   to another node is an argument.
--   Threads: each thread of the fan-out is a `Task`, and a schedule, a list of positions, says
--   which thread takes the next step. A step is a call with what follows from its answer, or the
--   search for a substitute. The other handlers of the node do not run between the steps. The
--   calls of a read, a repair and a delivery run in the order in which they end, an argument.
--   Numbers: `uint64_t` counters and hashes wrap at 2 ^ 64; timestamps are `int64_t`, as whole
--   numbers; the clock `nowMillis` and random draws are arguments. N, W, R and the number of
--   virtual nodes are natural numbers, as the start-up check wants them.
--   Maps: `std::unordered_map` and protobuf's map are association lists in the order in which a
--   walk would meet the keys; `std::map` is a list in ascending order of its keys.
--   Exceptions and failed assertions are `none`; so is a handler that waits for a thread that the
--   schedule leaves unfinished.
--   Fuel: the walk of the ring has as many rounds as the ring has tokens, the bound that the source
--   counts in `visited`. A thread of the fan-out has returned after twice as many turns as the
--   ring has tokens and two more, since each new substitute uses up a node of the ring. Attempts
--   over a list have its length. Printing a number takes at
--   most one round more than its value, and reading a clock one round for each character.
--
--   Processes: a main takes its arguments and ends in what it wrote with its exit status, or an
--   exception that nothing catches; a node that serves is an outcome of its own. `int` addition in
--   the quorum check wraps at 2 ^ 32, which C++ leaves undefined.
--
-- Not modelled: the events that the handlers of a node log; the endless background loops, their
-- sleeps and the deadlines of calls; channels, stubs and the server; what other handlers do while a
-- node still bootstraps; the measurement in src/vnode_experiment.cpp, which does not compile.
pub mod Prelude
pub mod Text
pub mod Assoc
pub mod Clock
pub mod Resolve
pub mod Ring
pub mod Node
pub mod Store
mod Tests
pub mod Route
pub mod Network
pub mod FanOut
pub mod Put
pub mod Get
pub mod Membership
pub mod Gossip
pub mod Reachability
pub mod Sections
pub mod DriftClient
pub mod Rotation
pub mod Cli
pub mod Logging
pub mod Options
pub mod Status
pub mod ClientTool
pub mod DriverTool
pub mod Start
pub mod Cluster
