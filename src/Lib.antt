-- ===== src/Lib.antt =====
-- D-RoCM: a registry for robot nodes and the nodes that register there, over gRPC.
--
-- The program. The registry server keeps a table of nodes (src/registry/node_table.cpp). Its service
-- (src/registry/registry_service.cpp) answers Register, Heartbeat, Deregister and Discover from that
-- table, and a health checker (src/registry/health_checker.cpp) runs on a thread of its own: every
-- interval it counts a missed heartbeat for every node and removes the nodes that reach a threshold.
-- A node (src/node/node_base.cpp) registers, sends heartbeats from a thread of its own and reconnects
-- with exponential backoff. The LIDAR emulator (examples/lidar_emulator.cpp) has its own heartbeat
-- thread, which registers again after five failures, serves two streams, and shows its metrics
-- (src/utils/metrics.cpp) over HTTP. Asynchronous calls go through an adapter from gRPC's completion
-- queue to coroutines (src/core/coro/). Every part logs through one logger (src/utils/logger.cpp),
-- which the entry points (src/main.cpp, examples/registry_server.cpp and the emulator's main) start
-- first and shut down last.
--
-- The files.
--   Base                    shared names; Base.Lists, Base.Words, Base.Tests: lists and Boolean tests
--                           over the native numbers, words of 32 bits; Base.Maps:
--                           std::unordered_map, with its laws and its order of iteration;
--                           Base.Bytes: text as bytes, and decimal numbers in it; Base.Keyed:
--                           lists without a repeated key
--   Proto, Grpc             the messages of proto/registry.proto; its children: Robot (the others of
--                           proto/common.proto), NodeService (proto/node.proto); statuses
--   Registry.NodeTable      NodeTable, method by method; its children: Sweep (remove_stale_nodes),
--                           History (sequences of calls, and one node's entry under them),
--                           Invariant, Discover, Order (iteration of the map),
--                           Abstract (the table up to that order, a quotient), Interface (the class
--                           declaration and what its methods do; its children: Answers, Implementation
--                           by NodeTable, Ledger, a reference class, Listing (its lists) and
--                           Reference)
--   Registry.Service        RegistryServiceImpl, handler by handler; its children: Outcomes,
--                           Shutdown, Refinement (the calls that requests make on the table),
--                           Refusals, Calls (requests as calls), Concurrent (Register in two steps),
--                           Linear (its interleavings, put in order), Lifecycle
--   Registry.HealthChecker  start, stop and run_loop; its children: Lifecycle (start, stop), Entry,
--                           Timeout, Silence, Discovery
--   Registry.Specification  what the registry promises, on a directory in the place of the table; its
--                           children: Fates (what is answered, and what changes), Represents (the
--                           directory of a service), Steps, Refinement (any sequence of steps),
--                           Provenance, Tally, Told and Discovery (what the answers so far
--                           tell)
--   Registry.Server         the service and the checker's loop on the table that they share; its child
--                           Silent: what a silent node is answered, and one that beats
--   Node                    Node's constructor, start and stop; its children: Backoff
--                           (calculate_backoff_delay), Loop (heartbeat_loop), Rule (an invariant rule
--                           for the loop), Lifecycle, Giveup, Healing, Numbering (the attempts),
--                           Derived (virtual functions, accessors), Sent, and Threads: the owner's
--                           calls and two heartbeat threads as a step relation, with the children
--                           Phases (the phases of a thread are a turn of Loop), Invariant, Ends,
--                           Restart, Destructor and Orphan
--   Deployment              Node.Loop and Registry.Service together; its children: Quiet (turns
--                           without a reconnection), Table (the calls on the table), Unknown and Known
--                           (a node that the registry has lost, and one that it keeps);
--                           Deployment.Emulator is the emulator's thread in the place of the node's, its
--                           children Vain, Rejoin and Restored how it gets back into the table
--   Lidar                   Subscribe, Control (ControlStream), Unary (GetStatus and Publish),
--                           Heartbeat (try_register_node and run_heartbeat), MetricsServer (the metrics
--                           thread; its children: Response, Descriptors)
--   Metrics                 Metrics and ScopedRpcLatency; its children: Counters (what they
--                           hold after any updates), Scrape (a reader of the text), Timer
--   Logger                  Logger and the macros; its children: Lifecycle, FileName
--   Main                    the entry points: EntryPoint (src/main.cpp), RegistryServer, LidarEmulator;
--                           the child Order of each of the latter says in which order parts start and
--                           stop, RegistryServer.Forgets what is known of a silent node at the end
--   ErrorCodes, Version,    src/core/error_codes.h (with the child Result), src/core/version.h,
--   Transport               src/core/transport/
--   Coro                    CoroAdapter and its awaiters over a heap of contexts; its children:
--                           Completions (what completions mean), Ownership (the poller), Cancel,
--                           Streams (one stream operation), AsyncStream (sequences of
--                           them), Operation (the pointer of AwaitableOperation)
--   Tests                   the theorems at concrete inputs; Tests.NodeTableTest: the unit tests of
--                           tests/test_node_table.cpp, run on the model
--
-- How code becomes definitions. A method of a class is a function from the object's record (and the
-- arguments) to the record and the result; a handler also takes the response message and returns it
-- as it leaves it. A method that holds a lock is one step. Threads that share the table are
-- sequences of steps: a Round of the checker names the calls that get the lock while the checker
-- sleeps and between its own two calls, and a Turn of Registry.Server the requests that are served
-- then. The steps of Registry.Specification are the requests, the checker's calls and Shutdown, in
-- whatever order; an answer is the status with the response message. A loop that runs until it is
-- told to stop takes the list of what it meets in each turn, so every length of run is covered.
-- Node.Threads is a step relation of the owner's thread and two heartbeat threads, each of which runs
-- from one of its waits to the next in one step, so that the owner's calls come while it waits.
-- Registry.NodeTable.Interface is a record of the class's methods and one of what they do, as the code has it.
-- Waits, requests and callbacks are recorded as events. The clock, std::rand, the answers of remote
-- calls and the order of std::unordered_map are arguments. The counters that are uint32_t wrap at
-- 2^32 where the source can reach that; the int counters of the emulator and of the streams are
-- numbers, since the code bounds them (the frame number of a stream excepted, which only labels
-- frames).
--
-- An entry point is a list of statements; each takes the state of the process to the next one, or ends
-- it: main returns, a null pointer is dereferenced, std::terminate is called, or a join waits for ever.
-- What the other threads have done by the time that main joins them is an argument. The counters of the
-- metrics are residues modulo 2^64, and each atomic operation on them is a step of its own.
--
-- Parameters. Lidar.Subscribe takes the text of a payload, which the source makes with
-- std::to_string on doubles; Metrics takes the texts of the two averages, which are quotients of
-- doubles. Node.Healing and Deployment take Transport: gRPC delivers the response message of a unary
-- call with the status OK, and otherwise leaves the caller's message as it was made. Logger takes
-- Spdlog: spdlog's registry holds each name at most once, refuses a second logger of the same name, and
-- is empty after spdlog::shutdown; spdlog::init_thread_pool refuses a pool of 0 or of more than 1000
-- threads, or a queue for which there is no room, and accepts spdlog's own default, 8192 entries.
--
-- Not modelled: the texts of the messages that are logged, beyond their fixed parts, and the places
-- in the components where they are logged (the entry points' own are modelled, with those of the
-- constructors and calls that they make); the generated protobuf code. The entry points' waits for a
-- signal, the installed handlers and the bind address leave no trace. Memory orders of the atomic
-- counters are not modelled: all are sequentially consistent in the source.
pub mod Base
pub mod Proto
pub mod Grpc
pub mod Registry
pub mod Node
pub mod Lidar
pub mod Coro
pub mod Metrics
pub mod ErrorCodes
pub mod Version
pub mod Transport
pub mod Logger
pub mod Main
pub mod Deployment
mod Tests
