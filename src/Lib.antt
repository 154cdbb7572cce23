-- ===== src/Lib.antt =====
-- Verification library of gocel, a Go framework for agents. It models parts of gocel that keep
-- state of their own: the graph engine, the goal manager, the slots of the workflow engine,
-- background jobs and their output, the event hub, the circuit breaker, the retries of model calls,
-- the reminders of repeated calls, the session log, the permissions of tool calls, the todo list,
-- the scoped registries and the routes to models. The retries ask the errors of the kernel for
-- their verdict; within the graph engine a graph is built, compiled and run, and its runs fork and
-- merge the shared state; the todo list writes to a session log. Otherwise the parts do not call
-- each other.
--
-- Files and code (paths from the root of the repository):
--   Prelude           Booleans, lists, maps as association lists, integers, results.
--   Graph/Builder     graph/graph.go: `New`, the Add methods, `rebuildIndexes`; graph/node.go: the
--                     options. Indexes and Building have the invariant of a graph.
--   Graph/Topo        graph/graph.go: `topoSort`, `Compile`. Relax and Kahn have the loop, Order what
--                     an order is, Correct, Acyclic and Compiling the results.
--   Graph/Scheduler   graph/graph.go: `graphScheduler` with `newScheduler`, `startEntries`, `tryStart`,
--                     `skip`, `complete`, and the loop of `runLoop` over results without an error.
--                     Flow and Conservation say where the edges go, Termination that the fuel is
--                     enough, Waiting and Started when a node starts, Lowering and Once that nodes
--                     are taken once. Runs has the runs as a step relation, Running the counter of
--                     goroutines, Liveness the ends of runs. Draining is `drainResults`.
--   Graph/State       graph/state.go: `GraphState`. Merge and Rollback are two of its operations,
--                     Reading has the getters.
--   Goal              core/goal/goal.go: the document and the closures given to `Update`; Phases has
--                     the diagram of the phases.
--   Goal/Store        the seam `Store` as a record with laws, and `MemoryStore` of
--                     core/goal/store.go, which fills it.
--   Goal/Manager      core/goal/goal.go: the methods of `Manager` over any store. Revisions is about
--                     one call beside other writers, History about sequences of calls.
--   Slots             agents/workflow/slots.go: `slotQueue`, and all interleavings of its users.
--   Jobs              core/jobs/jobs.go: `tailStore`. Tail says what it holds and what readers get.
--   Jobs/Registry     core/jobs/jobs.go: `Registry`: `Start`, the critical sections of a job's
--                     goroutine, and in Control the other methods. Live and Counting are about the jobs
--                     of an owner, Told and Settling about the listeners, Ids about generated ids.
--   Breaker           middleware/circuitbreaker/circuitbreaker.go, and
--                     `NewCircuitBreakerMiddleware` (Stream: its second half) in core/kernel/resilience.go.
--   Errors            core/kernel/errors.go and `IsRetryableError` of core/kernel/hooks.go: chains of
--                     causes; Making has the constructors, Kinds the predicates, and Verdicts says
--                     which errors are retried.
--   Retry             middleware/retry/retry.go. Backoff is about the waits, Attempts the loops.
--   Hub               core/hub/hub.go. Replay is about late subscribers, Delivery about one queue,
--                     Channels and Safety about closed channels.
--   Repeats           module/repeattool/repeattool.go. Streaks says when an agent is reminded.
--   Session           core/session/log.go, with the events of core/types/sessionevent.go. Replacing is
--                     about one replacement, Invariant and Restoring about replays, Surface about
--                     the messages in view, Listening about listeners. Store is `MemoryStore` of
--                     core/session/store.go.
--   Permission        module/permission/permission.go and the decisions of core/kernel/permission.go:
--                     the hook on a tool call. Needs says what a call needs to be allowed, Audit is
--                     about its reports, Containing and Fitting about calls that are allowed; Paths is
--                     the search for paths in arguments, Presets module/permission/presets.go.
--   Todo              tools/todo/todo.go. Ids is about the tasks, Shown and Mirror about the log.
--   Registry          core/registry/registry.go. Links and Returning are about the parents, Telling
--                     about what observers are told, Views about layers of registries; Feeds has
--                     the handlers of `ObserveChanges`.
--   Router            modelrouter/modelrouter.go. Trying is about the order of the routes, Choosing
--                     about weights.
--
-- Go's methods become functions from a state to a state, by the same names in snake case; a mutex
-- makes a method one step, and what happens between two critical sections is a parameter or a step
-- relation. Errors are values of a data type per component, without their texts. Clocks and random
-- ids are arguments. Maps are association lists, and the results hold for every order of their
-- entries. Go's `int`, `int64` and `time.Duration` are unbounded integers, revisions, counts and times
-- natural numbers; no counter here comes near 2^63 before as many calls are made or as many bytes
-- written. The durations of the retries, which are multiplied, and the total weight of the routes
-- to models are words of 64 bits; the ids of the hub and of the listeners of a log and the counter
-- of a router wrap around at 2^64.
--
-- Fuel: the sort takes as much as there are nodes, since each turn takes one node off the queue and
-- no node comes in twice. `tryStart`, which calls itself through `skip`, takes more than there are
-- nodes, since `skip` marks one more node before each deeper call. The retries take more than their
-- budget; without a budget, more than the attempts before the one that settles. A walk along the
-- parents of a registry takes its scope and one step, since each parent has a smaller scope.
--
-- Not modelled: what a graph node runs, with its retries and timeouts; the branches of `runLoop` on
-- errors and cancellation; both `FileStore`s; races between models; the lists of listeners of the
-- job registry and of observers of the scoped registries; the texts and the details of errors; the
-- random jitter of the retries, the JSON and the texts of the reminders, the parsing of tool
-- arguments, the policies and the host that a permission asks, which are parameters; and the other
-- packages of the repository.
pub mod Prelude
pub mod Breaker
pub mod Slots
pub mod Goal
pub mod Graph
pub mod Jobs
pub mod Errors
pub mod Retry
pub mod Hub
pub mod Repeats
pub mod Session
pub mod Permission
pub mod Todo
pub mod Registry
pub mod Router
