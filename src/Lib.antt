-- ===== src/Lib.antt =====
-- A verification library for the workflow core of this service, and for the components beside it:
-- conversations, reminders and their delivery, memories, drafts of notes, and the guards of calls.
--
-- internal/workflow is a library for durable workflows. A run is a list of nodes that a runner
-- executes in turn, within budgets and a deadline; a node may suspend the run at a wait point,
-- which a person answers with a command. The durable runtime keeps each run as a checkpoint in a
-- store, under a lease that one worker holds at a time. internal/chat keeps sessions, runs and
-- their events; internal/resilience guards calls to other services. internal/reminder keeps
-- reminders; a dispatcher of internal/reminderdelivery claims those that are due and commits each
-- as a delivery, which a worker claims, hands to an adapter, and completes or fails.
-- internal/memory keeps what the program remembers of a user, in slots that one active memory takes
-- at a time; internal/notedraft keeps a pending draft until the user confirms it.
--
-- The files and the code they model:
--   Base, Base/Lists, Base/Word, Base/Dict: tests on numbers, the error monad, lists, 64-bit
--     integers and instants, and maps. Base/Text, Base/Sort, Base/Regex: the functions on texts,
--     the sorting and the regular expressions that the code calls, by derivatives of an expression.
--   Workflow/Errors: internal/workflow/errors.go, and normalizeNodeError of runner.go.
--   Workflow/Ident, Workflow/Wait, Workflow/State, Workflow/Event, Workflow/Node: ids.go, wait.go,
--     state.go, event.go and node.go of internal/workflow. State/Lifecycle states the life cycle of
--     a run as a relation, State/Valid and Wait/Accepts say what the checks accept.
--   Workflow/Runner, Workflow/Runner/Exec: runner.go. NewRunner is `new_runner`, Run and Resume are
--     `run` and `resume`, executeFrom is `execute_from`, with `run_node` for a round of its loop;
--     the bodies are cut at early returns into helpers named for what they do. The loop index is
--     the list of nodes that are left. Runner/Build, Shape, Outcome, Cases, Progress and Loop hold
--     the theorems.
--   Workflow/Checkpoint: durable.go, up to the registry of codecs. Checkpoint/RoundTrip.
--   Workflow/Store, Store/Claims, Store/Commit: memory_durable_store.go, one function per method.
--     Store/Create, Store/Leases, Store/Waits and Store/Sound hold the theorems.
--   Workflow/Durable, Durable/Calls: durable_runtime.go; `DurableStore` is the store's interface,
--     which Durable/Refusal fills with the memory store. Durable/Events, Durable/Observed and
--     Durable/Commits show that what the runner leaves can be committed.
--   Chat, Chat/Store: internal/chat/model.go and memory_repository.go. Chat/Moves, Chat/Journal,
--     Chat/Steps and Chat/Create hold the theorems.
--   Reminder: internal/reminder/domain.go. Reminder/Store, Store/Claims, Store/Deliveries:
--     repository.go and fake_repository.go, one function per method, cut at the lookup of the
--     idempotency key. Reminder/Sound, Calls, Settled, Claimed, Taken, Moves, Steps and Reached hold
--     the theorems: `ReminderStep` is one successful call.
--   ReminderDelivery, ReminderDelivery/Dispatcher, Worker, Recording: runtime.go of
--     internal/reminderdelivery. Tick is `dispatch_tick` and `work_tick`, on the number of batches
--     left. ReminderDelivery/Fake fills the interface with the repository in memory. Dispatched and
--     Tried say how a reminder or a delivery stands after a tick, Dispatches, Attempts and Works hold
--     the theorems.
--   NoteDraft, NoteDraft/Service: internal/notedraft; its Service.transition is `settle`.
--     NoteDraft/Pending and NoteDraft/Confirms hold the theorems.
--   Memory, Memory/Content, Memory/Policy: domain.go, security.go and conflict.go of internal/memory.
--     Memory/Store, Store/Endings, Store/Projections: repository.go and fake_repository.go.
--     Memory/Guarded, Store/Moves, Lapses, Steps and Slots hold the theorems. A float64 is a type that comes
--     with the tests which the code makes on it.
--   Resilience/Breaker, Bulkhead, Retry: the files of those names in internal/resilience.
--   Examples: concrete inputs, tests and the theorems at those inputs.
--
-- How the code is represented. An `int`, `int64` or `uint64` is a bit pattern below 2 ^ 64, signed
-- ones in two's complement; each increment wraps. `time.Time` is the nanoseconds since the zero
-- time, without overflow; a lease or a time to live is added to it as a number, and the backoff of a
-- delivery, which can be negative, as a signed duration, not below the zero time. A string type with constants
-- is a data type with a constructor `other` for the texts that are no constant. Messages of errors
-- are left out, their codes, node ids and causes are kept. A map is an association list, and a range
-- over it is a walk along the list. A mutex makes each method one step. What the code reads from
-- outside (nodes, observer, clock, context, tokens, codecs, random numbers) is a function on a world
-- `W` that is passed through, or a parameter; no property assumes more of it than its hypotheses.
-- The `ID` of a node is the exception: it is a field, so the nodes are those whose `ID` returns one
-- text at each call. What a select picks when both of its cases are ready is an argument.
-- Copies made against aliasing are the values themselves. Loops recurse on the list they walk, or
-- on the number of rounds left: `do_from` on the attempts left, `grow` on the doublings left, so
-- every definition is total, and no fuel can run out.
--
-- Not modelled: nil receivers and nil interfaces, the actor that a context carries, the JSON codec
-- and the registry of codecs (a codec is a parameter), the listings ListSessions, List of the
-- reminders, FindExact and ListActiveContextRefs, MergeCandidates and the JSON decoder of
-- proposals, the endless loops that repeat a tick, and the order in which a range visits a map: no
-- method here depends on it but for which of several errors it meets first, which memories or
-- projections a limit leaves out, and which of two drafts of one instant is the latest. SHA-256 is a
-- parameter. The other packages (agents, HTTP, SQL stores, recall and capture of memories, routing,
-- skills, the workflow of reminders, retrieval and tools) are not modelled.
pub mod Base
pub mod Chat
pub mod Examples
pub mod Memory
pub mod NoteDraft
pub mod Reminder
pub mod ReminderDelivery
pub mod Resilience
pub mod Workflow
