-- ===== src/Lib.antt =====
-- A model of ReplayForge's backend (backend/src/replayforge): who controls a live browser session,
-- how an intervention takes the session from automation to a person and back, what policy
-- permits either of them to do, what a viewer of a running execution is shown, and how the replay
-- engine executes a capability artifact under all of this.
--
-- The parts and how they interact. Automation starts a session with a control lease. Every action
-- is evaluated against the intersection of policy layers (policy/), whose context names the owner
-- of the lease. When automation has to stop, the router opens an intervention and pauses the lease
-- in one state change; the coordinator lets an operator claim, heartbeat, release, resume or
-- terminate it, and commits the intervention beside its lease (interventions/).
--
-- The files:
--   Base, Dict, Text, Action: native numbers, integers and finite floats, dictionaries as lists of entries, ASCII tests on
--     texts and Python's whitespace, and operations that read and change a state and may raise.
--     An exception is an `Error`; a state change that raises leaves the state it had reached.
--   Shared.Ids, Shared.Clock: shared/ids.py and shared/clock.py. An instant is a number of
--     microseconds; an operation takes the clock's readings as arguments, in the order in which the
--     code reads the clock. The hexadecimal digits of `uuid4` are an argument of `new_id`.
--   Surfaces.Observation: the fields of surfaces/models.py's NormalizedObservation that the
--     intervention subsystem reads.
--   Interventions.Owner, Lease, Context, Intervention: interventions/models.py.
--   Interventions.LeaseRules, LeaseService: interventions/leases.py, tests and service.
--     LeaseCalls has the calls as data: a run is a list of whole calls, one after the other. The source
--     releases its lock between the read of a call and its compare-and-swap; interleavings inside
--     a call are not modelled there.
--   Interventions.Transition, Store: interventions/transactions.py over the dictionaries of
--     interventions/router.py. Router: `open` of interventions/router.py. Listing: the reads that list
--     interventions. HumanInput: the input of operators and its audit details.
--   Interventions.Plans, Coordinator: interventions/service.py, what a method prepares and how it
--     commits. Trace: the subsystem as a step relation, where a commit may follow its read at any
--     later time.
--   Runs.Execution: the buffers of one execution of runs/viewing.py (`_Execution` and the methods of
--     `ExecutionViewer` that change one); Runs.Execution.Life runs any sequence of them.
--   Runs.Viewer: the table of executions, `start` and the sweep of expired ones. Runs.Polling: what a
--     client with a token reads; SHA-256 is a parameter.
--   Capabilities.Json, Values: value schemas and capabilities/values.py. Targets, Conditions, Artifact:
--     the other data of capabilities/models.py. Conditions also has capabilities/conditions.py, Binding
--     capabilities/targeting.py, Transforms capabilities/transforms.py.
--   Replay.Machine, Results, Detection, Steps, Attempts, Engine, Execution: replay/engine.py, from the
--     parts of a step to `execute` and `resume`. The session, the driver and the evidence store are a world of
--     their own, which the engine only calls (`Ports`, `Driver`): every call may answer, raise a
--     `SurfaceError` or raise something else. Leases and interventions are those of the files above.
--     Every call of a session's `execute`, `extract` and `close` leaves an entry in the journal, where
--     the call is. Journal says what the journal may hold, Progress has the rules by which every part of the
--     engine ends, Guarantees what follows for an execution.
--   Policy.Types, Layers, LayerChecks, Routes, Decisions, Evaluator: policy/types.py,
--     policy/models.py and policy/evaluator.py. `urlsplit` and the Unicode case tables are
--     parameters (`Library`).
--
-- The loops of these parts are structural, except the loop that makes room for a new execution: its
-- fuel is the number of executions, of which it removes one in each turn, and the loop over the steps
-- of an artifact: each round of it goes one step on or is paid for by a use of a recovery, so the
-- steps, taken once more for each declared use, are enough. Numbers are unbounded, as they are
-- in Python. Versions and instants are natural numbers: a negative version is refused by the same
-- test as version 0. Texts of exceptions and of decisions are left out: constructors and reason
-- codes tell the branches apart.
--
-- Not modelled: the revalidation before a replay resumes and the semantic checks of an artifact's constructor,
-- discovery, the journal of runs, the API, providers, surface adapters, evidence storage and the
-- process wiring.
pub mod Base
pub mod Dict
pub mod Text
pub mod Shared
pub mod Action
pub mod Surfaces
pub mod Interventions
pub mod Policy
pub mod Runs
pub mod Capabilities
pub mod Replay
