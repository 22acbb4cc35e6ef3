-- ===== src/Lib.antt =====
-- A model of the parts of EmbodiRun that decide what a robot may be told to do, and of its jobs,
-- devices and observations.
--
-- The parts. Callers submit commands to one robot's arbiter, which lets through what the present
-- authority (the model, an operator, or nobody after an emergency stop) may run. The arbiter's worker
-- hands a command to the command port, and the port to the scheduler of the robot's bus, which
-- serializes the driver's calls and quarantines the bus when a call's outcome is not known. The job
-- registry, over a table in a database, accepts a caller's jobs, runs their callbacks in workers, and
-- keeps their statuses. The arbiter meets the scheduler in the port: a stop's result decides whether
-- the arbiter takes the robot for held. A request reaches these parts only after the authorization has
-- bound its token to a caller.
--
-- Beside them, the device manager owns the physical devices: it opens one for its first lease, closes
-- it after its last, and keeps a ledger of closings that failed. The observation store keeps the last
-- snapshots of what the devices produce and feeds bounded queues of subscribers. On top, the direct
-- execution hands a segment of actions to the arbiter, the model loop executes chunks of a policy's
-- actions, and a proposal asks a policy once without executing anything. What was deployed where is
-- kept in a state file.
--
-- The files.
--   Base: library names, results, dictionaries and tests that the parts share.
--   Execution.Io: `IOStatus`, `IOResult` of src/embodirun/devices/execution/io.py.
--   Execution.Ticket: `CommandTicket` and its enumerations, of
--     src/embodirun/devices/execution/arbitration.py.
--   Execution.Arbiter: `RobotControlArbiter` of the same file. State has its fields and the helpers
--     on them, Queue `submit`, Tasks the automatic tasks, Stops the holds, the emergency stop, its
--     reset and `close`, Authority the operator's methods and the watchdog, Worker and Completion the
--     two halves of `_run`, Methods whole methods and sequences of calls.
--   Execution.Scheduler: `RobotIOScheduler` of src/embodirun/devices/execution/io.py. Admit is
--     `_submit`, Worker `_run`, Preemptive `_preemptive_stop` and `close`.
--   Execution.Port: `RobotAdapterCommandPort` of src/embodirun/devices/execution/arbitration.py.
--   Jobs: `JobRegistry` of src/embodirun/application/jobs.py over the table of
--     src/embodirun/application/job_store.py. Rows has what each transaction writes, Registry the
--     clients' calls, Worker `_run_job` and `_run_cancel_callback_impl`.
--   Devices: src/embodirun/devices/lifecycle.py. Types has its records, Ledger `DeviceStateStore`,
--     Manager `DeviceManager` and its marks, Acquire `acquire`, Close the releases and closings, Events
--     what may happen to a manager, Changes and Transitions what that does to its records.
--   Observations: src/embodirun/devices/observations. Store is `ObservationStore` and Subscription
--     `ObservationSubscription` of store.py, Values and Freezing `_freeze` and `_thaw` of values.py,
--     Window and Refinement the history of a store.
--   Application: src/embodirun/application. Effects is the sequence of calls that a run makes, Direct
--     `DirectExecutionRunner.run` of direct_execution.py, ModelLoop `ControlRuntime` of model_loop.py,
--     Proposals `generate_proposal` of proposals.py.
--   Deployment: src/embodirun/deployment/state.py. State has its records and `_parse_state`, RoundTrip
--     the payload of `StateStore.save`.
--   Auth: `AuthPolicy` of src/embodirun/application/auth.py.
--
-- The model. What the code does under a lock is one function on a state record; what it does between
-- two locks (a call of the port, of the driver, of a job's callback) is an argument, its answer. A
-- relation `Step` has one constructor for each such function, and `Reach` is any sequence of them, so
-- a statement about `Reach` is one about every interleaving of the threads. A method run alone is the
-- sequence of its functions. The clock's readings, fresh identities and run identities are arguments;
-- times are natural numbers of one unit. A thread's event is its identity, and the state says which
-- are set. Devices.Events does the same with lists of events. In Application a run is a function from
-- the answers of what it calls to the sequence of its calls and its outcome. In Devices the end of a
-- closing is two events: the closer's end, which runs without the manager's lock and releases the
-- process locks, and the removal of the record. What `copy.deepcopy` makes of a key that is not an
-- immutable value is a parameter of Observations.Values. No loop needs fuel: waiting loops are turns
-- that do nothing, and all else is structural.
--
-- Not modelled: snapshots and other reports, emitted events, elapsed times, the checks of a time-out
-- argument's type, thread start-up and joins, the rollback of a database transaction that fails, the
-- JSON texts of parameters and results (taken as strings), the lock files and the ledger's text of the
-- device manager and a release of a lock that raises, the observation hub, and the rest of the repository: HTTP servers and clients,
-- robot bindings, model services, the rest of deployment, recording, agents, integrations.
pub mod Base
pub mod Execution
pub mod Jobs
pub mod Auth
pub mod Observations
pub mod Devices
pub mod Application
pub mod Deployment
