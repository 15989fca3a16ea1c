-- ===== src/Lib.antt =====
-- The control core of the autonomous agent (autonomous_agent/): the stores, policies and gates that
-- decide whether an action may run, and that record that it did.
--
-- The parts, the file of the program that each models, and how they interact:
--
-- * Queue (autonomous_agent/task_queue.py): the durable queue of background tasks. Queue.Item has the
--   records and their validation, Queue.Disk the file (`_load_unlocked`, `_save_unlocked`), Queue.Store
--   one function for each method, Queue.Command the methods as steps on the file.
-- * Effects (autonomous_agent/external_side_effects.py): the ledger of external side effects, in the
--   same layout; an executor claims a key before it acts and marks it afterwards.
-- * Policy (autonomous_agent/capability_policy.py, autonomous_agent/tool_registry.py,
--   autonomous_agent/consequence_policy.py, autonomous_agent/digital/authorization.py): which tools may
--   run, and when without an approval.
-- * Gates (autonomous_agent/admission.py, readiness.py, production_audit.py, verification_gate.py,
--   release_gate.py, resilience.py and budget.py of the same directory): the decisions in front of and
--   around an execution. The seconds of a budget are floating-point numbers and so a parameter.
-- * Session (autonomous_agent/workflow/session.py with the action budget of workflow/models.py and the
--   identifiers of workflow/policy.py): the progress of a workflow, its checkpoint and its restoration.
-- * Lifecycle (autonomous_agent/action_lifecycle.py, lifecycle_ledger.py, lifecycle_recovery.py): the
--   states of an action, and the ledger that chains its transitions by hashes.
-- * Dag (autonomous_agent/task_dag.py): Dag.Graph has the specifications, the checks, the planner and
--   `topological_order`, Dag.Run `execute_dag`. The plan of a single task and the digest of a graph are
--   parameters, and the runner is a function from a node to what it returns or raises.
-- * Adaptive (autonomous_agent/adaptive_execution.py): Adaptive.Observation has the records, and
--   Adaptive.Run `execute_adaptive_plan`, with the tools of Policy.Tool. The execution of one step
--   (`execute_plan` of execution_engine.py) and the replanner are parameters: both may answer anything or
--   raise, and the replanner may return None.
-- * Leases (autonomous_agent/concurrency.py): Leases.Store has the file of the leases, the methods and
--   the runs of calls. The times are floating-point numbers and so a parameter (`Floats`).
-- * Worker (autonomous_agent/background_worker.py): Worker.Loop composes the methods of Queue.Store and
--   Leases.Store into `run_once` and `run_until_empty`; the handler is a parameter. `run_forever` is not
--   modelled.
-- * Credentials (autonomous_agent/auth_broker.py): Credentials.Broker has the permission check, and the
--   leases of credentials with the calls that issue, use, revoke and purge them. The provider of the
--   secrets is a parameter, the time a number, and a caller may present any lease.
--
-- Base has the texts, lists, dictionaries, integers and exceptions of Python that the parts share; a
-- method that may raise returns a `Result`. Storage is a JSON value and what a store makes of it, Clock
-- the timestamps. A store's method holds its lock from the load to the save, so it is one step on the
-- file; the order of the steps is the list of calls of a run.
--
-- Parameters stand for what is not in the program: the JSON text form, `str` and `int` of other values
-- (`Conversions`), `datetime.fromisoformat` (`Calendar`), SHA-256, lower case, and the redaction and
-- metadata checks of a session. The current time is an argument of each call. The loops
-- over a list are recursions on it. The two `while` loops of the task graph run on fuel, one round for
-- each node and one more where the last round only finds that nothing changed. The loop of an adaptive
-- execution has a round for each step of the plan and 12 for each replacement that is allowed. A run out
-- of fuel is a result of its own.
--
-- Not modelled: a crash in the middle of a write (the program replaces files atomically), the lock
-- itself, log output, and the parts that call external services, models or programs.
mod Base
pub mod Storage
pub mod Clock
pub mod Queue
pub mod Effects
pub mod Policy
pub mod Gates
pub mod Session
pub mod Lifecycle
pub mod Dag
pub mod Adaptive
pub mod Leases
pub mod Worker
pub mod Credentials
