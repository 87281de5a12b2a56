-- ===== src/Lib.antt =====
-- Mind-Runtime keeps the long-lived state of a conversational agent: facts about users, agents and
-- relationships that have a lifecycle, and the messages that the agent sends on its own account. This
-- library models four of its parts and the contract objects that they share.
--
-- Contracts (Contracts.antt, src/mind_runtime/contracts): scopes, synchronization fields, state
-- snapshots and transitions. A constructor with checks, a dataclass with `__post_init__`, is a function
-- `make_...` from the record to the record or an exception. Exceptions are values by their class
-- (Base/Raising.antt), and a text that a message holds is not modelled.
--
-- The state plane (State.antt, src/mind_runtime/state):
--   State/Lifecycle       lifecycle.py, ids.py: statuses, current-like and terminal ones, identifiers
--   State/Definitions     definitions.py: definitions, the registry, the parsing of validity policies
--   State/Validity        validity.py: expiry by time (`evaluate_validity`, `_expired_successor`)
--   State/Relevance       relevance.py: the window after a cancellation
--   State/Resolver        resolver.py: `EffectiveStateResolver.resolve` and its view
--   State/Interpretation  reconciler.py: `StateIntent`, `interpret_observation`
--   State/Records         reconciler.py: the records that `_fresh_state`, `_terminal_record`, `_refresh`
--                         and `_transition` build
--   State/Steps           reconciler.py: `_reconcile` and what it calls, for one intent
--   State/Reconciler      reconciler.py: `FactualReconciler.apply`, its loops and what they carry
-- The children of these modules hold the proofs. A step of the reconciler gives the new state with the
-- transitions that it commits; a chain of transitions (State/Steps/Moves.antt) is a list in which each
-- starts where the one before ended and makes one of the moves that are listed there. They name the
-- intents of the call, since a lifecycle is given only where one of them asks for it.
--
-- The delivery plane (Delivery.antt, src/mind_runtime/delivery):
--   Delivery/Lifecycle    state.py: the lifecycle of a request and its table of transitions
--   Delivery/Retry        retry.py: `compute_retry_decision`
--   Delivery/KillSwitch   kill_switch.py: the switch's row, its blocks and `decide`
--   Delivery/Requests     __init__.py, contracts/checkpoint.py: requests, handoffs and receipts
--   Delivery/Equality     the equality that these dataclasses derive
--   Delivery/Rows         persistence.py: the columns of a request, `_request_from_row`
--   Delivery/Recording    persistence.py: `record_request`, `get_durable_request`
--   Delivery/Store        persistence.py: the other methods of `SqliteDeliveryBackend`
--   Delivery/Actions      how several calls of the store compose when one of them raises
--   Delivery/Daemon       daemon.py, reconcile.py: `DaemonPass`, the recovery of unfinished requests
-- A table of the store is a dictionary by primary key. The recording of requests is on rows of
-- columns, with the standard library's JSON and `isoformat` as a record of functions (`Codec`), of
-- which it is assumed that what is written is read back (`ReadsBack`); the rows of Delivery/Store
-- hold the objects. Each method makes its checks before its one write, so it is a function from the
-- store to the store or an exception; the daemon calls several of them, and what they wrote stays
-- when a later one raises, so its code is an action that gives the store also when it raises. The
-- carrier, the reconciler and the clock are fields of `DaemonPass`. The carrier gives a receipt or
-- the text of the exception that it raised. A pass drives a request once, so its clock is a function
-- of the request's id and of how many times the code read it for the request.
--
-- The intents (Intents.antt, src/mind_runtime/intents):
--   Intents/Records, Equality   contracts/intent.py: intents, transitions, wakes and their equality
--   Intents/Backend       persistence.py: the `IntentBackend` interface, `_validate_transition_shape`
--   Intents/Fits, Histories   what a history of versions and moves is
--   Intents/Lifecycle     lifecycle.py: `IntentLifecycleService`, over every backend
--   Intents/Memory        persistence.py: `InMemoryIntentBackend`
--   Intents/Sqlite        persistence.py: `SqliteIntentBackend`
--   Intents/Scheduler     scheduler.py: `IntentScheduler.tick`, over every backend
--   Intents/Permissions   contracts/action.py, behavior.py, situation.py: the policy's contracts
--   Intents/Policy        policy.py: `DeterministicActionPolicy`; its children Facts, Gates, OpenGates
--                         and Verdicts are about what it asks for
--   Intents/Runs          the states that calls of the service and ticks lead to, on any backend
--   Intents/Service, Moves, Replays, Successes   the service on the backend in memory
--   Intents/Finals        intents that have come to their end, on the backend in memory
--   Intents/Expiries, Ticks   the scheduler on the backend in memory
--   Intents/Durable       the service on the durable backend
-- A backend is a record of its operations over a type of states, and an operation gives a value with
-- the state after it, or raises. Lemmas on the service and the scheduler are stated over every backend
-- that keeps a property on legal moves (Intents/Lifecycle/Keeps.antt, Intents/Scheduler/Keeps.antt),
-- and each backend has its invariant (Intents/Memory/Invariant.antt, Intents/Sqlite/Invariant.antt).
-- Python's floats are a type parameter with their equality and the test that they lie
-- in the unit interval. The parsing of times and integers is a record of functions.
--
-- The pending overlay (Memory/Pending.antt, src/mind_runtime/memory/pending.py): evidence that waits
-- for its admission, as a dictionary by id with one function per method.
--
-- Numbers: versions, counts and times are naturals. A time is the number of microseconds since the
-- year 1, and every time is aware and in UTC; adding to a time past the year 9999 is an OverflowError
-- (Base/Times.antt). No loop needs fuel but the printing of a decimal number, whose fuel is one more
-- than the number, and so at least its count of digits.
--
-- Not modelled: the value types of states (a type parameter with its Python equality), SQLite and
-- the JSON of all but the requests (a row holds the objects that its columns spell), logging, and
-- the other packages: cognition, expression, dynamics, the rest of memory, facts, the scores of the
-- intent engine, pipeline and the evaluation harnesses.
pub mod Base
pub mod Contracts
pub mod State
pub mod Delivery
pub mod Intents
pub mod Memory
