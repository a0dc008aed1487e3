-- ===== src/Lib.antt =====
-- EngramMesh: the core of the Python services (services/src/engrammesh) as functions, with the theorems
-- that make it correct.
--
-- The program has two modules over a shared kernel. The memory module records episodes: a handler asks
-- for authorization, builds an episode, and in one transaction appends it to the episode store and
-- publishes an event. The runtime module starts, reads and cancels durable executions: an orchestrator
-- writes snapshots and events to a runtime database, by a table of legal transitions. Both are reached by an
-- HTTP API: a route authenticates the request, maps it to a command or query, calls the handler and maps the
-- result or the exception to a response.
--
-- Files, with the sources under services/src/engrammesh:
--   Common: Python's dicts, integers, exceptions and list functions, as far as the sources use them; Keyset
--   and Slice are sorted rows, what stands behind a cursor, and pages.
--   Kernel: shared/kernel. Ids.antt is ids.py; Events.antt and Freeze.antt are events.py; Text, Calendar
--   and Datetime are what the sources use of str, uuid and datetime; Json.antt is the values that the
--   JSON walkers meet, and Parse the readers of decoded fields, over Python's parsers of UUIDs and times;
--   TimeKey and Cursor are the keys of the lists and the interface of the cursors' codec.
--   Memory: modules/memory. Scope, Episode and Claim are domain/model.py and Query is the queries of
--   ports.py and application/contracts.py; Database, UnitOfWork and Session are
--   adapters/in_memory/database.py and unit_of_work.py; RecordEpisode is application/record_episode.py
--   with its command; GetEpisode is application/get_episode.py; ListEpisodes is application/list_episodes.py,
--   over the paged stream of UnitOfWork/Stream; Claims is application/get_claim.py and
--   list_claims.py, over any claim store; Relay is application/relay_outbox.py, over any store and
--   publisher with the laws of IsRelay; Inbox is
--   application/process_inbox_event.py, over any inbox store with the laws of InboxStore (its SQL is not
--   modelled) and any processors. Append, Outcome, Replay, Reads and Once in the folders hold the theorems.
--   Runtime: modules/runtime. Status, Model and Plan are domain/model.py; Transitions is domain/state.py;
--   Database is runtime_state.py and adapters/in_memory/database.py; Orchestrator is
--   adapters/in_memory/orchestrator.py and adapters/shared/status_changed_event.py (in its folder, Cancel,
--   Start and Effect are about single operations; History, Same, Remembers and Again about sequences);
--   UseCases is application/start_execution.py, cancel_execution.py and get_execution_snapshot.py;
--   ListExecutions is application/list_executions.py with the stream of the database; SnapshotCodec is the
--   snapshots of adapters/shared/snapshot_codec.py; SnapshotWriter is
--   adapters/in_memory/snapshot_writer.py. Plan/Order, Graph, Release, Loop, Valid and Dag
--   hold the proof of the plan check.
--   Bootstrap: bootstrap. Auth is auth/dependencies.py and ports.py, over any token verifier. Http/Schemas,
--   Requests, Responses, Errors and App are schemas.py, the two halves of mappers.py, errors.py and app.py
--   of http; App has a function for each route up to its handler and one from there to the answer, and
--   App/Rows is the table of statuses of a recording, which App/Prepared and App/Statuses prove;
--   ClaimResponses and ClaimRoutes are the parts of schemas.py, mappers.py and app.py for claims.
--   Examples.antt in each folder runs the definitions and applies the theorems.
--
-- How the sources are read. A constructor with `__post_init__` is a function from the fields to the value
-- or the exception. Exceptions are values of Result; what was written before one stays written where the
-- source works on shared state. An identifier is the 128-bit integer of its UUID. A datetime is naive, or
-- aware with its instant and its offset in microseconds; aware ones are compared by the instant. A double
-- is NaN, infinite, or a whole number of units of 2^-1074. Authorization, clock and identities are inputs.
-- The lock of the memory database is a field: entering a transaction while it is held gives no result.
-- A read or a write of the runtime database is one step. Loops are recursions on lists; two are on
-- fuel: the `while` of `_validate_dag`, with one more than the nodes, since each turn visits another node, and
-- the client that follows the cursors of a list, with one more than the rows, since each page has a row.
--
-- Not modelled: PostgreSQL and Temporal adapters and the composition, which are calls of libraries; the
-- verifiers of tokens; what FastAPI and pydantic do before a route runs and after it returns, but for the
-- validators that the schemas declare; the text of the cursors and the codec of fingerprints; the relay of
-- the runtime module and the extraction of claims; what the scheduler of asyncio does between two operations. Of `str(scope)` in a fingerprint the scope itself is kept. Messages of the JSON walkers and
-- of the readers of fields come without the place of the fault.
pub mod Common
pub mod Kernel
pub mod Memory
pub mod Runtime
pub mod Bootstrap
