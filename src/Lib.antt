-- ===== src/Lib.antt =====
-- ach-agent: a verification library for the runtime (runtime/src/ach_runtime).
--
-- The runtime admits events of its channels, keeps them apart by Workspace and session, and hands
-- each to a runner under limits on concurrency.
--
-- Base              the shared names, integers, Boolean tests, and Python's `dict` behind its laws
-- Channels.Event    channels/event.py: the events
-- Channels.Queue    channels/queue.py: the consume loop of `QueueConsumer`
-- Channels.Routing  channels/routing.py: the workspace key and the session key of an event
-- Harness.Refs      harness/refs.py: the digests that name a Workspace, a session, an invocation
-- Harness.Admission harness/admission.py: `Admission` and `_Lane`
--   State           the fields of the object, its tickets and recovered runs, and the reads of them
--   Ledger          `_fail`, `_expire`, `_release_capacity_once`, `_cancel_monitor`, `_retire`,
--                   `_forget`, `_sweep_expired`, `_existing_ticket`
--   Admit           `admit`, `_check_rate`, `admit_script`, `recover`
--   Permits         `_channel_sem`, `_workspace_sem`, `_acquire_all`, `_acquire_script`
--   Tasks           `_run_ticket`, `_run_script_ticket`, `_Lane._consume`, `_monitor_deadline`,
--                   `_observe_recovered`
--   Close           `close`
--   Run             the constructor, and schedules of all of these
--   Balance, Permitted, Capacity, Again, Rates and Run's children hold the proofs, Examples the
--   tests.
-- Storage.Archive   storage/archive.py: `_MemberCheck`, the checks on the members of an archive
-- Storage.Cache     storage/cache.py: `BoundedCache`
-- Storage.Capped    storage/archive.py: `write_capped`
-- Harness.Workspaces harness/workspaces.py: `WorkspaceManager`
--   Activation        `ensure`, `_activate`, `_start`, `_retire`, `_retired_late`
--   Closing           `close`, `_do_close`, `recover`, `_do_recover`
--   Adoption          `_reserve_known`, `_adopt_one`, `_defer_adoption`
--   Steps, Manager    the steps of a slot, and of all slots under the shared capacity
--   Sound, Roomy, Tenure and Manager's children hold the proofs.
-- Storage.Fencing   storage/fencing.py, and the documents that storage/s3.py writes next
-- Storage.Refs      storage/refs.py: `StateRef` and the keys of its objects
-- Storage.S3        storage/s3.py and the records of storage/api.py
--   Documents         the JSON documents, written and checked
--   Requests          the requests to S3, to the staging file and to the clock, and the failures
--   Registry          `_read_registry`, `_read_commit_record`, `_write_commit_record`,
--                     `_cas_write_registry`, `current_writer`
--   Acquire           `acquire_writer`
--   Persist           `_receive_bounded`, `_upload_snapshot_immutable`, `_receipt_from`
--   Commit            `_commit`, `_reconciled_receipt_if_applied` and `persist`
--   Restore           `restore`, `_open`, `_check_snapshot_expiry`
-- Templating.Render templating/render.py: the templates of routing overrides
--
-- The code of `Admission` runs on one event loop, so what stands between two awaits is one step. An
-- action of `Run` is one such step, a call of an entry point, a future that a caller cancels, or a
-- new reading of the clock; a schedule is any list of actions. A lane's step takes an entry and goes
-- up to the first sleep, or makes one more round for the permits. A runner is the caller's code: its
-- start is the step that takes the permits and its end is an action with what it returned or raised;
-- it does not swallow its own cancellation and does not raise a cancellation by itself. Times are
-- microseconds, and the clock is read once per step. A ticket's futures are found by its serial
-- number, which is its object identity. `alarms` lists the reasons that the alarm hook is called
-- with. `close` is one step: no call that comes in while it waits is modelled, and the tickets of a
-- lane whose task never ran are retired with the lanes, not behind them. SHA-256, the JSON
-- encoder and `str` are a parameter, of which nothing is assumed.
--
-- A path of an archive is the list of its characters' codes, a stack of its components is listed
-- from the top. The cache's lock makes each request one step; its directory is a table, and a write
-- to the disk succeeds or raises. A member's size is signed, as tarfile reads it. What each call of
-- `_run_owned` in `write_capped` comes to is an argument.
--
-- The registry of a domain changes by conditional writes, each of which replaces the document that
-- was read or fails, as S3 documents it; a history is the list of the writes that succeeded. Leases
-- are those of one domain.
--
-- `S3Storage` runs between other clients, so its methods are programs (Base.Program): a request, and
-- what is done with any reply to it. What holds of a program holds for every environment that answers
-- its requests, failures and cancellations included. A body stands for the JSON value in it. The
-- dates are the standard library's and a parameter; an OverflowError of theirs is left out.
--
-- `QueueConsumer` is a program as well. Its loop is run for any number of iterations; the bound is
-- the fuel, and nothing is claimed of what comes after.
--
-- `WorkspaceManager` keeps everything under the digest of a Workspace, so its state is one slot per
-- key. A step is the code from one await to the next, and the tasks that wait for a key's lock get it
-- in any order. A unit stands once in the host's inventory.
--
-- Not modelled: what is only traffic (HTTP servers and clients, subprocesses, Kubernetes, metrics),
-- the log texts, the parts of the runtime that no file above names, and the operator, which is
-- written in Go.
pub mod Base
pub mod Channels
pub mod Harness
pub mod Storage
pub mod Templating
