-- ===== src/Harness/Workspaces.antt =====
-- harness/workspaces.py: `WorkspaceManager`. Its state is keyed by `workspace_ref`, and a `Slot` is what
-- it holds under one key: membership of `_occupied`, the values of `_active` and `_errors`, and of the
-- key's `_RefOwner` the tasks that wait for its lock and how far the one that has it is. Each function is
-- the code from one await to the next. The order in which waiting tasks get the lock is left open.
pub mod Activation
pub mod Closing
pub mod Adoption
pub mod Steps
pub mod Sound
pub mod Roomy
pub mod Tenure
pub mod Manager
mod Examples
use ach_agent.Base.{
  ℕ, suc, String, Bool, true, false, not, ◌&&◌, ◌||◌, Option, none, some, List, [], ◌∷◌, ◌==◌,
  nat_eq, string_eq, if◌then◌else◌, elem,
}
use ach_agent.Base.Dict.{is_some}
use ach_agent.Base.Equality.{option_eq}

pub record Endpoint : Type 0 where
  pub name : String
  pub instance_id : String
  pub base_url : String

-- who runs `_start`: an activation, or a recovery
pub data Job : Type 0 where
  activation recovery : Job

-- who runs `_retire`
pub data Retirement : Type 0 where
  failed_start : Job → Retirement
  closing recovering unadopted : Retirement

-- The await at which the task that has the lock stands: `place`, the rest of `_start`, `_commit`, the
-- source's `retire`, or the probing of a unit that already runs.
pub data Phase : Type 0 where
  idle : Phase
  placing starting : Job → Phase
  committing : Endpoint → Phase
  retiring : Retirement → Phase
  adopting : Phase

pub record Slot : Type 0 where
  pub held : Bool
  pub active : Option Endpoint
  -- the identity of the error
  pub error : Option ℕ
  pub phase : Phase
  pub activate_queued : Bool
  -- with the endpoint that `close` took from `_active`
  pub close_queued : Option (Option Endpoint)
  pub recover_queued : Option String
  pub retire_queued : Bool
  pub adopt_queued : Bool
  -- the retirements that go on behind their timeout, by the identity of the error
  pub late : List ℕ
  -- the errors made so far
  pub errors : ℕ

abbrev pub untouched : Slot
untouched = record {
  held = false;
  active = none;
  error = none;
  phase = idle;
  activate_queued = false;
  close_queued = none;
  recover_queued = none;
  retire_queued = false;
  adopt_queued = false;
  late = [];
  errors = 0;
}

-- _release
abbrev pub release : Slot → Slot
release s = record s { held = false; error = none }

-- _errors[key] = error
abbrev pub with_error : Slot → Slot
with_error s = record s { error = some s.errors; errors = suc s.errors }

abbrev pub is_idle : Phase → Bool
is_idle idle = true
is_idle _ = false

-- the owner's "close", "recover", "retire" or "adopt" task has the lock
abbrev pub is_lifecycle : Phase → Bool
is_lifecycle idle = false
is_lifecycle (placing activation) = false
is_lifecycle (starting activation) = false
is_lifecycle (retiring (failed_start activation)) = false
is_lifecycle _ = true

abbrev pub is_closing : Phase → Bool
is_closing (committing e) = true
is_closing (retiring closing) = true
is_closing _ = false

abbrev pub lifecycle_pending : Slot → Bool
lifecycle_pending s =
    is_some s.close_queued
    || is_some s.recover_queued
    || s.retire_queued
    || s.adopt_queued
    || is_lifecycle s.phase
