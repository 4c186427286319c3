-- ===== src/Harness/Workspaces/Closing.antt =====
-- harness/workspaces.py: closing a workspace, and recovering a lost one.
use ach_agent.Base.{
  String, Bool, true, false, not, ◌&&◌, ◌||◌, Option, none, some, ◌==◌, nat_eq, string_eq,
  if◌then◌else◌,
}
use ach_agent.Base.Dict.{is_some}
use ach_agent.Base.Equality.{option_eq}
use ach_agent.Harness.Workspaces.{
  Endpoint, recovery, failed_start, closing, recovering, Phase, idle, placing, starting, committing,
  retiring, Slot, with_error, is_idle, is_closing,
}

-- close, up to its wait
unfoldable pub close_workspace : Slot → Option Slot
close_workspace s =
    let unpublished = record s { active = none } in
    if not s.held
    then none
    else if is_some s.close_queued || is_closing s.phase
    then some unpublished
    else some (record unpublished { close_queued = some s.active })

abbrev pub endpoint_to_close : Option Endpoint → Option (Option Endpoint) → Option Endpoint
endpoint_to_close (some e) queued = some e
endpoint_to_close none none = none
endpoint_to_close none (some unpublished) = unpublished

-- _do_close, up to `_commit`
unfoldable pub start_close : Slot → Option Slot
start_close s =
    let unpublished = record s { active = none; close_queued = none } in
    if not (is_idle s.phase && is_some s.close_queued)
    then none
    else elim (endpoint_to_close s.active s.close_queued) [
      | none ↦ some unpublished
      | some e ↦ some (if s.held then record unpublished { phase = committing e } else unpublished)
    ]

-- the receipt is valid, or the unit restarted meanwhile (InstanceMismatch)
unfoldable pub commit_done : Slot → Option Slot
commit_done s = elim s.phase [
  | committing e ↦ some (record s { phase = retiring closing })
  | _ ↦ none
]

-- SnapshotTransientFailure: still serving, and the handler around it keeps the error
unfoldable pub commit_deferred : Slot → Option Slot
commit_deferred s = elim s.phase [
  | committing e ↦ some (record (with_error s) { phase = idle; active = some e })
  | _ ↦ none
]

unfoldable pub commit_failed : Slot → Option Slot
commit_failed s = elim s.phase [
  | committing e ↦ some (record (with_error s) { phase = idle })
  | _ ↦ none
]

abbrev pub is_recovering : Phase → Bool
is_recovering (placing recovery) = true
is_recovering (starting recovery) = true
is_recovering (retiring recovering) = true
is_recovering (retiring (failed_start recovery)) = true
is_recovering _ = false

-- recover, up to its wait
unfoldable pub recover_workspace : String → Slot → Option Slot
recover_workspace lost s =
    if is_some s.recover_queued || is_recovering s.phase
    then none
    else some (record s { recover_queued = some lost })

abbrev pub is_instance : Option Endpoint → Option String → Bool
is_instance (some e) (some lost) = e.instance_id == lost
is_instance _ _ = false

-- _do_recover, up to `_retire`
unfoldable pub start_recover : Slot → Option Slot
start_recover s =
    let waiting = record s { recover_queued = none } in
    if not (is_idle s.phase && is_some s.recover_queued)
    then none
    else if is_instance s.active s.recover_queued
    then some (record waiting { active = none; phase = retiring recovering })
    else some waiting
