-- ===== src/Harness/Workspaces/Activation.antt =====
-- harness/workspaces.py: activating a workspace, and retiring its unit.
use ach_agent.Base.{
  ℕ, Bool, true, false, not, ◌&&◌, ◌||◌, Option, none, some, ◌∷◌, ◌==◌, nat_eq, string_eq,
  if◌then◌else◌, elem,
}
use ach_agent.Base.Dict.{is_some}
use ach_agent.Base.Equality.{option_eq}
use ach_agent.Harness.Workspaces.{
  Endpoint, activation, recovery, Retirement, failed_start, recovering, idle, placing, starting,
  retiring, Slot, release, with_error, is_idle, lifecycle_pending,
}

-- The last pass of ensure's loop: there is a slot, and the key's activation is run, or the one that is
-- pending is joined. `none`: the loop waits, raises or returns. `room`: fewer than `_capacity` other keys
-- are occupied.
unfoldable pub ensure_active : Bool → Slot → Option Slot
ensure_active room s =
    if lifecycle_pending s || is_some s.error || is_some s.active || not (s.held || room)
    then none
    else some (record s { held = true; activate_queued = s.activate_queued || is_idle s.phase })

-- _activate, up to `place`
unfoldable pub start_activation : Bool → Slot → Option Slot
start_activation room s =
    let waiting = record s { activate_queued = false } in
    if not (is_idle s.phase && s.activate_queued)
    then none
    else if is_some s.error || is_some s.active || not (s.held || room)
    then some waiting
    else some (record waiting { held = true; phase = placing activation })

-- behind `place` of _start
unfoldable pub place_done : Slot → Option Slot
place_done s = elim s.phase [ placing job ↦ some (record s { phase = starting job }) | _ ↦ none ]

-- WorkspaceUnhosted, WorkspaceAssemblyUnavailable or CancelledError
unfoldable pub place_refused : Slot → Option Slot
place_refused s = elim s.phase [
  | placing job ↦ some (record (release s) { phase = idle })
  | _ ↦ none
]

-- any other error: the slot stays held
unfoldable pub place_failed : Slot → Option Slot
place_failed s = elim s.phase [ placing job ↦ some (record s { phase = idle }) | _ ↦ none ]

unfoldable pub start_done : Endpoint → Slot → Option Slot
start_done e s = elim s.phase [
  | starting job ↦ some (record s { active = some e; phase = idle })
  | _ ↦ none
]

unfoldable pub start_failed : Slot → Option Slot
start_failed s = elim s.phase [
  | starting job ↦ some (record s { phase = retiring (failed_start job) })
  | _ ↦ none
]

-- _retire confirmed: a recovery reserves the slot again, if there is room, and starts anew
abbrev pub behind_retire : Bool → Retirement → Slot → Slot
behind_retire room recovering s =
    if room
    then record (release s) { held = true; phase = placing recovery }
    else record (release s) { phase = idle }
behind_retire room _ s = record (release s) { phase = idle }

unfoldable pub retired : Bool → Slot → Option Slot
retired room s = elim s.phase [ retiring why ↦ some (behind_retire room why s) | _ ↦ none ]

unfoldable pub retire_timed_out : Slot → Option Slot
retire_timed_out s = elim s.phase [
  | retiring why ↦ some (record (with_error s) { phase = idle; late = s.errors ∷ s.late })
  | _ ↦ none
]

-- the source's `retire` raises
unfoldable pub retire_failed : Slot → Option Slot
retire_failed s = elim s.phase [ retiring why ↦ some (record s { phase = idle }) | _ ↦ none ]

-- _retired_late, of a task that was not cancelled. The step leaves `late` as it is: taken again, it finds
-- another error or none, since each error is a new one.
unfoldable pub retired_late : ℕ → Slot → Option Slot
retired_late error s =
    if not (elem error s.late)
    then none
    else if s.error == some error
    then some (release s)
    else some s
