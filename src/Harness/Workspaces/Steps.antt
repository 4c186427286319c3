-- ===== src/Harness/Workspaces/Steps.antt =====
-- harness/workspaces.py: the steps of a slot.
use ach_agent.Base.{ℕ, String, Bool, true, not, Option}
use ach_agent.Harness.Workspaces.{Endpoint, Slot}
use ach_agent.Harness.Workspaces.Activation.{
  ensure_active, start_activation, place_done, place_refused, place_failed, start_done,
  start_failed, retired, retire_timed_out, retire_failed, retired_late,
}
use ach_agent.Harness.Workspaces.Closing.{
  close_workspace, start_close, commit_done, commit_deferred, commit_failed, recover_workspace,
  start_recover,
}
use ach_agent.Harness.Workspaces.Adoption.{
  reserve_known, start_adopt, adopted, adopt_cancelled, adopt_deferred, adopt_failed, start_retire,
}

-- What happens next under a key: a call, a task that gets the lock, or what an await comes to.
pub data SlotEvent : Type 0 where
  starts adopts : Endpoint → SlotEvent
  retires_late : ℕ → SlotEvent
  recovers : String → SlotEvent
  ensures starts_activation places refuses_place fails_place fails_start retires times_out
        fails_retire closes starts_close commits defers_commit fails_commit starts_recover learns
        starts_adopt cancels_adopt defers_adopt fails_adopt starts_retire :
      SlotEvent

-- `none`: the event cannot happen, or changes nothing.
unfoldable pub slot_step : Bool → SlotEvent → Slot → Option Slot
unfolding ensure_active start_activation place_done place_refused place_failed start_done
    start_failed retired retire_timed_out retire_failed retired_late close_workspace start_close
    commit_done commit_deferred commit_failed recover_workspace start_recover reserve_known
    start_adopt adopted adopt_cancelled adopt_deferred adopt_failed start_retire
slot_step room ensures s = ensure_active room s
slot_step room starts_activation s = start_activation room s
slot_step room places s = place_done s
slot_step room refuses_place s = place_refused s
slot_step room fails_place s = place_failed s
slot_step room (starts e) s = start_done e s
slot_step room fails_start s = start_failed s
slot_step room retires s = retired room s
slot_step room times_out s = retire_timed_out s
slot_step room fails_retire s = retire_failed s
slot_step room (retires_late error) s = retired_late error s
slot_step room closes s = close_workspace s
slot_step room starts_close s = start_close s
slot_step room commits s = commit_done s
slot_step room defers_commit s = commit_deferred s
slot_step room fails_commit s = commit_failed s
slot_step room (recovers lost) s = recover_workspace lost s
slot_step room starts_recover s = start_recover s
slot_step room learns s = reserve_known s
slot_step room starts_adopt s = start_adopt s
slot_step room (adopts e) s = adopted e s
slot_step room cancels_adopt s = adopt_cancelled s
slot_step room defers_adopt s = adopt_deferred s
slot_step room fails_adopt s = adopt_failed s
slot_step room starts_retire s = start_retire s

-- Nothing is allocated before the adoption is done, and it reserves what the host's inventory names.
abbrev pub allowed : Bool → SlotEvent → Bool
allowed settled ensures = settled
allowed settled learns = not settled
allowed settled e = true
