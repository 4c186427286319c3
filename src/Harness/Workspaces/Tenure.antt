-- ===== src/Harness/Workspaces/Tenure.antt =====
-- harness/workspaces.py: the life of a workspace, as a small machine, and that the manager follows it.
use ach_agent.Base.{
  elem, if◌then◌else◌, ◌||◌, ◌≡◌, Bool, true, false, not, Option, none, some, arith, ==_iff, nat_eq,
  string_eq,
}
use ach_agent.Base.Equality.{option_eq}
use ach_agent.Base.Dict.{is_some}
use ach_agent.Harness.Workspaces.{
  Slot, is_idle, Phase, idle, placing, starting, committing, retiring, adopting,
}
use ach_agent.Harness.Workspaces.Sound.{above, Sound, carries}
use ach_agent.Harness.Workspaces.Steps.{
  SlotEvent, slot_step, ensures, starts_activation, places, refuses_place, fails_place, starts,
  fails_start, retires, times_out, fails_retire, retires_late, closes, starts_close, commits,
  defers_commit, fails_commit, recovers, starts_recover, learns, starts_adopt, adopts,
  cancels_adopt, defers_adopt, fails_adopt, starts_retire,
}

-- What may be said of a workspace: no slot; a slot that nothing uses; a task that waits for the lock; one
-- that has it and prepares a unit, looks at one that runs already, saves its files or withdraws it; an
-- endpoint that serves, or serves again behind a save that was put off; one that `close` took; an error.
pub data Tenure : Type 0 where
  vacant reserved waiting preparing inspected saving withdrawing serving deferred unpublished
        failed :
      Tenure

abbrev pub busy : Phase → Tenure
busy idle = reserved
busy (placing job) = preparing
busy (starting job) = preparing
busy (committing e) = saving
busy (retiring why) = withdrawing
busy adopting = inspected

abbrev pub tenure : Slot → Tenure
tenure s =
    if is_some s.active
    then if is_some s.error then deferred else serving
    else if carries s.close_queued
    then unpublished
    else if not (is_idle s.phase)
    then busy s.phase
    else if is_some s.error
    then failed
    else if s.activate_queued || s.adopt_queued || s.retire_queued
    then waiting
    else if s.held
    then reserved
    else vacant

-- The moves of the machine.
abbrev pub may_move : Tenure → Tenure → Bool
may_move vacant vacant = true
may_move vacant waiting = true
may_move reserved reserved = true
may_move reserved waiting = true
may_move waiting waiting = true
may_move waiting preparing = true
may_move waiting inspected = true
may_move waiting withdrawing = true
may_move preparing preparing = true
may_move preparing serving = true
may_move preparing withdrawing = true
may_move preparing reserved = true
may_move preparing vacant = true
may_move inspected inspected = true
may_move inspected serving = true
may_move inspected waiting = true
may_move inspected reserved = true
may_move saving saving = true
may_move saving withdrawing = true
may_move saving deferred = true
may_move saving failed = true
may_move withdrawing withdrawing = true
may_move withdrawing preparing = true
may_move withdrawing failed = true
may_move withdrawing reserved = true
may_move withdrawing vacant = true
may_move serving serving = true
may_move serving unpublished = true
may_move serving saving = true
may_move serving withdrawing = true
may_move serving reserved = true
may_move deferred deferred = true
may_move deferred unpublished = true
may_move deferred saving = true
may_move deferred withdrawing = true
may_move deferred failed = true
may_move unpublished unpublished = true
may_move unpublished saving = true
may_move failed failed = true
may_move failed vacant = true
may_move _ _ = false

abbrev pub MovesIf : Slot → Option Slot → Type 0
MovesIf s none = Unit
MovesIf s (some s') = may_move (tenure s) (tenure s') ≡ true

pub slot_step-MovesIf :
    (room : Bool) (e : SlotEvent) (s : Slot) → Sound s → MovesIf s (slot_step room e s)
unfolding slot_step elem above
slot_step-MovesIf room ensures s h = ground (arith, h)
slot_step-MovesIf room starts_activation s h = ground (arith, h)
slot_step-MovesIf room places s h = ground (arith, h)
slot_step-MovesIf room refuses_place s h = ground (arith, h)
slot_step-MovesIf room fails_place s h = ground (arith, h)
slot_step-MovesIf room (starts e) s h = ground (arith, h)
slot_step-MovesIf room fails_start s h = ground (arith, h)
slot_step-MovesIf room retires s h = ground (arith, h)
slot_step-MovesIf room times_out s h = ground (arith, h)
slot_step-MovesIf room fails_retire s h = ground (arith, h)
slot_step-MovesIf room (retires_late error) s h = ground (arith, h, ==_iff s.error (some error))
slot_step-MovesIf room closes s h = ground (arith, h)
slot_step-MovesIf room starts_close s h = ground (arith, h)
slot_step-MovesIf room commits s h = ground (arith, h)
slot_step-MovesIf room defers_commit s h = ground (arith, h)
slot_step-MovesIf room fails_commit s h = ground (arith, h)
slot_step-MovesIf room (recovers lost) s h = ground (arith, h)
slot_step-MovesIf room starts_recover s h = ground (arith, h)
slot_step-MovesIf room learns s h = ground (arith, h)
slot_step-MovesIf room starts_adopt s h = ground (arith, h)
slot_step-MovesIf room (adopts e) s h = ground (arith, h)
slot_step-MovesIf room cancels_adopt s h = ground (arith, h)
slot_step-MovesIf room defers_adopt s h = ground (arith, h)
slot_step-MovesIf room fails_adopt s h = ground (arith, h)
slot_step-MovesIf room starts_retire s h = ground (arith, h)
