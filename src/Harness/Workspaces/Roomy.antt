-- ===== src/Harness/Workspaces/Roomy.antt =====
-- harness/workspaces.py: when a step takes a slot.
use ach_agent.Base.{◌≡◌, ◌+◌, ◌≤◌, Bool, true, Option, none, some, bit, arith, nat_eq, string_eq}
use ach_agent.Base.Equality.{option_eq}
use ach_agent.Harness.Workspaces.{Slot}
use ach_agent.Harness.Workspaces.Steps.{
  SlotEvent, slot_step, allowed, ensures, starts_activation, places, refuses_place, fails_place,
  starts, fails_start, retires, times_out, fails_retire, retires_late, closes, starts_close,
  commits, defers_commit, fails_commit, recovers, starts_recover, learns, starts_adopt, adopts,
  cancels_adopt, defers_adopt, fails_adopt, starts_retire,
}

-- A slot that was free is taken only where there is room.
abbrev pub RoomyIf : Bool → Slot → Option Slot → Type 0
RoomyIf room s none = Unit
RoomyIf room s (some s') = bit s'.held ≤ bit s.held + bit room

pub slot_step-RoomyIf :
    (room : Bool) (e : SlotEvent) (s : Slot)
    → allowed true e ≡ true
    → RoomyIf room s (slot_step room e s)
unfolding slot_step
slot_step-RoomyIf room ensures s h = ground arith
slot_step-RoomyIf room starts_activation s h = ground arith
slot_step-RoomyIf room places s h = ground arith
slot_step-RoomyIf room refuses_place s h = ground arith
slot_step-RoomyIf room fails_place s h = ground arith
slot_step-RoomyIf room (starts e) s h = ground arith
slot_step-RoomyIf room fails_start s h = ground arith
slot_step-RoomyIf room retires s h = ground arith
slot_step-RoomyIf room times_out s h = ground arith
slot_step-RoomyIf room fails_retire s h = ground arith
slot_step-RoomyIf room (retires_late error) s h = ground arith
slot_step-RoomyIf room closes s h = ground arith
slot_step-RoomyIf room starts_close s h = ground arith
slot_step-RoomyIf room commits s h = ground arith
slot_step-RoomyIf room defers_commit s h = ground arith
slot_step-RoomyIf room fails_commit s h = ground arith
slot_step-RoomyIf room (recovers lost) s h = ground arith
slot_step-RoomyIf room starts_recover s h = ground arith
slot_step-RoomyIf room learns s h = absurd (ground (arith, h))
slot_step-RoomyIf room starts_adopt s h = ground arith
slot_step-RoomyIf room (adopts e) s h = ground arith
slot_step-RoomyIf room cancels_adopt s h = ground arith
slot_step-RoomyIf room defers_adopt s h = ground arith
slot_step-RoomyIf room fails_adopt s h = ground arith
slot_step-RoomyIf room starts_retire s h = ground arith
