-- ===== src/Harness/Workspaces/Sound.antt =====
-- harness/workspaces.py: one owner for each slot.
use ach_agent.Base.{
  elem, List, [], ◌∷◌, ltb, suc, if◌then◌else◌, ◌<◌, ◌≡◌, ℕ, ◌+◌, ◌≤◌, Bool, true, false, not,
  Option, none, some, bit, arith, ==_iff, nat_eq, string_eq,
}
use ach_agent.Base.Equality.{option_eq}
use ach_agent.Base.Dict.{is_some}
use ach_agent.Harness.Workspaces.{
  Endpoint, Slot, is_idle, Phase, idle, committing, retiring, closing, recovering,
}
use ach_agent.Harness.Workspaces.Steps.{
  SlotEvent, slot_step, ensures, starts_activation, places, refuses_place, fails_place, starts,
  fails_start, retires, times_out, fails_retire, retires_late, closes, starts_close, commits,
  defers_commit, fails_commit, recovers, starts_recover, learns, starts_adopt, adopts,
  cancels_adopt, defers_adopt, fails_adopt, starts_retire,
}

-- `close` took an endpoint, which its task is to commit.
abbrev pub carries : Option (Option Endpoint) → Bool
carries (some (some e)) = true
carries _ = false

-- What may act on the unit or serve it: the task that has the lock, an activation, a retirement or an
-- adoption that waits for it, a published endpoint, or one that is to be committed.
abbrev pub owners : Slot → ℕ
owners s =
    bit (not (is_idle s.phase))
    + bit s.activate_queued
    + bit s.retire_queued
    + bit s.adopt_queued
    + bit (is_some s.active)
    + bit (carries s.close_queued)

-- The error is that of a retirement which goes on, and which will free the slot.
abbrev pub lingers : Slot → Bool
lingers s = elim s.error [ none ↦ false | some error ↦ elem error s.late ]

-- at work for a unit that no `close` and no recovery takes away
abbrev pub is_beginning : Phase → Bool
is_beginning idle = false
is_beginning (committing e) = false
is_beginning (retiring closing) = false
is_beginning (retiring recovering) = false
is_beginning _ = true

abbrev pub beginnings : Slot → ℕ
beginnings s =
    bit (is_beginning s.phase) + bit s.activate_queued + bit s.retire_queued + bit s.adopt_queued

-- above each identity of `late`
unfoldable pub above : List ℕ → ℕ
above [] = 0
above (error ∷ late) = if ltb error (above late) then above late else suc error

pub elem-above : (n : ℕ) (l : List ℕ) → elem n l ≡ true → n < above l
unfolding elem above
elem-above n [] h = absurd (ground (arith, h))
elem-above n (m ∷ l) h = ground (arith, h, elem-above n l)

-- At most one owner or retirement that goes on, and none unless the slot is held; next to an error
-- nothing begins; and a new error is none of those that a retirement goes on behind.
abbrev pub Sound : Slot → Type 0
Sound s =
    (owners s + bit (lingers s) ≤ bit s.held)
    × (beginnings s + bit (is_some s.error) ≤ bit s.held)
    × (above s.late ≤ s.errors)

abbrev pub SoundIf : Option Slot → Type 0
SoundIf none = Unit
SoundIf (some s) = Sound s

-- Every step keeps a slot sound.
pub slot_step-Sound :
    (room : Bool) (e : SlotEvent) (s : Slot) → Sound s → SoundIf (slot_step room e s)
unfolding slot_step elem above
slot_step-Sound room ensures s h = ground (arith, h)
slot_step-Sound room starts_activation s h = ground (arith, h)
slot_step-Sound room places s h = ground (arith, h)
slot_step-Sound room refuses_place s h = ground (arith, h)
slot_step-Sound room fails_place s h = ground (arith, h)
slot_step-Sound room (starts e) s h = ground (arith, h)
slot_step-Sound room fails_start s h = ground (arith, h)
slot_step-Sound room retires s h = ground (arith, h)
slot_step-Sound room times_out s h = ground (arith, h, elem-above s.errors s.late)
slot_step-Sound room fails_retire s h = ground (arith, h)
slot_step-Sound room (retires_late error) s h = ground (arith, h, ==_iff s.error (some error))
slot_step-Sound room closes s h = ground (arith, h)
slot_step-Sound room starts_close s h = ground (arith, h)
slot_step-Sound room commits s h = ground (arith, h)
slot_step-Sound room defers_commit s h = ground (arith, h, elem-above s.errors s.late)
slot_step-Sound room fails_commit s h = ground (arith, h, elem-above s.errors s.late)
slot_step-Sound room (recovers lost) s h = ground (arith, h)
slot_step-Sound room starts_recover s h = ground (arith, h)
slot_step-Sound room learns s h = ground (arith, h)
slot_step-Sound room starts_adopt s h = ground (arith, h)
slot_step-Sound room (adopts e) s h = ground (arith, h)
slot_step-Sound room cancels_adopt s h = ground (arith, h)
slot_step-Sound room defers_adopt s h = ground (arith, h)
slot_step-Sound room fails_adopt s h = ground (arith, h)
slot_step-Sound room starts_retire s h = ground (arith, h)
