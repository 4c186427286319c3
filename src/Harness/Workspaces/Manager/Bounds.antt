-- ===== src/Harness/Workspaces/Manager/Bounds.antt =====
-- harness/workspaces.py: how many slots are held, and by what.
use ach_agent.Base.{
  elem, ◌≡◌, refl, ◌∙◌, subst, ℕ, ◌≤◌, String, true, Option, none, some, List, [], ◌∷◌, bit, ◌==◌,
  string_eq, if_cases, arith,
}
use ach_agent.Base.Dict.{get, get-put, get-empty, sum-put, weigh, weigh-le-sum}
use ach_agent.Harness.Workspaces.{Slot}
use ach_agent.Harness.Workspaces.Steps.{slot_step, allowed}
use ach_agent.Harness.Workspaces.Sound.{above, Sound, SoundIf, slot_step-Sound}
use ach_agent.Harness.Workspaces.Roomy.{RoomyIf, slot_step-RoomyIf}
use ach_agent.Harness.Workspaces.Manager.{
  Manager, or_untouched, slot_of, hold, occupied, has_room, ManagerAction, at, settles, changed,
  act, act_all, new_manager,
}

abbrev pub AllSound : Manager → Type 0
AllSound m = (key : String) → Sound (slot_of key m)

changed-AllSound :
    (m : Manager) (key : String) (o : Option Slot)
    → AllSound m
    → SoundIf o
    → AllSound (changed key o m)
unfolding slot_of
changed-AllSound m key none h s other = h other
changed-AllSound m key (some t) h s other = rw (get-put key other t m.slots) (
    if_cases (λ o. Sound (or_untouched o)) (key == other) (some t) (get other m.slots) (λ _. s)
      (λ _. h other))

pub act-AllSound : (a : ManagerAction) (m : Manager) → AllSound m → AllSound (act a m)
unfolding act slot_of
act-AllSound settles m h = h
act-AllSound (at key e) m h =
    if_cases AllSound (allowed m.settled e)
      (changed key (slot_step (has_room key m) e (slot_of key m)) m) m
      (λ _. changed-AllSound m key _ h (slot_step-Sound (has_room key m) e (slot_of key m) (h key)))
      (λ _. h)

pub act_all-AllSound :
    (actions : List ManagerAction) (m : Manager) → AllSound m → AllSound (act_all actions m)
unfolding act_all
act_all-AllSound [] m h = h
act_all-AllSound (a ∷ later) m h = act_all-AllSound later (act a m) (act-AllSound a m h)

pub fresh-Sound : (capacity : ℕ) (key : String) → Sound (slot_of key (new_manager capacity))
unfolding slot_of elem above
fresh-Sound capacity key = rw (get-empty {V = Slot} key) (omega arith, omega arith, omega arith)

-- In any state that a manager reaches, a workspace has at most one of: a task at work on its unit, one
-- that waits to be (an activation, a retirement, an adoption, a close with an endpoint), a published
-- endpoint, or an error whose retirement goes on and will free the slot; and none at all where its slot
-- is free. An error of any kind is there only where the slot is held, and next to it no activation,
-- adoption or retirement of an unadopted unit waits or is at work. No retirement that goes on has an
-- identity that the next error gets.
pub act_all-Sound :
    (capacity : ℕ) (actions : List ManagerAction) (key : String)
    → Sound (slot_of key (act_all actions (new_manager capacity)))
act_all-Sound capacity actions =
    act_all-AllSound actions (new_manager capacity) λ key. fresh-Sound capacity key

weigh-hold : (key : String) (o : Option Slot) → weigh hold key o ≡ bit (or_untouched o).held
weigh-hold key none = refl
weigh-hold key (some s) = refl

changed-settled :
    (m : Manager) (key : String) (o : Option Slot)
    → ((changed key o m).settled ≡ m.settled) × ((changed key o m).capacity ≡ m.capacity)
changed-settled m key none = (refl, refl)
changed-settled m key (some t) = (refl, refl)

changed-occupied :
    (m : Manager) (key : String) (n : ℕ) (o : Option Slot)
    → RoomyIf (has_room key m) (slot_of key m) o
    → m.capacity ≤ n
    → occupied m ≤ n
    → occupied (changed key o m) ≤ n
unfolding occupied has_room slot_of
changed-occupied m key n none r c h = h
changed-occupied m key n (some t) r c h =
    let place_done = sum-put hold key t m.slots in
    let was = weigh-hold key (get key m.slots) in
    let le = weigh-le-sum hold key m.slots in ground (arith, place_done, was, le, r, c, h)

-- Once the adoption is done, the slots that are held grow to at most the capacity: they stay within any
-- bound on the capacity and on those that adoption left.
pub occupied-act_all :
    (n : ℕ) (actions : List ManagerAction) (m : Manager)
    → m.settled ≡ true
    → m.capacity ≤ n
    → occupied m ≤ n
    → occupied (act_all actions m) ≤ n
unfolding act_all act
occupied-act_all n [] m d c h = h
occupied-act_all n (settles ∷ later) m d c h = occupied-act_all n later (act settles m) refl c h
occupied-act_all n (at key e ∷ later) m d c h =
    let P = λ (m' : Manager). occupied (act_all later m') ≤ n in
    let o = slot_step (has_room key m) e (slot_of key m) in
    let (same, room) = changed-settled m key o in
    if_cases P (allowed m.settled e) (changed key o m) m
      (λ is_allowed.
        let r =
          slot_step-RoomyIf (has_room key m) e (slot_of key m)
            (subst (λ b. allowed b e ≡ true) d is_allowed) in
        occupied-act_all n later (changed key o m) (same ∙ d) (omega (arith, room, c))
          (changed-occupied m key n o r c h))
      (λ _. occupied-act_all n later m d c h)
