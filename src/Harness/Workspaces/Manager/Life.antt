-- ===== src/Harness/Workspaces/Manager/Life.antt =====
-- harness/workspaces.py: how one action moves the tenure of each workspace.
use ach_agent.Base.{
  ◌≡◌, refl, ℕ, String, true, Option, none, some, List, ◌==◌, ==_iff, string_eq, if_cases, subst,
}
use ach_agent.Base.Dict.{get, get-put}
use ach_agent.Harness.Workspaces.{Slot}
use ach_agent.Harness.Workspaces.Steps.{slot_step, allowed}
use ach_agent.Harness.Workspaces.Tenure.{
  Tenure, vacant, reserved, waiting, preparing, inspected, saving, withdrawing, serving, deferred,
  unpublished, failed, tenure, may_move, MovesIf, slot_step-MovesIf,
}
use ach_agent.Harness.Workspaces.Manager.{
  Manager, or_untouched, slot_of, has_room, ManagerAction, at, settles, changed, act, act_all,
  new_manager,
}
use ach_agent.Harness.Workspaces.Manager.Bounds.{AllSound, act_all-AllSound, fresh-Sound}

may_move_same : (t : Tenure) → may_move t t ≡ true
may_move_same vacant = refl
may_move_same reserved = refl
may_move_same waiting = refl
may_move_same preparing = refl
may_move_same inspected = refl
may_move_same saving = refl
may_move_same withdrawing = refl
may_move_same serving = refl
may_move_same deferred = refl
may_move_same unpublished = refl
may_move_same failed = refl

tenure-changed :
    (m : Manager) (key other : String) (o : Option Slot)
    → MovesIf (slot_of key m) o
    → may_move (tenure (slot_of other m)) (tenure (slot_of other (changed key o m))) ≡ true
unfolding slot_of
tenure-changed m key other none moves = may_move_same (tenure (slot_of other m))
tenure-changed m key other (some t) moves = rw (get-put key other t m.slots) (
    if_cases (λ o. may_move (tenure (slot_of other m)) (tenure (or_untouched o)) ≡ true)
      (key == other) (some t) (get other m.slots)
      (λ same.
        subst (λ k. may_move (tenure (slot_of k m)) (tenure t) ≡ true) ((==_iff key other).0 same)
          moves)
      (λ _. may_move_same (tenure (slot_of other m))))

tenure-act :
    (a : ManagerAction) (m : Manager) (key : String)
    → AllSound m
    → may_move (tenure (slot_of key m)) (tenure (slot_of key (act a m))) ≡ true
unfolding act
tenure-act settles m key h = may_move_same (tenure (slot_of key m))
tenure-act (at key e) m other h =
    let o = slot_step (has_room key m) e (slot_of key m) in
    if_cases (λ m'. may_move (tenure (slot_of other m)) (tenure (slot_of other m')) ≡ true)
      (allowed m.settled e) (changed key o m) m
      (λ _.
        tenure-changed m key other o (slot_step-MovesIf (has_room key m) e (slot_of key m) (h key)))
      (λ _. may_move_same (tenure (slot_of other m)))

-- In any state that a manager reaches, whatever happens next moves each workspace only as the machine of
-- tenures (`may_move`) allows. In particular an endpoint is published only by a task that prepared the
-- unit, found it running or could not save its files yet; a save that does not end in the unit's
-- withdrawal leaves an error; and an error without an endpoint stays until the slot is free.
pub tenure-act_all :
    (capacity : ℕ) (actions : List ManagerAction) (a : ManagerAction) (key : String)
    → may_move
        (tenure (slot_of key (act_all actions (new_manager capacity))))
        (tenure (slot_of key (act a (act_all actions (new_manager capacity)))))
      ≡ true
tenure-act_all capacity actions a key =
    tenure-act a (act_all actions (new_manager capacity)) key
      (act_all-AllSound actions (new_manager capacity) (fresh-Sound capacity))
