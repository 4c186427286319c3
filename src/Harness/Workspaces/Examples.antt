-- ===== src/Harness/Workspaces/Examples.antt =====
-- Tests and witnesses of harness/workspaces.py.
use ach_agent.Base.{true, elem, ◌≡◌, refl, ◌≤◌, String, List, [], ◌∷◌, arith}
use ach_agent.Base.Dict.{get, put, empty, sum}
use ach_agent.Harness.Workspaces.{Endpoint}
use ach_agent.Harness.Workspaces.Steps.{
  SlotEvent, ensures, starts_activation, places, starts, closes, starts_close, commits,
  defers_commit, times_out, retires, retires_late, learns, starts_adopt, adopts, fails_adopt,
  starts_retire,
}
use ach_agent.Harness.Workspaces.Sound.{Sound}
use ach_agent.Harness.Workspaces.Tenure.{vacant, reserved, deferred, may_move, tenure}
use ach_agent.Harness.Workspaces.Manager.{
  Manager, slot_of, occupied, ManagerAction, at, settles, act, act_all, new_manager,
}
use ach_agent.Harness.Workspaces.Manager.Bounds.{act_all-Sound, occupied-act_all}
use ach_agent.Harness.Workspaces.Manager.Life.{tenure-act_all}

abbrev a_unit : Endpoint
a_unit = record { name = "ws-a"; instance_id = "i-1"; base_url = "http://10.0.0.1" }

abbrev under : String → List SlotEvent → List ManagerAction
under key [] = []
under key (e ∷ events) = at key e ∷ under key events

-- Activated, closed, and given back late.
abbrev a_life : List ManagerAction
a_life =
    settles
    ∷ under "a" (
        ensures
        ∷ starts_activation
        ∷ places
        ∷ starts a_unit
        ∷ closes
        ∷ starts_close
        ∷ commits
        ∷ times_out
        ∷ ensures
        ∷ retires_late 0
        ∷ ensures
        ∷ [])

-- The workspace has its slot again, and another finds no room meanwhile.
a_life_held : occupied (act_all a_life (new_manager 1)) ≡ 1
unfolding occupied act_all sum put get empty elem
a_life_held = refl

act_all-Sound_example : Sound (slot_of "a" (act_all a_life (new_manager 1)))
act_all-Sound_example = act_all-Sound 1 a_life "a"

-- A commit that is put off, and a second close that is done.
abbrev put_off : List ManagerAction
put_off =
    settles
    ∷ under "a" (ensures ∷ starts_activation ∷ places ∷ starts a_unit ∷ closes ∷ starts_close ∷ [])

abbrev closed_again : List ManagerAction
closed_again = under "a" (defers_commit ∷ closes ∷ starts_close ∷ commits ∷ retires ∷ [])

put_off_deferred :
    tenure (slot_of "a" (act (at "a" defers_commit) (act_all put_off (new_manager 1)))) ≡ deferred
unfolding slot_of act act_all put get empty sum
put_off_deferred = refl

closed_again_vacant :
    tenure (slot_of "a" (act_all closed_again (act_all put_off (new_manager 1)))) ≡ vacant
unfolding slot_of act_all put get empty sum
closed_again_vacant = refl

tenure-act_all_example :
    may_move
      (tenure (slot_of "a" (act_all put_off (new_manager 1))))
      (tenure (slot_of "a" (act (at "a" defers_commit) (act_all put_off (new_manager 1)))))
    ≡ true
tenure-act_all_example = tenure-act_all 1 put_off (at "a" defers_commit) "a"

-- Two units that ran already, under a capacity of one: the bound is two.
abbrev adopted_two : Manager
adopted_two = act_all (at "a" learns ∷ at "b" learns ∷ settles ∷ []) (new_manager 1)

abbrev two_adopt : List ManagerAction
two_adopt =
    at "a" starts_adopt
    ∷ at "a" (adopts a_unit)
    ∷ at "b" starts_adopt
    ∷ at "b" fails_adopt
    ∷ at "c" ensures
    ∷ at "b" starts_retire
    ∷ at "b" retires
    ∷ at "c" ensures
    ∷ []

occupied-act_all_example : occupied (act_all two_adopt adopted_two) ≤ 2
unfolding occupied act_all sum put get empty
occupied-act_all_example = occupied-act_all 2 two_adopt adopted_two refl (omega arith) (omega arith)

-- A `close` waits for the lock when an activation publishes its endpoint: a second `close` takes the
-- endpoint and joins the first, which finds none, so nothing is committed and the slot stays held.
abbrev closed_twice : List ManagerAction
closed_twice =
    settles
    ∷ under "a"
        (ensures ∷ starts_activation ∷ places ∷ closes ∷ starts a_unit ∷ closes ∷ starts_close ∷ [])

closed_twice_reserved : tenure (slot_of "a" (act_all closed_twice (new_manager 1))) ≡ reserved
unfolding slot_of act_all put get empty sum
closed_twice_reserved = refl
