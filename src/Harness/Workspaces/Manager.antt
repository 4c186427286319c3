-- ===== src/Harness/Workspaces/Manager.antt =====
-- harness/workspaces.py: the slots of all workspaces, under the capacity that they share.
pub mod Bounds
pub mod Life
use ach_agent.Base.{
  ℕ, ◌-◌, String, Bool, true, false, not, Option, none, some, List, [], ◌∷◌, ltb, bit, ◌==◌,
  string_eq, if◌then◌else◌,
}
use ach_agent.Base.Dict.{Dict, empty, get, put, sum}
use ach_agent.Harness.Workspaces.{Slot, untouched}
use ach_agent.Harness.Workspaces.Steps.{SlotEvent, allowed, slot_step}

pub record Manager : Type 0 where
  pub capacity : ℕ
  -- whether `_adoption` is done
  pub settled : Bool
  pub slots : Dict String Slot

abbrev pub or_untouched : Option Slot → Slot
or_untouched none = untouched
or_untouched (some s) = s

unfoldable pub slot_of : String → Manager → Slot
slot_of key m = or_untouched (get key m.slots)

abbrev pub hold : String → Slot → ℕ
hold key s = bit s.held

-- len(_occupied)
unfoldable pub occupied : Manager → ℕ
occupied m = sum hold m.slots

-- len(_occupied) < _capacity, but for the key itself
unfoldable pub has_room : String → Manager → Bool
unfolding occupied slot_of
has_room key m = ltb (occupied m - bit (slot_of key m).held) m.capacity

pub data ManagerAction : Type 0 where
  at : String → SlotEvent → ManagerAction
  settles : ManagerAction

abbrev pub changed : String → Option Slot → Manager → Manager
changed key none m = m
changed key (some s) m = record m { slots = put key s m.slots }

unfoldable pub act : ManagerAction → Manager → Manager
unfolding slot_step slot_of has_room
act settles m = record m { settled = true }
act (at key e) m =
    if allowed m.settled e then changed key (slot_step (has_room key m) e (slot_of key m)) m else m

unfoldable pub act_all : List ManagerAction → Manager → Manager
unfolding act
act_all [] m = m
act_all (a ∷ later) m = act_all later (act a m)

abbrev pub new_manager : ℕ → Manager
new_manager capacity = record { capacity = capacity; settled = false; slots = empty }
