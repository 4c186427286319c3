-- ===== src/Harness/Workspaces/Adoption.antt =====
-- harness/workspaces.py: adopting the units that already run.
use ach_agent.Base.{true, false, not, ◌&&◌, Option, none, some, nat_eq, string_eq, if◌then◌else◌}
use ach_agent.Base.Equality.{option_eq}
use ach_agent.Harness.Workspaces.{Endpoint, unadopted, idle, retiring, adopting, Slot, is_idle}

-- _reserve_known, and the unit's "adopt" task
unfoldable pub reserve_known : Slot → Option Slot
reserve_known s = if s.held then none else some (record s { held = true; adopt_queued = true })

unfoldable pub start_adopt : Slot → Option Slot
start_adopt s =
    if not (is_idle s.phase && s.adopt_queued)
    then none
    else some (record s { adopt_queued = false; phase = adopting })

unfoldable pub adopted : Endpoint → Slot → Option Slot
adopted e s = elim s.phase [
  | adopting ↦ some (record s { active = some e; phase = idle })
  | _ ↦ none
]

-- cancelled
unfoldable pub adopt_cancelled : Slot → Option Slot
adopt_cancelled s = elim s.phase [ adopting ↦ some (record s { phase = idle }) | _ ↦ none ]

-- _defer_adoption, where the gateway is down
unfoldable pub adopt_deferred : Slot → Option Slot
adopt_deferred s = elim s.phase [
  | adopting ↦ some (record s { phase = idle; adopt_queued = true })
  | _ ↦ none
]

-- the unit's "retire" task
unfoldable pub adopt_failed : Slot → Option Slot
adopt_failed s = elim s.phase [
  | adopting ↦ some (record s { phase = idle; retire_queued = true })
  | _ ↦ none
]

unfoldable pub start_retire : Slot → Option Slot
start_retire s =
    if not (is_idle s.phase && s.retire_queued)
    then none
    else some (record s { retire_queued = false; phase = retiring unadopted })
