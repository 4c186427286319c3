-- ===== src/Harness/Admission/Close.antt =====
-- harness/admission.py: `close`, which cancels and awaits every task in turn. A runner does not
-- swallow its cancellation.
use ach_agent.Base.{
  String, Bool, true, false, Option, none, some, List, [], ◌∷◌, string_eq, if◌then◌else◌,
}
use ach_agent.Base.Dict.{get, remove, has, keys, items, empty}
use ach_agent.Harness.Admission.State.{
  State, Config, Ticket, RecoveredRun, Current, Failure, failed, admission_closed,
  admission_cancelled, settle,
}
use ach_agent.Harness.Admission.Ledger.{fail, update, retire, release_capacity_once}
use ach_agent.Harness.Admission.Permits.{give_back}

-- An owned run fails and gives its capacity back.
unfoldable pub close_run : String → RecoveredRun → State → State
unfolding release_capacity_once
close_run k run s =
    if has k s.released
    then s
    else release_capacity_once k (record s {
      completed =
          update s.completed run.serial (settle (failed admission_closed) (s.completed run.serial));
    })

-- task.cancel() for a task of _observe_recovered
unfoldable pub cancel_observer : String → State → State
unfolding close_run
cancel_observer k s =
    let s' : State = record s { recovery_tasks = remove k s.recovery_tasks } in
    elim (get k s.recovered) [ none ↦ s' | some run ↦ close_run k run s' ]

unfoldable pub cancel_observers : List String → State → State
unfolding cancel_observer
cancel_observers [] s = s
cancel_observers (k ∷ ks) s = cancel_observers ks (cancel_observer k s)

-- The entries that a cancelled lane has not looked at.
unfoldable pub drain : Failure → List (String × Ticket) → State → State
unfolding fail retire
drain why [] s = s
drain why ((k, t) ∷ rest) s = drain why rest (retire k t (fail t why s))

-- A task that was cancelled before it ran does not come to the handler that drains the queue: `close`
-- itself fails those tickets, with the error for all that are left. They are retired here, in the place
-- of their lane.
abbrev pub cause : Bool → Failure
cause true = admission_cancelled
cause false = admission_closed

-- The entry that it was busy with: permits first, then the futures and the capacity.
unfoldable pub give_back_held : Config → Current → State → State
unfolding give_back
give_back_held cfg c s = if c.holding then give_back cfg c.ticket.delivery s else s

unfoldable pub cancel_current : Config → Option Current → State → State
unfolding give_back_held fail retire
cancel_current cfg none s = s
cancel_current cfg (some c) s =
    retire c.key c.ticket (fail c.ticket admission_cancelled (give_back_held cfg c s))

-- lane.cancel() and lane.wait_closed()
unfoldable pub cancel_lane : Config → String → State → State
unfolding cancel_current drain
cancel_lane cfg l s = elim (get l s.lanes) [
  | none ↦ s
  | some lane ↦
      let s' = drain (cause lane.ran) lane.queue (cancel_current cfg lane.current s) in
      record s' { lanes = remove l s'.lanes }
]

unfoldable pub cancel_lanes : Config → List String → State → State
unfolding cancel_lane
cancel_lanes cfg [] s = s
cancel_lanes cfg (l ∷ ls) s = cancel_lanes cfg ls (cancel_lane cfg l s)

unfoldable pub close_tickets : List (String × Ticket) → State → State
unfolding fail retire
close_tickets [] s = s
close_tickets ((k, t) ∷ rest) s = close_tickets rest (retire k t (fail t admission_closed s))

unfoldable pub close_runs : List (String × RecoveredRun) → State → State
unfolding close_run
close_runs [] s = s
close_runs ((k, run) ∷ rest) s = close_runs rest (close_run k run s)

-- close
unfoldable pub close : Config → State → State
unfolding cancel_observers cancel_lanes close_tickets close_runs
close cfg s =
    let s₁ = cancel_observers (keys s.recovery_tasks) (record s { closed = true }) in
    let s₂ = cancel_lanes cfg (keys s₁.lanes) (record s₁ { recovery_tasks = empty }) in
    let s₃ : State = record s₂ { lanes = empty; monitors = empty } in
    let s₄ = close_tickets (items s₃.tickets) s₃ in close_runs (items s₄.recovered) s₄
