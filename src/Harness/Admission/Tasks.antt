-- ===== src/Harness/Admission/Tasks.antt =====
-- harness/admission.py: the coroutines, as steps from one await to the next. `_run_ticket` and
-- `_Lane._consume` are the lane's steps, `_monitor_deadline` and `_observe_recovered` have one each.
use ach_agent.Base.{
  Option, ℕ, String, Bool, true, false, none, some, List, [], ◌∷◌, leb, string_eq, if◌then◌else◌,
}
use ach_agent.Base.Dict.{get, put, remove, has}
use ach_agent.Channels.Event.{Value, null}
use ach_agent.Harness.Admission.State.{
  State, Config, Ticket, Current, Lane, RecoveredRun, Future, result, failed, no_started_signal,
  owner_lost, runner_raised, settle, is_script,
}
use ach_agent.Harness.Admission.Ledger.{
  fail, expire, update, cancel_monitor, retire, release_capacity_once,
}
use ach_agent.Harness.Admission.Admit.{raise_alarm}
use ach_agent.Harness.Admission.Permits.{
  Round, expired, again, taken, ensure_permits, acquire, give_back,
}

-- The future's outcome if it has none yet.
unfoldable pub settle_started : Ticket → Future → State → State
settle_started t f s = record s {
  started = update s.started t.serial (settle f (s.started t.serial));
}

unfoldable pub settle_completed : Ticket → Future → State → State
settle_completed t f s = record s {
  completed = update s.completed t.serial (settle f (s.completed t.serial));
}

abbrev pub set_lane : String → Lane → State → State
set_lane l lane s = record s { lanes = put l lane s.lanes }

-- What `_consume` does behind an entry: it ends, and leaves the table, once its queue is empty.
unfoldable pub next_or_end : String → List (String × Ticket) → State → State
next_or_end l [] s = record s { lanes = remove l s.lanes }
next_or_end l (entry ∷ rest) s =
    set_lane l (record { queue = entry ∷ rest; current = none; ran = true }) s

-- the `finally` of _run_ticket, and the way back into `_consume`
unfoldable pub finish : String → Lane → Current → State → State
unfolding retire next_or_end
finish l lane c s = next_or_end l lane.queue (retire c.key c.ticket s)

abbrev waited_too_long : Ticket → String
waited_too_long t =
    if is_script t.delivery
    then "deadline exceeded while waiting for script permits"
    else "deadline exceeded while waiting for permits"

abbrev pub too_late : Ticket → String
too_late t =
    if is_script t.delivery
    then "deadline exceeded immediately before script spawn"
    else "deadline exceeded immediately before delivery"

-- Behind a round: the last look at the deadline comes right before the runner.
unfoldable pub after_round : Config → String → Lane → Current → State → Round → State
unfolding finish give_back expire
after_round cfg l lane c s expired = finish l lane c (expire c.ticket (waited_too_long c.ticket) s)
after_round cfg l lane c s again = s
after_round cfg l lane c s taken =
    if leb c.ticket.deadline_at s.clock
    then finish l lane c (give_back cfg c.ticket.delivery (expire c.ticket (too_late c.ticket) s))
    else set_lane l
        (record { queue = lane.queue; current = some (record c { holding = true }); ran = true }) s

-- One round of the wait for permits.
unfoldable pub wait_round : Config → String → Lane → Current → State → State
unfolding acquire after_round
wait_round cfg l lane c s =
    let (s', r) = acquire cfg c.ticket.deadline_at c.ticket.delivery s in
    after_round cfg l lane c s' r

-- _run_ticket up to its first await, behind `_cancel_monitor`
unfoldable pub begin : Config → String → Lane → Current → Bool → State → State
unfolding wait_round finish expire ensure_permits
begin cfg l lane c monitor_expired s =
    if monitor_expired
    then finish l lane c s
    else if leb c.ticket.deadline_at s.clock
    then finish l lane c (expire c.ticket "deadline exceeded before permit wait" s)
    else wait_round cfg l lane c (ensure_permits cfg c.ticket.delivery s)

-- `_consume` takes the head of an idle lane's queue.
unfoldable pub take_head : Config → String → List (String × Ticket) → State → State
unfolding begin cancel_monitor
take_head cfg l [] s = s
take_head cfg l ((k, t) ∷ rest) s =
    let c : Current = record { key = k; ticket = t; holding = false } in
    let busy : Lane = record { queue = rest; current = some c; ran = true } in
    let (s', was_expired) = cancel_monitor k t (set_lane l busy s) in
    begin cfg l busy c was_expired s'

-- A lane's task runs: it takes its next entry, or makes one more round for the one that it has.
unfoldable pub lane_turn : Config → String → Lane → Option Current → State → State
unfolding take_head wait_round
lane_turn cfg l lane none s = take_head cfg l lane.queue s
lane_turn cfg l lane (some c) s = if c.holding then s else wait_round cfg l lane c s

unfoldable pub lane_step : Config → String → State → State
unfolding lane_turn
lane_step cfg l s = elim (get l s.lanes) [
  | none ↦ s
  | some lane ↦ lane_turn cfg l lane lane.current s
]

-- How a runner ends.
pub data RunnerEnd : Type 0 where
  returned : Value → RunnerEnd
  raised : String → RunnerEnd

-- what _run_ticket and _run_script_ticket do with it
unfoldable pub settle_run : Ticket → RunnerEnd → State → State
unfolding fail settle_started settle_completed
settle_run t (returned v) s =
    settle_completed t (result (if is_script t.delivery then null else v))
      (settle_started t (failed no_started_signal) s)
settle_run t (raised e) s =
    let s' = fail t (runner_raised e) s in
    if is_script t.delivery then raise_alarm "webhook script runner failed" s' else s'

-- The runner of a lane's entry comes back.
unfoldable pub entry_ends : Config → String → Lane → RunnerEnd → Option Current → State → State
unfolding settle_run give_back finish
entry_ends cfg l lane how none s = s
entry_ends cfg l lane how (some c) s =
    if c.holding
    then finish l lane c (give_back cfg c.ticket.delivery (settle_run c.ticket how s))
    else s

unfoldable pub runner_ends : Config → String → RunnerEnd → State → State
unfolding entry_ends
runner_ends cfg l how s = elim (get l s.lanes) [
  | none ↦ s
  | some lane ↦ entry_ends cfg l lane how lane.current s
]

-- ticket.mark_started()
unfoldable pub mark_started : Ticket → State → State
unfolding settle_started
mark_started t s = settle_started t (result null) s

-- One turn of the loop of _monitor_deadline.
unfoldable pub monitor_step : String → State → State
unfolding expire
monitor_step k s = elim (get k s.monitors) [
  | none ↦ s
  | some t ↦
      if leb t.deadline_at s.clock
      then (let s' =
            expire t "deadline exceeded while queued"
              (record s { monitor_expired = put k tt s.monitor_expired }) in
          record s' { monitors = remove k s'.monitors })
      else s
]

-- How the observer of a recovered run ends.
pub data ObserverEnd : Type 0 where
  observed lost : ObserverEnd
  unavailable : String → ObserverEnd

abbrev settle_recovered : ℕ → Future → State → State
settle_recovered n f s = record s { completed = update s.completed n (settle f (s.completed n)) }

-- what the `else` and the `except` clauses do for a run
unfoldable pub observation : String → RecoveredRun → ObserverEnd → State → State
unfolding release_capacity_once
observation k run (unavailable e) s = raise_alarm "recovered run observation failed" s
observation k run observed s =
    if has k s.released
    then s
    else release_capacity_once k (settle_recovered run.serial (result null) s)
observation k run lost s =
    release_capacity_once k (settle_recovered run.serial (failed owner_lost) s)

unfoldable pub observed_run : String → ObserverEnd → Option RecoveredRun → State → State
unfolding observation
observed_run k how none s = s
observed_run k how (some run) s =
    if has k s.recovery_tasks
    then observation k run how (record s { recovery_tasks = remove k s.recovery_tasks })
    else s

-- _observe_recovered when `observer` comes back
unfoldable pub observer_ends : String → ObserverEnd → State → State
unfolding observed_run
observer_ends k how s = observed_run k how (get k s.recovered) s
