-- ===== src/Harness/Admission/Run/Accounting.antt =====
-- harness/admission.py: the accounting of `queued_total`, the records and the lanes, in every state
-- that a schedule reaches.
use ach_agent.Base.{ℕ, String, List, arith, bit, string_eq, ◌&&◌, not}
use ach_agent.Base.Dict.{empty, has, get-empty, sum-empty}
use ach_agent.Harness.Admission.State.{State, Config, Ticket, RecoveredRun}
use ach_agent.Harness.Admission.Balance.{IsBalanced, in_lane, all_tickets, all_runs}
use ach_agent.Harness.Admission.Balance.Lanes.{lane_step-Balanced, runner_ends-Balanced}
use ach_agent.Harness.Admission.Balance.Arrivals.{
  admit-Balanced, admit_script-Balanced, recover-Balanced,
}
use ach_agent.Harness.Admission.Balance.Observers.{monitor_step-Balanced, observer_ends-Balanced}
use ach_agent.Harness.Admission.Balance.Closed.{IsClosed, close-IsClosed}
use ach_agent.Harness.Admission.Close.{close}
use ach_agent.Harness.Admission.Run.{
  init, Action, clock_reads, admits, admits_script, recovers, lane_runs, runner_signals,
  runner_comes_back, monitor_runs, observer_comes_back, started_cancelled, completed_cancelled,
  closes, step, run, run_induction,
}

step-Balanced : (cfg : Config) (a : Action) (s : State) → IsBalanced s → IsBalanced (step cfg a s)
unfolding step
step-Balanced cfg (clock_reads now) s b = b
step-Balanced cfg (admits e) s b = admit-Balanced cfg e s b
step-Balanced cfg (admits_script e) s b = admit_script-Balanced cfg e s b
step-Balanced cfg (recovers r) s b = recover-Balanced cfg r s b
step-Balanced cfg (lane_runs l) s b = lane_step-Balanced cfg l s b
step-Balanced cfg (runner_signals t) s b = b
step-Balanced cfg (runner_comes_back l how) s b = runner_ends-Balanced cfg l how s b
step-Balanced cfg (monitor_runs k) s b = monitor_step-Balanced k s b
step-Balanced cfg (observer_comes_back k how) s b = observer_ends-Balanced k how s b
step-Balanced cfg (started_cancelled n) s b = b
step-Balanced cfg (completed_cancelled n) s b = b
step-Balanced cfg closes s b = (close-IsClosed cfg s b).balanced

init-Balanced : (cfg : Config) (now : ℕ) → IsBalanced (init cfg now)
unfolding init
init-Balanced cfg now = record {
  counted = omega (
    arith,
    sum-empty
        (λ (k : String) (t : Ticket). bit (not (has {V = Unit {0}} k empty) && all_tickets t)),
    sum-empty
        (λ (k : String) (r : RecoveredRun). bit (not (has {V = Unit {0}} k empty) && all_runs r)),
  );
  apart = λ k. ground (arith, get-empty {V = Ticket} k);
  accounted = λ k h. ground (arith, get-empty {V = Unit {0}} k);
  placed = λ k n.
      ground (arith, sum-empty (λ (l : String) lane. in_lane k n lane), get-empty {V = Ticket} k);
}

-- From the start, under any schedule: `queued_total` is the number of records that are not
-- released, no key has both a ticket and a recovered run, only keys with a record are released, and
-- the lanes hold each unreleased ticket exactly once and no other entry.
pub run-IsBalanced :
    (cfg : Config) (now : ℕ) (actions : List Action) → IsBalanced (run cfg actions (init cfg now))
run-IsBalanced cfg now actions =
    run_induction IsBalanced cfg (step-Balanced cfg) actions (init cfg now) (init-Balanced cfg now)

-- After `close`, whatever the schedule before it: nothing is queued, every record is released, no
-- lane and no monitor is left, and the object is closed.
pub run-close :
    (cfg : Config) (now : ℕ) (actions : List Action)
    → IsClosed (close cfg (run cfg actions (init cfg now)))
run-close cfg now actions =
    close-IsClosed cfg (run cfg actions (init cfg now)) (run-IsBalanced cfg now actions)
