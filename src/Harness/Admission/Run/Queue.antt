-- ===== src/Harness/Admission/Run/Queue.antt =====
-- harness/admission.py: `queued_total` under any schedule.
use ach_agent.Base.{
  if◌then◌else◌, ℕ, ◌+◌, ◌≤◌, String, true, false, Option, none, some, List, [], ◌∷◌, arith,
  string_eq, if_cases, Bool, bit, not, ◌&&◌,
}
use ach_agent.Base.Dict.{get, has, is_some}
use ach_agent.Harness.Admission.State.{State, Config, Ticket, RecoveredRun}
use ach_agent.Harness.Admission.Ledger.{sweep_expired, known}
use ach_agent.Harness.Admission.Admit.{Result, err, closed, recover, recover_known, claim, same_run}
use ach_agent.Harness.Admission.Tasks.{mark_started}
use ach_agent.Harness.Admission.Capacity.{
  Below, lane_step-Below, runner_ends-Below, sweep_expired-Below,
}
use ach_agent.Harness.Admission.Run.{
  init, Action, clock_reads, admits, admits_script, recovers, lane_runs, runner_signals,
  runner_comes_back, monitor_runs, observer_comes_back, started_cancelled, completed_cancelled,
  closes, step, run,
}
use ach_agent.Harness.Admission.Run.Kept.{
  admit-Below, admit_script-Below, monitor_step-Below, observer_ends-Below, close-Below,
}

-- Behind the sweep, nothing is known under the key.
abbrev pub is_unknown : Config → String → State → Bool
is_unknown cfg k s =
    let swept = sweep_expired cfg s in not (has k swept.tickets) && not (has k swept.recovered)

-- What the action adds to the runs that are claimed: one, where it recovers a run whose key nothing is
-- known under, before the object is closed.
abbrev pub claims : Config → Action → State → ℕ
claims cfg (recovers r) s = bit (not s.closed && is_unknown cfg r.invocation_id s)
claims cfg a s = 0

-- How many runs a schedule claims.
unfoldable pub claimed : Config → List Action → State → ℕ
unfolding sweep_expired step
claimed cfg [] s = 0
claimed cfg (a ∷ later) s = claims cfg a s + claimed cfg later (step cfg a s)

recover_known-Below :
    (most : ℕ) (t : Option Ticket) (o : Option RecoveredRun) (r : RecoveredRun) (s : State)
    → Below most s
    → Below (most + bit (not (is_some t) && not (is_some o))) (recover_known (known t o) r s).0
unfolding recover_known claim
recover_known-Below most none none r s h = omega (arith, h)
recover_known-Below most (some t) o r s h = omega (arith, h)
recover_known-Below most none (some old) r s h =
    if_cases (λ (x : State × Result RecoveredRun). Below (most + 0) x.0) (same_run old r) _ _
      (λ _. omega (arith, h)) (λ _. omega (arith, h))

recover-Below :
    (most : ℕ) (cfg : Config) (r : RecoveredRun) (s : State)
    → Below most s
    → Below (most + claims cfg (recovers r) s) (recover cfg r s).0
unfolding recover
recover-Below most cfg r s h = by_closed s.closed
  where
    swept : State
    swept = sweep_expired cfg s

    k : String
    k = r.invocation_id

    by_closed :
        (b : Bool)
        → Below
            (most + bit (not b && is_unknown cfg k s))
            (if b
              then (s, err closed)
              else recover_known (known (get k swept.tickets) (get k swept.recovered)) r swept).0
    by_closed true = omega (arith, h)
    by_closed false =
        recover_known-Below most (get k swept.tickets) (get k swept.recovered) r swept
          (sweep_expired-Below most cfg s h)

regroup : (n a b c : ℕ) → n ≤ a + b + c → n ≤ a + (b + c)
regroup n a b c h = omega (arith, h)

step-Below :
    (most : ℕ) (cfg : Config) (a : Action) (s : State)
    → cfg.max_queued_total ≤ most
    → Below most s
    → Below (most + claims cfg a s) (step cfg a s)
unfolding step mark_started
step-Below most cfg (recovers r) s limit h = recover-Below most cfg r s h
step-Below most cfg (clock_reads now) s limit h = omega (arith, h)
step-Below most cfg (admits e) s limit h = omega (arith, admit-Below most cfg limit e s h)
step-Below most cfg (admits_script e) s limit h =
    omega (arith, admit_script-Below most cfg limit e s h)
step-Below most cfg (lane_runs l) s limit h = omega (arith, lane_step-Below most cfg l s h)
step-Below most cfg (runner_signals t) s limit h = omega (arith, h)
step-Below most cfg (runner_comes_back l how) s limit h =
    omega (arith, runner_ends-Below most cfg l how s h)
step-Below most cfg (monitor_runs k) s limit h = omega (arith, monitor_step-Below most k s h)
step-Below most cfg (observer_comes_back k how) s limit h =
    omega (arith, observer_ends-Below most k how s h)
step-Below most cfg (started_cancelled n) s limit h = omega (arith, h)
step-Below most cfg (completed_cancelled n) s limit h = omega (arith, h)
step-Below most cfg closes s limit h = omega (arith, close-Below most cfg s h)

run-Below :
    (cfg : Config) (actions : List Action) (most : ℕ) (s : State)
    → cfg.max_queued_total ≤ most
    → Below most s
    → Below (most + claimed cfg actions s) (run cfg actions s)
unfolding run claimed
run-Below cfg [] most s limit h = omega (arith, h)
run-Below cfg (a ∷ later) most s limit h =
    let n = claims cfg a s in
    let s' = step cfg a s in
    regroup (run cfg later s').queued_total most n (claimed cfg later s')
      (run-Below cfg later (most + n) s' (omega (arith, limit)) (step-Below most cfg a s limit h))

-- From the start, under any schedule, `queued_total` is at most `max_queued_total` and the number of
-- runs that the schedule claims, where a run counts only if nothing was known under its key when it was
-- recovered and the object was open: new deliveries alone never pass the limit, and recovering a run
-- again does not raise it.
pub run-claimed :
    (cfg : Config) (now : ℕ) (actions : List Action)
    → (run cfg actions (init cfg now)).queued_total
      ≤ cfg.max_queued_total + claimed cfg actions (init cfg now)
unfolding init
run-claimed cfg now actions =
    run-Below cfg actions cfg.max_queued_total (init cfg now) (omega arith) (omega arith)
