-- ===== src/Harness/Admission/Run/Permits.antt =====
-- harness/admission.py: the permit pools in every state that a schedule reaches.
use ach_agent.Base.{ℕ, String, ◌≡◌, Bool, List, arith, string_eq}
use ach_agent.Base.Dict.{empty, sum-empty, get-empty}
use ach_agent.Harness.Admission.State.{State, Config, Delivery, Semaphore}
use ach_agent.Harness.Admission.Permits.{channel_cap}
use ach_agent.Harness.Admission.Close.{close}
use ach_agent.Harness.Admission.Pool.{PoolOk, available}
use ach_agent.Harness.Admission.Permitted.{
  IsPermitted, running, at_work, uses_global, uses_script, uses_channel, uses_workspace, script_cap,
}
use ach_agent.Harness.Admission.Permitted.Lanes.{lane_step-Permitted, runner_ends-Permitted}
use ach_agent.Harness.Admission.Permitted.Arrivals.{
  admit-Permitted, admit_script-Permitted, recover-Permitted, monitor_step-Permitted,
  observer_ends-Permitted,
}
use ach_agent.Harness.Admission.Permitted.Closing.{close-Permitted}
use ach_agent.Harness.Admission.Run.{
  init, Action, clock_reads, admits, admits_script, recovers, lane_runs, runner_signals,
  runner_comes_back, monitor_runs, observer_comes_back, started_cancelled, completed_cancelled,
  closes, step, run, run_induction,
}
use ach_agent.Harness.Admission.Run.Accounting.{run-close}

step-Permitted :
    (cfg : Config) (a : Action) (s : State) → IsPermitted cfg s → IsPermitted cfg (step cfg a s)
unfolding step
step-Permitted cfg (clock_reads now) s p = p
step-Permitted cfg (admits e) s p = admit-Permitted cfg e s p
step-Permitted cfg (admits_script e) s p = admit_script-Permitted cfg e s p
step-Permitted cfg (recovers r) s p = recover-Permitted cfg r s p
step-Permitted cfg (lane_runs l) s p = lane_step-Permitted cfg l s p
step-Permitted cfg (runner_signals t) s p = p
step-Permitted cfg (runner_comes_back l how) s p = runner_ends-Permitted cfg l how s p
step-Permitted cfg (monitor_runs k) s p = monitor_step-Permitted cfg k s p
step-Permitted cfg (observer_comes_back k how) s p = observer_ends-Permitted cfg k how s p
step-Permitted cfg (started_cancelled n) s p = p
step-Permitted cfg (completed_cancelled n) s p = p
step-Permitted cfg closes s p = close-Permitted cfg s p

empty_pool : (caps out : String → ℕ) → ((k : String) → out k ≡ 0) → PoolOk caps out empty
empty_pool caps out none_out = record {
  kept = λ k. ground (arith, get-empty {V = Semaphore} k, none_out k);
  made = λ k sem h. ground (arith, get-empty {V = Semaphore} k);
}

init-Permitted : (cfg : Config) (now : ℕ) → IsPermitted cfg (init cfg now)
unfolding init
init-Permitted cfg now = record {
  global = omega (arith, nobody (uses_global cfg));
  script = omega (arith, nobody (uses_script cfg));
  channel = empty_pool _ _ (λ c. nobody (uses_channel c));
  workspace = empty_pool _ _ (λ w. nobody (uses_workspace w));
}
  where
    nobody : (p : Delivery → Bool) → running p empty ≡ 0
    nobody p = sum-empty (λ l lane. at_work p lane.current)

-- From the start, under any schedule of tasks, calls, cancellations and clock readings: the free
-- permits of the global pool, of the script pool, of each channel and of each workspace, with the
-- runners at work that draw from it, make up the pool's configured size.
pub run-IsPermitted :
    (cfg : Config) (now : ℕ) (actions : List Action)
    → IsPermitted cfg (run cfg actions (init cfg now))
run-IsPermitted cfg now actions =
    run_induction (IsPermitted cfg) cfg (step-Permitted cfg) actions (init cfg now)
      (init-Permitted cfg now)

-- After `close`, whatever the schedule before it, every permit of every pool is back.
pub close-all_free :
    (cfg : Config) (now : ℕ) (actions : List Action)
    → let s = close cfg (run cfg actions (init cfg now)) in
      (s.global_value ≡ cfg.max_concurrent_invocations)
      × (s.script_value ≡ script_cap cfg)
      × ((c : String) → available (channel_cap cfg) c s.channel_sems ≡ channel_cap cfg c)
      × ((w : String)
          → available (λ _. cfg.workspace_max_concurrent_sessions) w s.workspace_sems
            ≡ cfg.workspace_max_concurrent_sessions)
close-all_free cfg now actions = (
  omega (arith, ok.global, nobody (uses_global cfg)),
  omega (arith, ok.script, nobody (uses_script cfg)),
  (λ c. omega (arith, ok.channel.kept c, nobody (uses_channel c))),
  (λ w. omega (arith, ok.workspace.kept w, nobody (uses_workspace w))),
)
  where
    last : State
    last = run cfg actions (init cfg now)

    ok : IsPermitted cfg (close cfg last)
    ok = close-Permitted cfg last (run-IsPermitted cfg now actions)

    nobody : (p : Delivery → Bool) → running p (close cfg last).lanes ≡ 0
    nobody p =
        rw ((run-close cfg now actions).quiet.no_lanes)
          (sum-empty (λ l lane. at_work p lane.current))
