-- ===== src/Harness/Admission/Run.antt =====
-- harness/admission.py: the object under any schedule. An action is one step of one task, a call of
-- an entry point, what a caller does to a future, or a new reading of the clock.
pub mod Accounting
pub mod Permits
pub mod Kept
pub mod Queue
pub mod Room
use ach_agent.Base.{ℕ, String, ◌≡◌, false, none, some, List, [], ◌∷◌, string_eq, Option}
use ach_agent.Base.Dict.{empty}
use ach_agent.Channels.Event.{Event, RoutedEvent}
use ach_agent.Harness.Admission.State.{
  State, Config, Ticket, RecoveredRun, Future, pending, cancelled, settle, rate_key_eq,
}
use ach_agent.Harness.Admission.Ledger.{update}
use ach_agent.Harness.Admission.Admit.{admit, admit_script, recover}
use ach_agent.Harness.Admission.Tasks.{
  lane_step, RunnerEnd, runner_ends, mark_started, monitor_step, ObserverEnd, observer_ends,
}
use ach_agent.Harness.Admission.Close.{close}

-- Admission(...)
unfoldable pub init : Config → ℕ → State
init cfg now = record {
  clock = now;
  next_serial = 0;
  started = λ n. pending;
  completed = λ n. pending;
  alarms = [];
  rate_admits = empty;
  global_value = cfg.max_concurrent_invocations;
  script_value = elim cfg.max_concurrent_scripts [ none ↦ 0 | some n ↦ n ];
  channel_sems = empty;
  workspace_sems = empty;
  queued_total = 0;
  tickets = empty;
  recovered = empty;
  recovery_tasks = empty;
  completed_at = empty;
  released = empty;
  monitor_expired = empty;
  monitors = empty;
  lanes = empty;
  closed = false;
}

pub data Action : Type 0 where
  clock_reads : ℕ → Action
  admits : RoutedEvent → Action
  admits_script : Event → Action
  recovers : RecoveredRun → Action
  lane_runs : String → Action
  runner_signals : Ticket → Action
  runner_comes_back : String → RunnerEnd → Action
  monitor_runs : String → Action
  observer_comes_back : String → ObserverEnd → Action
  started_cancelled completed_cancelled : ℕ → Action
  closes : Action

unfoldable pub step : Config → Action → State → State
unfolding admit admit_script recover lane_step mark_started runner_ends monitor_step observer_ends
    close
step cfg (clock_reads now) s = record s { clock = now }
step cfg (admits e) s = (admit cfg e s).0
step cfg (admits_script e) s = (admit_script cfg e s).0
step cfg (recovers run) s = (recover cfg run s).0
step cfg (lane_runs l) s = lane_step cfg l s
step cfg (runner_signals t) s = mark_started t s
step cfg (runner_comes_back l how) s = runner_ends cfg l how s
step cfg (monitor_runs k) s = monitor_step k s
step cfg (observer_comes_back k how) s = observer_ends k how s
step cfg (started_cancelled n) s = record s {
  started = update s.started n (settle cancelled (s.started n));
}
step cfg (completed_cancelled n) s = record s {
  completed = update s.completed n (settle cancelled (s.completed n));
}
step cfg closes s = close cfg s

unfoldable pub run : Config → List Action → State → State
unfolding step
run cfg [] s = s
run cfg (a ∷ later) s = run cfg later (step cfg a s)

-- An invariant of every step holds after every schedule.
pub run_induction {ℓ} :
    (P : State → Type ℓ) (cfg : Config)
    → ((a : Action) (s : State) → P s → P (step cfg a s))
    → (actions : List Action) (s : State) → P s
    → P (run cfg actions s)
unfolding run
run_induction P cfg keeps [] s p = p
run_induction P cfg keeps (a ∷ rest) s p =
    run_induction P cfg keeps rest (step cfg a s) (keeps a s p)
