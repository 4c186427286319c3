-- ===== src/Harness/Admission/Balance/Observers.antt =====
-- harness/admission.py: the monitors and the observers keep the accounting of the ledger.
use ach_agent.Base.{
  String, ◌≡◌, refl, true, Option, none, some, arith, nat_eq, string_eq, Bool-cases, if_cases, inl,
  inr,
}
use ach_agent.Base.Dict.{has, get}
use ach_agent.Harness.Admission.State.{State, RecoveredRun, rate_key_eq}
use ach_agent.Harness.Admission.Ledger.{expire, release_capacity_once}
use ach_agent.Harness.Admission.Tasks.{
  monitor_step, ObserverEnd, observed, lost, unavailable, observation, observed_run, observer_ends,
}
use ach_agent.Harness.Admission.Balance.{
  IsBalanced, SameLedger, IsBalanced-same, Balanced-release_run,
}

pub monitor_step-Balanced : (k : String) (s : State) → IsBalanced s → IsBalanced (monitor_step k s)
monitor_step-Balanced k s b = IsBalanced-same s (monitor_step k s) (monitor_same k s) b
  where
    monitor_same : (k : String) (s : State) → SameLedger s (monitor_step k s)
    monitor_same k s = unfold monitor_step expire in ground arith

pub release_run-Balanced :
    (k : String) (s : State)
    → has k s.recovered ≡ true
    → IsBalanced s
    → IsBalanced (release_capacity_once k s)
unfolding release_capacity_once
release_run-Balanced k s r b = elim (Bool-cases (has k s.released)) [
  | inl done ↦ rw done b
  | inr owned ↦ rw owned (Balanced-release_run b k r owned)
]

observation-Balanced :
    (k : String) (run : RecoveredRun) (how : ObserverEnd) (s : State)
    → has k s.recovered ≡ true
    → IsBalanced s
    → IsBalanced (observation k run how s)
unfolding observation
observation-Balanced k run (unavailable e) s r b = b
observation-Balanced k run observed s r b =
    if_cases IsBalanced (has k s.released) s _ (λ _. b) (λ _. release_run-Balanced k _ r b)
observation-Balanced k run lost s r b = release_run-Balanced k _ r b

observed_run-Balanced :
    (k : String) (how : ObserverEnd) (o : Option RecoveredRun) (s : State)
    → get k s.recovered ≡ o
    → IsBalanced s
    → IsBalanced (observed_run k how o s)
unfolding observed_run
observed_run-Balanced k how none s e b = b
observed_run-Balanced k how (some run) s e b =
    if_cases IsBalanced (has k s.recovery_tasks) _ s
      (λ _. observation-Balanced k run how _ (ground arith) b) (λ _. b)

pub observer_ends-Balanced :
    (k : String) (how : ObserverEnd) (s : State) → IsBalanced s → IsBalanced (observer_ends k how s)
unfolding observer_ends
observer_ends-Balanced k how s b = observed_run-Balanced k how (get k s.recovered) s refl b
