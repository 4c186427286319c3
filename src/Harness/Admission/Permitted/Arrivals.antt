-- ===== src/Harness/Admission/Permitted/Arrivals.antt =====
-- harness/admission.py: the entry points, the monitors and the observers keep the permit pools in
-- step with the runners.
use ach_agent.Base.{
  ℕ, ◌++◌, String, Bool, not, Option, none, some, List, [], ◌∷◌, arith, string_eq, if◌then◌else◌,
  if_cases, leb,
}
use ach_agent.Base.Dict.{get, put, has, keys, remove, sum-put}
use ach_agent.Channels.Event.{Event, RoutedEvent}
use ach_agent.Harness.Admission.State.{
  State, Config, Ticket, RecoveredRun, Lane, RateKey, rate_key_eq, is_script,
}
use ach_agent.Harness.Admission.Ledger.{
  expire, forget, forget_each, is_expired, prune, sweep_expired, Known, known, ticket,
  recovered_run, lapsed, keep_or_forget, existing_ticket, release_capacity_once, workspace_active,
  channel_active,
}
use ach_agent.Harness.Admission.Admit.{
  Result, ok, err, closed, lane_at, enqueue, check_windows, append_admits, admits_at, drop_old,
  admit_new, admit_limited, admit_allowed, admit_found, known_again, rate_checks, dedup_key, admit,
  admit_script, admit_script_found, admit_script_fresh, script_again, recover, recover_known, claim,
  same_run,
}
use ach_agent.Harness.Admission.Tasks.{
  monitor_step, ObserverEnd, unavailable, observed, lost, observation, observed_run, observer_ends,
}
use ach_agent.Harness.Admission.Permitted.{
  IsPermitted, IsPermitted-same, Permitted-lanes, SamePools, at_work,
}
use ach_agent.Harness.Admission.Pool.{PoolOk-filter}

module _ (cfg : Config) where
  forget_each-Permitted :
      (p : String → Bool) (ks : List String) (s : State)
      → IsPermitted cfg s
      → IsPermitted cfg (forget_each p ks s)
  unfolding forget_each forget
  forget_each-Permitted p [] s fine = fine
  forget_each-Permitted p (k ∷ ks) s fine =
      forget_each-Permitted p ks (if p k then forget k s else s)
        (if_cases (IsPermitted cfg) (p k) (forget k s) s (λ _. fine) (λ _. fine))

  sweep_expired-Permitted : (s : State) → IsPermitted cfg s → IsPermitted cfg (sweep_expired cfg s)
  unfolding sweep_expired prune
  sweep_expired-Permitted s fine = record {
    global = swept.global;
    script = swept.script;
    channel = PoolOk-filter swept.channel (channel_active s');
    workspace = PoolOk-filter swept.workspace (workspace_active s');
  }
    where
      s' : State
      s' = forget_each (is_expired cfg s) (keys s.tickets ++ keys s.recovered) s

      swept : IsPermitted cfg s'
      swept = forget_each-Permitted (is_expired cfg s) (keys s.tickets ++ keys s.recovered) s fine

  keep_or_forget-Permitted :
      (k : String) (r : Option Known) (s : State)
      → IsPermitted cfg s
      → IsPermitted cfg (keep_or_forget cfg k r s).0
  unfolding keep_or_forget forget
  keep_or_forget-Permitted k none s fine = fine
  keep_or_forget-Permitted k (some r) s fine =
      if_cases After (not (has k s.released)) (s, some r) _ (λ _. fine)
        (λ _.
          if_cases After (lapsed cfg s.clock (get k s.completed_at)) (forget k s, none) (s, some r)
            (λ _. fine) (λ _. fine))
    where
      After : State × Option Known → Type 0
      After (s', found) = IsPermitted cfg s'

  looked_up-Permitted :
      (k : String) (s : State)
      → IsPermitted cfg s
      → IsPermitted cfg (existing_ticket cfg k (sweep_expired cfg s)).0
  unfolding existing_ticket
  looked_up-Permitted k s fine =
      let s' = sweep_expired cfg s in
      keep_or_forget-Permitted k (known (get k s'.tickets) (get k s'.recovered)) s'
        (sweep_expired-Permitted s fine)

  enqueue-Permitted :
      (k l : String) (t : Ticket) (s : State)
      → IsPermitted cfg s
      → IsPermitted cfg (enqueue k l t s)
  unfolding enqueue
  enqueue-Permitted k l t s fine =
      Permitted-lanes cfg (put l longer s.lanes) s
        (λ p. ground (arith, sum-put (λ l lane. at_work p lane.current) l longer s.lanes)) fine
    where
      longer : Lane
      longer = record {
        queue = (lane_at l s).queue ++ (k, t) ∷ [];
        current = (lane_at l s).current;
        ran = (lane_at l s).ran;
      }

  check_windows_same :
      (checks : List (RateKey × ℕ)) (s : State) → SamePools s (check_windows checks s).0
  unfolding check_windows
  check_windows_same [] s = ground arith
  check_windows_same ((k, most) ∷ checks) s = ground (
    arith,
    check_windows_same checks
        (record s { rate_admits = put k (drop_old s.clock (admits_at k s)) s.rate_admits }),
  )

  append_admits_same :
      (checks : List (RateKey × ℕ)) (s : State) → SamePools s (append_admits checks s)
  unfolding append_admits
  append_admits_same [] s = ground arith
  append_admits_same ((k, most) ∷ checks) s = ground (
    arith,
    append_admits_same checks
        (record s { rate_admits = put k (admits_at k s ++ s.clock ∷ []) s.rate_admits }),
  )

  admit_allowed-Permitted :
      (k : String) (e : RoutedEvent) (checks : List (RateKey × ℕ)) (allowed : Result (Unit {0}))
      (s : State)
      → IsPermitted cfg s
      → IsPermitted cfg (admit_allowed cfg k e checks allowed s).0
  unfolding admit_allowed admit_new
  admit_allowed-Permitted k e checks (err error) s fine = fine
  admit_allowed-Permitted k e checks (ok _) s fine =
      if_cases After (leb cfg.max_queued_total s.queued_total) _ _ (λ _. fine)
        λ _. IsPermitted-same cfg _ _ (append_admits_same checks _) (enqueue-Permitted k _ _ s fine)
    where
      After : State × Result Known → Type 0
      After (s', answer) = IsPermitted cfg s'

  admit_found-Permitted :
      (k : String) (e : RoutedEvent) (r : Option Known) (s : State)
      → IsPermitted cfg s
      → IsPermitted cfg (admit_found cfg k e r s).0
  unfolding admit_found known_again
  admit_found-Permitted k e (some (ticket t)) s fine = fine
  admit_found-Permitted k e (some (recovered_run r)) s fine = fine
  admit_found-Permitted k e none s fine = limited (rate_checks cfg e)
    where
      limited :
          (checks : Option (List (RateKey × ℕ)))
          → IsPermitted cfg (admit_limited cfg k e checks s).0
      limited none = unfold admit_limited in fine
      limited (some checks) =
          unfold admit_limited in
          admit_allowed-Permitted k e checks (check_windows checks s).1 (check_windows checks s).0
            (IsPermitted-same cfg s (check_windows checks s).0 (check_windows_same checks s) fine)

  pub admit-Permitted :
      (e : RoutedEvent) (s : State) → IsPermitted cfg s → IsPermitted cfg (admit cfg e s).0
  unfolding admit
  admit-Permitted e s fine =
      let k = dedup_key cfg e.event in
      let (looked, existing) = existing_ticket cfg k (sweep_expired cfg s) in
      if_cases (λ r. IsPermitted cfg r.0) s.closed (s, err closed)
        (admit_found cfg k e existing looked) (λ _. fine)
        (λ _. admit_found-Permitted k e existing looked (looked_up-Permitted k s fine))

  admit_script_found-Permitted :
      (k : String) (e : Event) (r : Option Known) (s : State)
      → IsPermitted cfg s
      → IsPermitted cfg (admit_script_found cfg k e r s).0
  unfolding admit_script_found script_again admit_script_fresh
  admit_script_found-Permitted k e (some (recovered_run r)) s fine = fine
  admit_script_found-Permitted k e (some (ticket t)) s fine =
      if_cases (λ (r : State × Result Ticket). IsPermitted cfg r.0) (is_script t.delivery) _ _
        (λ _. fine) (λ _. fine)
  admit_script_found-Permitted k e none s fine =
      if_cases (λ (r : State × Result Ticket). IsPermitted cfg r.0)
        (leb cfg.max_queued_total s.queued_total) _ _ (λ _. fine)
        (λ _. enqueue-Permitted k _ _ s fine)

  pub admit_script-Permitted :
      (e : Event) (s : State) → IsPermitted cfg s → IsPermitted cfg (admit_script cfg e s).0
  unfolding admit_script
  admit_script-Permitted e s fine =
      let k = dedup_key cfg e in
      let (looked, existing) = existing_ticket cfg k (sweep_expired cfg s) in
      if_cases (λ r. IsPermitted cfg r.0) s.closed (s, err closed)
        (admit_script_found cfg k e existing looked) (λ _. fine)
        (λ _. admit_script_found-Permitted k e existing looked (looked_up-Permitted k s fine))

  recover_known-Permitted :
      (r : Option Known) (run : RecoveredRun) (s : State)
      → IsPermitted cfg s
      → IsPermitted cfg (recover_known r run s).0
  unfolding recover_known claim
  recover_known-Permitted none run s fine = fine
  recover_known-Permitted (some (ticket t)) run s fine = fine
  recover_known-Permitted (some (recovered_run old)) run s fine =
      if_cases (λ (r : State × Result RecoveredRun). IsPermitted cfg r.0) (same_run old run) _ _
        (λ _. fine) (λ _. fine)

  pub recover-Permitted :
      (run : RecoveredRun) (s : State) → IsPermitted cfg s → IsPermitted cfg (recover cfg run s).0
  unfolding recover
  recover-Permitted run s fine =
      let swept = sweep_expired cfg s in
      let k = run.invocation_id in
      let found = known (get k swept.tickets) (get k swept.recovered) in
      if_cases (λ r. IsPermitted cfg r.0) s.closed (s, err closed) (recover_known found run swept)
        (λ _. fine) (λ _. recover_known-Permitted found run swept (sweep_expired-Permitted s fine))

  monitor_step_same : (k : String) (s : State) → SamePools s (monitor_step k s)
  unfolding monitor_step expire
  monitor_step_same k s = ground arith

  pub monitor_step-Permitted :
      (k : String) (s : State) → IsPermitted cfg s → IsPermitted cfg (monitor_step k s)
  monitor_step-Permitted k s fine = IsPermitted-same cfg s _ (monitor_step_same k s) fine

  observation_same :
      (k : String) (run : RecoveredRun) (how : ObserverEnd) (s : State)
      → SamePools s (observation k run how s)
  unfolding observation release_capacity_once
  observation_same k run (unavailable e) s = ground arith
  observation_same k run observed s = ground arith
  observation_same k run lost s = ground arith

  observer_ends_same :
      (k : String) (how : ObserverEnd) (s : State) → SamePools s (observer_ends k how s)
  unfolding observer_ends
  observer_ends_same k how s = by_run (get k s.recovered)
    where
      by_run : (o : Option RecoveredRun) → SamePools s (observed_run k how o s)
      by_run none = unfold observed_run in ground arith
      by_run (some run) =
          unfold observed_run in
          ground (
            arith,
            observation_same k run how (record s { recovery_tasks = remove k s.recovery_tasks }),
          )

  pub observer_ends-Permitted :
      (k : String) (how : ObserverEnd) (s : State)
      → IsPermitted cfg s
      → IsPermitted cfg (observer_ends k how s)
  observer_ends-Permitted k how s fine = IsPermitted-same cfg s _ (observer_ends_same k how s) fine
