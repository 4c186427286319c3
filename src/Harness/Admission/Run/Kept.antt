-- ===== src/Harness/Admission/Run/Kept.antt =====
-- harness/admission.py: the steps that keep `queued_total` below a bound.
use ach_agent.Base.{
  ℕ, ◌+◌, ◌≤◌, String, true, false, Option, none, some, List, [], ◌∷◌, ◌≡◌, arith, string_eq,
  if_cases, leb,
}
use ach_agent.Base.Dict.{get, has, keys, remove, items, empty}
use ach_agent.Channels.Event.{Event, RoutedEvent}
use ach_agent.Harness.Admission.State.{
  Failure, State, Config, Ticket, RecoveredRun, Current, Lane, RateKey, is_script, admission_closed,
}
use ach_agent.Harness.Admission.Ledger.{
  fail, expire, sweep_expired, Known, ticket, recovered_run, existing_ticket, release_capacity_once,
}
use ach_agent.Harness.Admission.Admit.{
  Result, ok, err, closed, enqueue, check_windows, append_admits, admit_new, admit_limited,
  admit_allowed, admit_found, known_again, rate_checks, dedup_key, admit, admit_script,
  admit_script_found, admit_script_fresh, script_again,
}
use ach_agent.Harness.Admission.Permits.{give_back}
use ach_agent.Harness.Admission.Tasks.{
  monitor_step, ObserverEnd, observation, observed_run, observer_ends,
}
use ach_agent.Harness.Admission.Close.{
  close_run, cancel_observer, cancel_observers, drain, cause, give_back_held, cancel_current,
  cancel_lane, cancel_lanes, close_tickets, close_runs, close,
}
use ach_agent.Harness.Admission.Balance.Arrivals.{check_windows_same, append_admits_same}
use ach_agent.Harness.Admission.Capacity.{
  Below, retire-Below, release-Below, looked_up-Below, give_back-Below,
}

module _ (most : ℕ) where
  close_run-Below :
      (k : String) (r : RecoveredRun) (s : State) → Below most s → Below most (close_run k r s)
  unfolding close_run
  close_run-Below k r s h =
      if_cases (Below most) (has k s.released) s _ (λ _. h) (λ _. release-Below most k _ h)

  cancel_observers-Below :
      (ks : List String) (s : State) → Below most s → Below most (cancel_observers ks s)
  unfolding cancel_observers cancel_observer
  cancel_observers-Below [] s h = h
  cancel_observers-Below (k ∷ ks) s h =
      cancel_observers-Below ks (cancel_observer k s) (by_run (get k s.recovered))
    where
      by_run :
          (o : Option RecoveredRun)
          → let s' : State = record s { recovery_tasks = remove k s.recovery_tasks } in
            Below most (elim o [ none ↦ s' | some r ↦ close_run k r s' ])
      by_run none = h
      by_run (some r) = close_run-Below k r _ h

  drain-Below :
      (why : Failure) (q : List (String × Ticket)) (s : State)
      → Below most s
      → Below most (drain why q s)
  unfolding drain fail
  drain-Below why [] s h = h
  drain-Below why ((k, t) ∷ rest) s h =
      drain-Below why rest _ (retire-Below most k t (fail t why s) h)

  cancel_current-Below :
      (cfg : Config) (o : Option Current) (s : State)
      → Below most s
      → Below most (cancel_current cfg o s)
  unfolding cancel_current give_back_held fail
  cancel_current-Below cfg none s h = h
  cancel_current-Below cfg (some c) s h = retire-Below most c.key c.ticket _ (
      if_cases (Below most) c.holding (give_back cfg c.ticket.delivery s) s
        (λ _. give_back-Below most cfg c.ticket s h) (λ _. h))

  cancel_lane-Below :
      (cfg : Config) (l : String) (s : State) → Below most s → Below most (cancel_lane cfg l s)
  unfolding cancel_lane
  cancel_lane-Below cfg l s h = by_lane (get l s.lanes)
    where
      by_lane :
          (o : Option Lane)
          → Below most (elim o [
            | none ↦ s
            | some lane ↦
                let s' = drain (cause lane.ran) lane.queue (cancel_current cfg lane.current s) in
                record s' { lanes = remove l s'.lanes }
          ])
      by_lane none = h
      by_lane (some lane) =
          drain-Below (cause lane.ran) lane.queue _ (cancel_current-Below cfg lane.current s h)

  cancel_lanes-Below :
      (cfg : Config) (ls : List String) (s : State)
      → Below most s
      → Below most (cancel_lanes cfg ls s)
  unfolding cancel_lanes
  cancel_lanes-Below cfg [] s h = h
  cancel_lanes-Below cfg (l ∷ ls) s h = cancel_lanes-Below cfg ls _ (cancel_lane-Below cfg l s h)

  close_tickets-Below :
      (q : List (String × Ticket)) (s : State) → Below most s → Below most (close_tickets q s)
  unfolding close_tickets fail
  close_tickets-Below [] s h = h
  close_tickets-Below ((k, t) ∷ rest) s h =
      close_tickets-Below rest _ (retire-Below most k t (fail t admission_closed s) h)

  close_runs-Below :
      (q : List (String × RecoveredRun)) (s : State) → Below most s → Below most (close_runs q s)
  unfolding close_runs
  close_runs-Below [] s h = h
  close_runs-Below ((k, r) ∷ rest) s h = close_runs-Below rest _ (close_run-Below k r s h)

  pub close-Below : (cfg : Config) (s : State) → Below most s → Below most (close cfg s)
  unfolding close
  close-Below cfg s h = close_runs-Below (items s₄.recovered) s₄ (
      close_tickets-Below (items s₃.tickets) s₃ (
        cancel_lanes-Below cfg (keys s₁.lanes) (record s₁ { recovery_tasks = empty })
          (cancel_observers-Below (keys s.recovery_tasks) (record s { closed = true }) h)))
    where
      s₁ : State
      s₁ = cancel_observers (keys s.recovery_tasks) (record s { closed = true })

      s₂ : State
      s₂ = cancel_lanes cfg (keys s₁.lanes) (record s₁ { recovery_tasks = empty })

      s₃ : State
      s₃ = record s₂ { lanes = empty; monitors = empty }

      s₄ : State
      s₄ = close_tickets (items s₃.tickets) s₃

  pub observer_ends-Below :
      (k : String) (how : ObserverEnd) (s : State)
      → Below most s
      → Below most (observer_ends k how s)
  unfolding observer_ends observed_run observation release_capacity_once
  observer_ends-Below k how s h = ground (arith, h)

  pub monitor_step-Below : (k : String) (s : State) → Below most s → Below most (monitor_step k s)
  unfolding monitor_step expire
  monitor_step-Below k s h = ground (arith, h)

  module _ (cfg : Config) (limit : cfg.max_queued_total ≤ most) where
    -- The limit is looked at before anything is queued.
    one_more-Below :
        (s : State) → leb cfg.max_queued_total s.queued_total ≡ false → s.queued_total + 1 ≤ most
    one_more-Below s room = ground (arith, room, limit)

    append_admits-Below :
        (checks : List (RateKey × ℕ)) (s : State)
        → Below most s
        → Below most (append_admits checks s)
    append_admits-Below checks s h = rw ((append_admits_same checks s).queued_total) h

    admit_allowed-Below :
        (k : String) (e : RoutedEvent) (checks : List (RateKey × ℕ)) (allowed : Result (Unit {0}))
        (s : State)
        → Below most s
        → Below most (admit_allowed cfg k e checks allowed s).0
    unfolding admit_allowed admit_new enqueue
    admit_allowed-Below k e checks (err error) s h = h
    admit_allowed-Below k e checks (ok _) s h =
        if_cases (λ (r : State × Result Known). Below most r.0)
          (leb cfg.max_queued_total s.queued_total) _ _ (λ _. h)
          (λ room. append_admits-Below checks _ (one_more-Below s room))

    admit_found-Below :
        (k : String) (e : RoutedEvent) (r : Option Known) (s : State)
        → Below most s
        → Below most (admit_found cfg k e r s).0
    unfolding admit_found known_again
    admit_found-Below k e (some (ticket t)) s h = h
    admit_found-Below k e (some (recovered_run r)) s h = h
    admit_found-Below k e none s h = limited (rate_checks cfg e)
      where
        limited :
            (checks : Option (List (RateKey × ℕ))) → Below most (admit_limited cfg k e checks s).0
        limited none = unfold admit_limited in h
        limited (some checks) =
            unfold admit_limited in
            admit_allowed-Below k e checks (check_windows checks s).1 (check_windows checks s).0
              (rw ((check_windows_same checks s).queued_total) h)

    pub admit-Below : (e : RoutedEvent) (s : State) → Below most s → Below most (admit cfg e s).0
    unfolding admit
    admit-Below e s h =
        let k = dedup_key cfg e.event in
        let (looked, existing) = existing_ticket cfg k (sweep_expired cfg s) in
        if_cases (λ r. Below most r.0) s.closed (s, err closed)
          (admit_found cfg k e existing looked) (λ _. h)
          (λ _. admit_found-Below k e existing looked (looked_up-Below most cfg k s h))

    admit_script_found-Below :
        (k : String) (e : Event) (r : Option Known) (s : State)
        → Below most s
        → Below most (admit_script_found cfg k e r s).0
    unfolding admit_script_found script_again admit_script_fresh enqueue
    admit_script_found-Below k e (some (recovered_run r)) s h = h
    admit_script_found-Below k e (some (ticket t)) s h =
        if_cases (λ (r : State × Result Ticket). Below most r.0) (is_script t.delivery) _ _ (λ _. h)
          (λ _. h)
    admit_script_found-Below k e none s h =
        if_cases (λ (r : State × Result Ticket). Below most r.0)
          (leb cfg.max_queued_total s.queued_total) _ _ (λ _. h) (λ room. one_more-Below s room)

    pub admit_script-Below :
        (e : Event) (s : State) → Below most s → Below most (admit_script cfg e s).0
    unfolding admit_script
    admit_script-Below e s h =
        let k = dedup_key cfg e in
        let (looked, existing) = existing_ticket cfg k (sweep_expired cfg s) in
        if_cases (λ r. Below most r.0) s.closed (s, err closed)
          (admit_script_found cfg k e existing looked) (λ _. h)
          (λ _. admit_script_found-Below k e existing looked (looked_up-Below most cfg k s h))
