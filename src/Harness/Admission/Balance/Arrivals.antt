-- ===== src/Harness/Admission/Balance/Arrivals.antt =====
-- harness/admission.py: the sweep, the entry points, the monitors and the observers keep the
-- accounting of the ledger.
use ach_agent.Base.{
  ℕ, ◌+◌, String, ◌≡◌, refl, ◌&&◌, Option, none, some, List, [], ◌∷◌, ◌++◌, arith, bit, ◌==◌,
  nat_eq, string_eq, Bool-cases, if_cases, inl, inr, leb,
}
use ach_agent.Base.Dict.{get, put, sum-put}
use ach_agent.Channels.Event.{Event, RoutedEvent}
use ach_agent.Harness.Admission.State.{
  State, Config, Ticket, RecoveredRun, Lane, is_script, RateKey, rate_key_eq,
}
use ach_agent.Harness.Admission.Ledger.{
  sweep_expired, existing_ticket, Known, ticket, recovered_run, known,
}
use ach_agent.Harness.Admission.Admit.{
  Result, ok, err, closed, check_windows, append_admits, enqueue, admit_new, known_again,
  admit_allowed, admit_limited, admit_found, dedup_key, admit_script_found, same_run, recover_known,
  rate_checks, admit, admit_script, admit_script_fresh, script_again, claim, recover, lane_at,
  drop_old, admits_at,
}
use ach_agent.Harness.Admission.Balance.{
  IsBalanced, SameLedger, IsBalanced-same, in_lane, in_queue, Balanced-enqueue, Balanced-claim,
}
use ach_agent.Harness.Admission.Balance.Sweep.{
  sweep_expired-Balanced, existing_ticket-Balanced, existing_ticket-none,
}

in_queue-append :
    (j : String) (m : ℕ) (k : String) (t : Ticket) (q : List (String × Ticket))
    → in_queue j m (q ++ (k, t) ∷ []) ≡ in_queue j m q + bit (k == j && t.serial == m)
in_queue-append j m k t [] = omega arith
in_queue-append j m k t (e ∷ q) = omega (arith, in_queue-append j m k t q)

enqueue-Balanced :
    (k l : String) (t : Ticket) (s : State)
    → get k s.tickets ≡ none
    → get k s.recovered ≡ none
    → IsBalanced s
    → IsBalanced (enqueue k l t s)
unfolding enqueue
enqueue-Balanced k l t s nt nr b = Balanced-enqueue b k t (put l new s.lanes) nt nr λ j m. ground (
  arith,
  sum-put (λ l lane. in_lane j m lane) l new s.lanes,
  in_queue-append j m k t (lane_at l s).queue,
)
  where
    new : Lane
    new = record {
      queue = (lane_at l s).queue ++ (k, t) ∷ [];
      current = (lane_at l s).current;
      ran = (lane_at l s).ran;
    }

pub check_windows_same :
    (checks : List (RateKey × ℕ)) (s : State) → SameLedger s (check_windows checks s).0
unfolding check_windows
check_windows_same [] s = ground arith
check_windows_same ((k, most) ∷ checks) s = ground (
  arith,
  check_windows_same checks
      (record s { rate_admits = put k (drop_old s.clock (admits_at k s)) s.rate_admits }),
)

pub append_admits_same :
    (checks : List (RateKey × ℕ)) (s : State) → SameLedger s (append_admits checks s)
unfolding append_admits
append_admits_same [] s = ground arith
append_admits_same ((k, most) ∷ checks) s = ground (
  arith,
  append_admits_same checks
      (record s { rate_admits = put k (admits_at k s ++ s.clock ∷ []) s.rate_admits }),
)

append_admits-Balanced :
    (checks : List (RateKey × ℕ)) (s : State) → IsBalanced s → IsBalanced (append_admits checks s)
append_admits-Balanced checks s b =
    IsBalanced-same s (append_admits checks s) (append_admits_same checks s) b

admit_new-Balanced :
    (cfg : Config) (k : String) (e : RoutedEvent) (checks : List (RateKey × ℕ)) (s : State)
    → get k s.tickets ≡ none
    → get k s.recovered ≡ none
    → IsBalanced s
    → IsBalanced (admit_new cfg k e checks s).0
unfolding admit_new
admit_new-Balanced cfg k e checks s nt nr b =
    elim (Bool-cases (leb cfg.max_queued_total s.queued_total)) [
      | inl full ↦ rw full b
      | inr room ↦ rw room (append_admits-Balanced checks _ (enqueue-Balanced k _ _ s nt nr b))
    ]

admit_limited-Balanced :
    (cfg : Config) (k : String) (e : RoutedEvent) (checks : Option (List (RateKey × ℕ))) (s : State)
    → get k s.tickets ≡ none
    → get k s.recovered ≡ none
    → IsBalanced s
    → IsBalanced (admit_limited cfg k e checks s).0
unfolding admit_limited
admit_limited-Balanced cfg k e none s nt nr b = b
admit_limited-Balanced cfg k e (some checks) s nt nr b =
    by_answer (check_windows checks s).0 (check_windows checks s).1 (check_windows_same checks s)
  where
    by_answer :
        (s' : State) (allowed : Result (Unit {0}))
        → SameLedger s s'
        → IsBalanced (admit_allowed cfg k e checks allowed s').0
    by_answer s' (err error) e' = unfold admit_allowed in IsBalanced-same s s' e' b
    by_answer s' (ok _) e' =
        unfold admit_allowed in
        admit_new-Balanced cfg k e checks s' (rw e'.tickets nt) (rw e'.recovered nr)
          (IsBalanced-same s s' e' b)

known_again-Balanced : (r : Known) (s : State) → IsBalanced s → IsBalanced (known_again r s)
unfolding known_again
known_again-Balanced (ticket t) s b = b
known_again-Balanced (recovered_run r) s b = b

admit_found-Balanced :
    (cfg : Config) (k : String) (e : RoutedEvent) (r : Option Known) (s : State)
    → (r ≡ none → (get k s.tickets ≡ none) × (get k s.recovered ≡ none))
    → IsBalanced s
    → IsBalanced (admit_found cfg k e r s).0
unfolding admit_found
admit_found-Balanced cfg k e (some r) s new b = known_again-Balanced r s b
admit_found-Balanced cfg k e none s new b =
    admit_limited-Balanced cfg k e (rate_checks cfg e) s (new refl).0 (new refl).1 b

pub admit-Balanced :
    (cfg : Config) (e : RoutedEvent) (s : State) → IsBalanced s → IsBalanced (admit cfg e s).0
unfolding admit
admit-Balanced cfg e s b =
    let k = dedup_key cfg e.event in
    let swept = sweep_expired cfg s in
    let (looked, existing) = existing_ticket cfg k swept in
    if_cases (λ r. IsBalanced r.0) s.closed (s, err closed) (admit_found cfg k e existing looked)
      (λ _. b)
      (λ _.
        admit_found-Balanced cfg k e existing looked (existing_ticket-none cfg k swept)
          (existing_ticket-Balanced cfg k swept (sweep_expired-Balanced cfg s b)))

admit_script_found-Balanced :
    (cfg : Config) (k : String) (e : Event) (r : Option Known) (s : State)
    → (r ≡ none → (get k s.tickets ≡ none) × (get k s.recovered ≡ none))
    → IsBalanced s
    → IsBalanced (admit_script_found cfg k e r s).0
unfolding admit_script_found script_again admit_script_fresh
admit_script_found-Balanced cfg k e (some (recovered_run r)) s new b = b
admit_script_found-Balanced cfg k e (some (ticket t)) s new b =
    elim (Bool-cases (is_script t.delivery)) [ inl h ↦ rw h b | inr h ↦ rw h b ]
admit_script_found-Balanced cfg k e none s new b =
    elim (Bool-cases (leb cfg.max_queued_total s.queued_total)) [
      | inl full ↦ rw full b
      | inr room ↦ rw room (enqueue-Balanced k _ _ s (new refl).0 (new refl).1 b)
    ]

pub admit_script-Balanced :
    (cfg : Config) (e : Event) (s : State) → IsBalanced s → IsBalanced (admit_script cfg e s).0
unfolding admit_script
admit_script-Balanced cfg e s b =
    let k = dedup_key cfg e in
    let swept = sweep_expired cfg s in
    let (looked, existing) = existing_ticket cfg k swept in
    if_cases (λ r. IsBalanced r.0) s.closed (s, err closed)
      (admit_script_found cfg k e existing looked) (λ _. b)
      (λ _.
        admit_script_found-Balanced cfg k e existing looked (existing_ticket-none cfg k swept)
          (existing_ticket-Balanced cfg k swept (sweep_expired-Balanced cfg s b)))

recover_known-Balanced :
    (r : Option Known) (run : RecoveredRun) (s : State)
    → r ≡ known (get run.invocation_id s.tickets) (get run.invocation_id s.recovered)
    → IsBalanced s
    → IsBalanced (recover_known r run s).0
unfolding recover_known claim
recover_known-Balanced none run s e b =
    Balanced-claim b run.invocation_id _ (ground arith) (ground arith)
recover_known-Balanced (some (ticket t)) run s e b = b
recover_known-Balanced (some (recovered_run old)) run s e b = elim (Bool-cases (same_run old run)) [
  | inl h ↦ rw h b
  | inr h ↦ rw h b
]

pub recover-Balanced :
    (cfg : Config) (run : RecoveredRun) (s : State)
    → IsBalanced s
    → IsBalanced (recover cfg run s).0
unfolding recover
recover-Balanced cfg run s b =
    let swept = sweep_expired cfg s in
    let k = run.invocation_id in
    let found = known (get k swept.tickets) (get k swept.recovered) in
    if_cases (λ r. IsBalanced r.0) s.closed (s, err closed) (recover_known found run swept) (λ _. b)
      (λ _. recover_known-Balanced found run swept refl (sweep_expired-Balanced cfg s b))
