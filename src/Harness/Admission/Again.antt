-- ===== src/Harness/Admission/Again.antt =====
-- harness/admission.py: a delivery that comes again while its key is known.
use ach_agent.Base.{
  ◌++◌, String, ◌≡◌, refl, Bool, false, Option, some, List, [], ◌∷◌, arith, string_eq,
  if◌then◌else◌, if_cases, ==_iff, ◌==◌, ◌∙◌,
}
use ach_agent.Base.Dict.{get, keys, get-remove}
use ach_agent.Channels.Event.{RoutedEvent}
use ach_agent.Harness.Admission.State.{State, Config, rate_key_eq}
use ach_agent.Harness.Admission.Ledger.{
  forget, forget_each, is_expired, window_over, prune, sweep_expired, Known, known, ticket,
  recovered_run, keep_or_forget, existing_ticket,
}
use ach_agent.Harness.Admission.Admit.{
  Result, ok, err, closed, admit, admit_found, known_again, dedup_key,
}

-- What a key stands for.
abbrev pub known_at : String → State → Option Known
known_at k s = known (get k s.tickets) (get k s.recovered)

-- The sweep leaves a key alone that it has not chosen.
record Kept (k : String) (s s' : State) : Type 0 where
  tickets : get k s'.tickets ≡ get k s.tickets
  recovered : get k s'.recovered ≡ get k s.recovered
  released : get k s'.released ≡ get k s.released
  completed_at : get k s'.completed_at ≡ get k s.completed_at
  queued_total : s'.queued_total ≡ s.queued_total
  clock : s'.clock ≡ s.clock
  lanes : s'.lanes ≡ s.lanes
  closed : s'.closed ≡ s.closed

forget-Kept : (k j : String) (s : State) → (j == k) ≡ false → Kept k s (forget j s)
unfolding forget
forget-Kept k j s h = ground (
  arith,
  get-remove j k s.tickets,
  get-remove j k s.recovered,
  get-remove j k s.released,
  get-remove j k s.completed_at,
)

Kept-trans : (k : String) (a b c : State) → Kept k a b → Kept k b c → Kept k a c
Kept-trans k a b c p q = record {
  tickets = q.tickets ∙ p.tickets;
  recovered = q.recovered ∙ p.recovered;
  released = q.released ∙ p.released;
  completed_at = q.completed_at ∙ p.completed_at;
  queued_total = q.queued_total ∙ p.queued_total;
  clock = q.clock ∙ p.clock;
  lanes = q.lanes ∙ p.lanes;
  closed = q.closed ∙ p.closed;
}

Kept-refl : (k : String) (s : State) → Kept k s s
Kept-refl k s = ground arith

forget_each-Kept :
    (p : String → Bool) (k : String) (ks : List String) (s : State)
    → p k ≡ false
    → Kept k s (forget_each p ks s)
unfolding forget_each
forget_each-Kept p k [] s h = Kept-refl k s
forget_each-Kept p k (j ∷ ks) s h =
    let s' = if p j then forget j s else s in
    Kept-trans k s s' (forget_each p ks s')
      (if_cases (Kept k s) (p j) (forget j s) s
        (λ chosen. forget-Kept k j s (ground (arith, ==_iff j k))) (λ _. Kept-refl k s))
      (forget_each-Kept p k ks s' h)

sweep_expired-Kept :
    (cfg : Config) (k : String) (s : State)
    → is_expired cfg s k ≡ false
    → Kept k s (sweep_expired cfg s)
unfolding sweep_expired prune
sweep_expired-Kept cfg k s h =
    let kept = forget_each-Kept (is_expired cfg s) k (keys s.tickets ++ keys s.recovered) s h in
    record {
      tickets = kept.tickets;
      recovered = kept.recovered;
      released = kept.released;
      completed_at = kept.completed_at;
      queued_total = kept.queued_total;
      clock = kept.clock;
      lanes = kept.lanes;
      closed = kept.closed;
    }

keep_or_forget_keeps :
    (cfg : Config) (k : String) (r : Known) (s : State)
    → is_expired cfg s k ≡ false
    → keep_or_forget cfg k (some r) s ≡ (s, some r)
unfolding keep_or_forget is_expired window_over
keep_or_forget_keeps cfg k r s h = ground arith

-- What a delivery comes to whose key is known and not expired.
pub record Answered (s s' : State) (answer : Result Known) (r : Known) : Type 0 where
  pub same_answer : answer ≡ ok r
  pub same_queue : s'.queued_total ≡ s.queued_total
  pub same_lanes : s'.lanes ≡ s.lanes

existing_known :
    (cfg : Config) (k : String) (r : Known) (s : State)
    → known_at k s ≡ some r
    → is_expired cfg s k ≡ false
    → existing_ticket cfg k s ≡ (s, some r)
unfolding existing_ticket
existing_known cfg k r s found fresh = rw found (keep_or_forget_keeps cfg k r s fresh)

admit_found-Answered :
    (cfg : Config) (e : RoutedEvent) (r : Known) (s : State)
    → Answered s
        (admit_found cfg (dedup_key cfg e.event) e (some r) s).0
        (admit_found cfg (dedup_key cfg e.event) e (some r) s).1
        r
unfolding admit_found known_again
admit_found-Answered cfg e (ticket t) s = ground arith
admit_found-Answered cfg e (recovered_run run) s = ground arith

admit_lem :
    (cfg : Config) (e : RoutedEvent) (s : State)
    → let k = dedup_key cfg e.event in
      let (looked, existing) = existing_ticket cfg k (sweep_expired cfg s) in
      admit cfg e s ≡ (if s.closed then (s, err closed) else admit_found cfg k e existing looked)
unfolding admit
admit_lem cfg e s = refl

-- A delivery whose key has a ticket or a recovered run that is not expired, while the object is
-- open, is answered with it, and neither the queued total nor the lanes change.
pub admit_known :
    (cfg : Config) (e : RoutedEvent) (r : Known) (s : State)
    → s.closed ≡ false
    → known_at (dedup_key cfg e.event) s ≡ some r
    → is_expired cfg s (dedup_key cfg e.event) ≡ false
    → Answered s (admit cfg e s).0 (admit cfg e s).1 r
admit_known cfg e r s opened found fresh = rw (admit_lem cfg e s) (
    if_cases After s.closed (s, err closed) _ (λ shut. absurd (ground arith))
      (λ _. by_look_up (existing_ticket cfg k swept) (existing_known cfg k r swept found' fresh')))
  where
    After : State × Result Known → Type 0
    After (s', answer) = Answered s s' answer r

    k : String
    k = dedup_key cfg e.event

    swept : State
    swept = sweep_expired cfg s

    kept : Kept k s swept
    kept = sweep_expired-Kept cfg k s fresh

    found' : known_at k swept ≡ some r
    found' = ground (arith, kept.tickets, kept.recovered, found)

    fresh' : is_expired cfg swept k ≡ false
    fresh' =
        unfold is_expired in ground (arith, kept.released, kept.completed_at, kept.clock, fresh)

    by_look_up :
        (x : State × Option Known) → x ≡ (swept, some r) → After (admit_found cfg k e x.1 x.0)
    by_look_up x h =
        let answered = admit_found-Answered cfg e r swept in
        rw h (record {
          same_answer = answered.same_answer;
          same_queue = answered.same_queue ∙ kept.queued_total;
          same_lanes = answered.same_lanes ∙ kept.lanes;
        })
