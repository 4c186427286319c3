-- ===== src/Harness/Admission/Balance/Closed.antt =====
-- harness/admission.py: `close` keeps the accounting, and leaves nothing unreleased.
use ach_agent.Base.{
  ◌∙◌, String, ◌≡◌, refl, true, not, ◌&&◌, ◌||◌, none, some, List, [], ◌∷◌, arith, bit, ==_refl,
  nat_eq, string_eq, inl, inr, sym, Option-cases,
}
use ach_agent.Base.Dict.{
  has, get, keys, items, empty, get-put, get-remove, get-empty, sum-empty, sum_zero, elem-keys,
  items-Within, Within, Within-map, within_get,
}
use ach_agent.Harness.Admission.State.{State, Config, Ticket, RecoveredRun, admission_closed}
use ach_agent.Harness.Admission.Ledger.{fail, cancel_monitor, retire, release_capacity_once}
use ach_agent.Harness.Admission.Close.{
  close_run, cancel_observers, cancel_lanes, close_tickets, close_runs, close,
}
use ach_agent.Harness.Admission.Balance.{
  IsBalanced, SameLedger, IsBalanced-same, in_lanes, in_lane, Balanced-lanes, all_tickets, all_runs,
}
use ach_agent.Harness.Admission.Balance.Closing.{
  close_run-Balanced, cancel_observers-Balanced, cancel_lanes-Balanced, lanes-cancel_lanes,
  closed_stays,
}

-- Where no lane holds anything, every ticket is released.
released_of_no_lanes :
    (s : State)
    → IsBalanced s
    → s.lanes ≡ empty
    → (k : String) (t : Ticket) → get k s.tickets ≡ some t
    → has k s.released ≡ true
released_of_no_lanes s b none_left k t e =
    let nothing : in_lanes k t.serial s.lanes ≡ 0 =
      rw none_left (sum-empty (λ l lane. in_lane k t.serial lane)) in
    ground (arith, b.placed k t.serial, nothing, ==_refl t.serial)

-- The lanes' and the monitors' tasks are gone, and the object is closed.
pub record Quiet (s : State) : Type 0 where
  pub no_lanes : s.lanes ≡ empty
  pub no_monitors : (k : String) → get k s.monitors ≡ none
  pub is_closed : s.closed ≡ true

SameLedger-trans : (a b c : State) → SameLedger a b → SameLedger b c → SameLedger a c
SameLedger-trans a b c p q = record {
  tickets = q.tickets ∙ p.tickets;
  recovered = q.recovered ∙ p.recovered;
  released = q.released ∙ p.released;
  queued_total = q.queued_total ∙ p.queued_total;
  lanes = q.lanes ∙ p.lanes;
}

module _ (k : String) (t : Ticket) (s : State) where
  close_one_same : has k s.released ≡ true → SameLedger s (retire k t (fail t admission_closed s))
  unfolding retire fail cancel_monitor release_capacity_once
  close_one_same r = ground arith

  close_one-Quiet : Quiet s → Quiet (retire k t (fail t admission_closed s))
  unfolding retire fail cancel_monitor release_capacity_once
  close_one-Quiet u = record {
    no_lanes = ground (arith, u.no_lanes);
    no_monitors = λ j. ground (arith, u.no_monitors j, get-remove k j s.monitors);
    is_closed = ground (arith, u.is_closed);
  }

close_tickets_same :
    (q : List (String × Ticket)) (s : State)
    → Within (λ k t. has k s.released ≡ true) q
    → SameLedger s (close_tickets q s)
unfolding close_tickets
close_tickets_same [] s w = ground arith
close_tickets_same ((k, t) ∷ rest) s w =
    let s' = retire k t (fail t admission_closed s) in
    let e = close_one_same k t s w.0 in
    SameLedger-trans s s' (close_tickets rest s') e (close_tickets_same rest s' (rw e.released w.1))

close_tickets-Quiet : (q : List (String × Ticket)) (s : State) → Quiet s → Quiet (close_tickets q s)
unfolding close_tickets
close_tickets-Quiet [] s u = u
close_tickets-Quiet ((k, t) ∷ rest) s u = close_tickets-Quiet rest _ (close_one-Quiet k t s u)

-- What closing a run leaves: the records, the tasks, and all that was released before.
record Closes (s s' : State) : Type 0 where
  tickets : s'.tickets ≡ s.tickets
  recovered : s'.recovered ≡ s.recovered
  stays_released : (k : String) → has k s.released ≡ true → has k s'.released ≡ true

close_run-Closes : (k : String) (run : RecoveredRun) (s : State) → Closes s (close_run k run s)
unfolding close_run release_capacity_once
close_run-Closes k run s = record {
  tickets = ground arith;
  recovered = ground arith;
  stays_released = λ j h. ground (arith, get-put k j tt s.released);
}

close_run_releases :
    (k : String) (run : RecoveredRun) (s : State) → has k (close_run k run s).released ≡ true
unfolding close_run release_capacity_once
close_run_releases k run s = ground (arith, get-put k k tt s.released, ==_refl k)

close_run-Quiet :
    (k : String) (run : RecoveredRun) (s : State) → Quiet s → Quiet (close_run k run s)
unfolding close_run release_capacity_once
close_run-Quiet k run s u = record {
  no_lanes = ground (arith, u.no_lanes);
  no_monitors = λ j. ground (arith, u.no_monitors j);
  is_closed = ground (arith, u.is_closed);
}

close_runs-Balanced :
    (q : List (String × RecoveredRun)) (s : State)
    → Within (λ k run. get k s.recovered ≡ some run) q
    → IsBalanced s
    → IsBalanced (close_runs q s)
unfolding close_runs
close_runs-Balanced [] s w b = b
close_runs-Balanced ((k, run) ∷ rest) s w b =
    close_runs-Balanced rest (close_run k run s)
      (Within-map rest (λ j r e. rw ((close_run-Closes k run s).recovered) e) w.1)
      (close_run-Balanced k run s w.0 b)

close_runs-Quiet : (q : List (String × RecoveredRun)) (s : State) → Quiet s → Quiet (close_runs q s)
unfolding close_runs
close_runs-Quiet [] s u = u
close_runs-Quiet ((k, run) ∷ rest) s u = close_runs-Quiet rest _ (close_run-Quiet k run s u)

close_runs-Closes : (q : List (String × RecoveredRun)) (s : State) → Closes s (close_runs q s)
unfolding close_runs
close_runs-Closes [] s = record { tickets = refl; recovered = refl; stays_released = λ k h. h }
close_runs-Closes ((k, run) ∷ rest) s =
    let one = close_run-Closes k run s in
    let more = close_runs-Closes rest (close_run k run s) in
    record {
      tickets = more.tickets ∙ one.tickets;
      recovered = more.recovered ∙ one.recovered;
      stays_released = λ j h. more.stays_released j (one.stays_released j h);
    }

close_runs_releases :
    (q : List (String × RecoveredRun)) (s : State)
    → Within (λ k run. has k (close_runs q s).released ≡ true) q
unfolding close_runs
close_runs_releases [] s = tt
close_runs_releases ((k, run) ∷ rest) s = (
  (close_runs-Closes rest (close_run k run s)).stays_released k (close_run_releases k run s),
  close_runs_releases rest (close_run k run s),
)

-- The state of `close` behind the loop over the lanes.
stopped : Config → State → State
stopped cfg s =
    let s₁ = cancel_observers (keys s.recovery_tasks) (record s { closed = true }) in
    let s₂ = cancel_lanes cfg (keys s₁.lanes) (record s₁ { recovery_tasks = empty }) in
    record s₂ { lanes = empty; monitors = empty }

stopped-Balanced : (cfg : Config) (s : State) → IsBalanced s → IsBalanced (stopped cfg s)
unfolding stopped
stopped-Balanced cfg s b = Balanced-lanes b₂ empty λ j m.
    sum-empty (λ l lane. in_lane j m lane)
    ∙ sym (sum_zero (λ l lane. in_lane j m lane) s₂.lanes (λ l lane e. absurd (cc (gone l, e))))
  where
    s₁ : State
    s₁ = cancel_observers (keys s.recovery_tasks) (record s { closed = true })

    s₂ : State
    s₂ = cancel_lanes cfg (keys s₁.lanes) (record s₁ { recovery_tasks = empty })

    b₂ : IsBalanced s₂
    b₂ =
        cancel_lanes-Balanced cfg (keys s₁.lanes) (record s₁ { recovery_tasks = empty })
          (cancel_observers-Balanced (keys s.recovery_tasks) (record s { closed = true }) b)

    gone : (l : String) → get l s₂.lanes ≡ none
    gone l = ground (
      arith,
      elem-keys l s₁.lanes,
      lanes-cancel_lanes cfg (keys s₁.lanes) (record s₁ { recovery_tasks = empty }) l,
    )

stopped-Quiet : (cfg : Config) (s : State) → Quiet (stopped cfg s)
unfolding stopped
stopped-Quiet cfg s = record {
  no_lanes = refl;
  no_monitors = λ k. get-empty k;
  is_closed =
      closed_stays cfg (keys s.recovery_tasks)
        (keys (cancel_observers (keys s.recovery_tasks) (record s { closed = true })).lanes)
        (record s { closed = true });
}

-- The state of `close` behind the loop over the tickets.
failed_tickets : Config → State → State
failed_tickets cfg s = close_tickets (items (stopped cfg s).tickets) (stopped cfg s)

failed_tickets_same :
    (cfg : Config) (s : State) → IsBalanced s → SameLedger (stopped cfg s) (failed_tickets cfg s)
unfolding failed_tickets
failed_tickets_same cfg s b =
    let s₃ = stopped cfg s in
    close_tickets_same (items s₃.tickets) s₃ (
      Within-map (items s₃.tickets)
        (released_of_no_lanes s₃ (stopped-Balanced cfg s b) (stopped-Quiet cfg s).no_lanes)
        (items-Within s₃.tickets))

close_lem :
    (cfg : Config) (s : State)
    → close cfg s ≡ close_runs (items (failed_tickets cfg s).recovered) (failed_tickets cfg s)
unfolding close failed_tickets stopped
close_lem cfg s = refl

-- What `close` promises.
pub record IsClosed (s : State) : Type 0 where
  pub balanced : IsBalanced s
  pub quiet : Quiet s
  pub all_released :
      (k : String) → (has k s.tickets || has k s.recovered) ≡ true → has k s.released ≡ true
  pub nothing_queued : s.queued_total ≡ 0

IsClosed-of :
    (s : State)
    → IsBalanced s
    → Quiet s
    → Within (λ k run. has k s.released ≡ true) (items s.recovered)
    → IsClosed s
IsClosed-of s b u runs = record {
  balanced = b;
  quiet = u;
  all_released = λ k h. elim (Option-cases (get k s.tickets)) [
    | inr (t, e) ↦ released_of_no_lanes s b u.no_lanes k t e
    | inl e ↦ elim (Option-cases (get k s.recovered)) [
      | inr (run, e') ↦ within_get (λ k run. has k s.released ≡ true) k run s.recovered runs e'
      | inl e' ↦ ground arith
    ]
  ];
  nothing_queued = omega (
    arith,
    b.counted,
    sum_zero (λ k (t : Ticket). bit (not (has k s.released) && all_tickets t)) s.tickets
        (λ k t e. ground (arith, released_of_no_lanes s b u.no_lanes k t e)),
    sum_zero (λ k (run : RecoveredRun). bit (not (has k s.released) && all_runs run)) s.recovered
        (λ k run e.
          ground (arith, within_get (λ k run. has k s.released ≡ true) k run s.recovered runs e)),
  );
}

pub close-IsClosed : (cfg : Config) (s : State) → IsBalanced s → IsClosed (close cfg s)
close-IsClosed cfg s b =
    let s₄ = failed_tickets cfg s in
    rw (close_lem cfg s) (
      IsClosed-of (close_runs (items s₄.recovered) s₄)
        (close_runs-Balanced (items s₄.recovered) s₄ (items-Within s₄.recovered) (
          IsBalanced-same (stopped cfg s) s₄ (failed_tickets_same cfg s b)
            (stopped-Balanced cfg s b)))
        (close_runs-Quiet (items s₄.recovered) s₄ (
          unfold failed_tickets in
          close_tickets-Quiet (items (stopped cfg s).tickets) (stopped cfg s)
            (stopped-Quiet cfg s)))
        (rw ((close_runs-Closes (items s₄.recovered) s₄).recovered)
          (close_runs_releases (items s₄.recovered) s₄)))
