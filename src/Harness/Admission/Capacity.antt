-- ===== src/Harness/Admission/Capacity.antt =====
-- harness/admission.py: no step of a lane and no sweep makes `queued_total` larger.
use ach_agent.Base.{
  ℕ, ◌≤◌, String, Bool, true, false, some, List, [], ◌∷◌, ◌++◌, arith, string_eq, if_cases, leb,
}
use ach_agent.Base.Dict.{keys}
use ach_agent.Harness.Admission.State.{State, Config, Ticket, Current, Lane}
use ach_agent.Harness.Admission.Ledger.{
  fail, expire, forget, forget_each, is_expired, prune, sweep_expired, keep_or_forget,
  existing_ticket, release_capacity_once, cancel_monitor, retire,
}
use ach_agent.Harness.Admission.Permits.{Round, expired, again, taken, acquire, give_back}
use ach_agent.Harness.Admission.Tasks.{
  next_or_end, finish, after_round, wait_round, begin, take_head, set_lane, lane_step, RunnerEnd,
  runner_ends,
}
use ach_agent.Harness.Admission.Cases.{lane_cases, runner_cases}
use ach_agent.Harness.Admission.Balance.Lanes.{
  acquire_same, ensure_permits_same, give_back_same, settle_run_same,
}

module _ (most : ℕ) where
  abbrev pub Below : State → Type 0
  Below s = s.queued_total ≤ most

  pub retire-Below : (k : String) (t : Ticket) (s : State) → Below s → Below (retire k t s)
  unfolding retire cancel_monitor release_capacity_once
  retire-Below k t s h = ground (arith, h)

  pub release-Below : (k : String) (s : State) → Below s → Below (release_capacity_once k s)
  unfolding release_capacity_once
  release-Below k s h = ground (arith, h)

  next_or_end-Below :
      (l : String) (q : List (String × Ticket)) (s : State) → Below s → Below (next_or_end l q s)
  unfolding next_or_end
  next_or_end-Below l [] s h = h
  next_or_end-Below l (e ∷ q) s h = h

  finish-Below :
      (l : String) (lane : Lane) (c : Current) (s : State) → Below s → Below (finish l lane c s)
  unfolding finish
  finish-Below l lane c s h = next_or_end-Below l lane.queue _ (retire-Below c.key c.ticket s h)

  pub give_back-Below :
      (cfg : Config) (t : Ticket) (s : State) → Below s → Below (give_back cfg t.delivery s)
  give_back-Below cfg t s h = rw ((give_back_same cfg t s).queued_total) h

  module _ (cfg : Config) (l : String) (lane : Lane) (c : Current) where
    after_round-Below : (s : State) (r : Round) → Below s → Below (after_round cfg l lane c s r)
    unfolding after_round expire fail
    after_round-Below s expired h = finish-Below l lane c _ h
    after_round-Below s again h = h
    after_round-Below s taken h =
        if_cases Below (leb c.ticket.deadline_at s.clock) _ _
          (λ _. finish-Below l lane c _ (give_back-Below cfg c.ticket (expire c.ticket _ s) h))
          (λ _. h)

    wait_round-Below : (s : State) → Below s → Below (wait_round cfg l lane c s)
    unfolding wait_round
    wait_round-Below s h =
        after_round-Below _ (acquire cfg c.ticket.deadline_at c.ticket.delivery s).1
          (rw ((acquire_same cfg c.ticket s).queued_total) h)

    begin-Below :
        (s : State) (was_expired : Bool) → Below s → Below (begin cfg l lane c was_expired s)
    unfolding begin expire fail
    begin-Below s true h = finish-Below l lane c s h
    begin-Below s false h =
        if_cases Below (leb c.ticket.deadline_at s.clock) _ _ (λ _. finish-Below l lane c _ h)
          (λ _. wait_round-Below _ (rw ((ensure_permits_same cfg c.ticket s).queued_total) h))

  take_head-Below :
      (cfg : Config) (l : String) (q : List (String × Ticket)) (s : State)
      → Below s
      → Below (take_head cfg l q s)
  unfolding take_head cancel_monitor
  take_head-Below cfg l [] s h = h
  take_head-Below cfg l ((k, t) ∷ rest) s h =
      let c : Current = record { key = k; ticket = t; holding = false } in
      let busy : Lane = record { queue = rest; current = some c; ran = true } in
      let moved = cancel_monitor k t (set_lane l busy s) in
      begin-Below cfg l busy c moved.0 moved.1 (ground (arith, h))

  pub lane_step-Below :
      (cfg : Config) (l : String) (s : State) → Below s → Below (lane_step cfg l s)
  lane_step-Below cfg l s h =
      lane_cases Below cfg l s h (λ lane here idle. take_head-Below cfg l lane.queue s h)
        (λ lane c here busy idle. wait_round-Below cfg l lane c s h)

  pub runner_ends-Below :
      (cfg : Config) (l : String) (how : RunnerEnd) (s : State)
      → Below s
      → Below (runner_ends cfg l how s)
  runner_ends-Below cfg l how s h = runner_cases Below cfg l s h how λ lane c here busy holding.
      finish-Below l lane c _
        (give_back-Below cfg c.ticket _ (rw ((settle_run_same c.ticket how s).queued_total) h))

  forget_each-Below :
      (p : String → Bool) (ks : List String) (s : State) → Below s → Below (forget_each p ks s)
  unfolding forget_each forget
  forget_each-Below p [] s h = h
  forget_each-Below p (k ∷ ks) s h =
      forget_each-Below p ks _ (if_cases Below (p k) (forget k s) s (λ _. h) (λ _. h))

  pub sweep_expired-Below : (cfg : Config) (s : State) → Below s → Below (sweep_expired cfg s)
  unfolding sweep_expired prune
  sweep_expired-Below cfg s h =
      forget_each-Below (is_expired cfg s) (keys s.tickets ++ keys s.recovered) s h

  pub looked_up-Below :
      (cfg : Config) (k : String) (s : State)
      → Below s
      → Below (existing_ticket cfg k (sweep_expired cfg s)).0
  looked_up-Below cfg k s h = by_state (sweep_expired cfg s) (sweep_expired-Below cfg s h)
    where
      by_state : (s : State) → Below s → Below (existing_ticket cfg k s).0
      by_state s h = unfold existing_ticket keep_or_forget forget in ground (arith, h)
