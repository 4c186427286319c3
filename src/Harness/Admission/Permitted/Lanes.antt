-- ===== src/Harness/Admission/Permitted/Lanes.antt =====
-- harness/admission.py: the steps of the lanes keep the permit pools in step with the runners.
use ach_agent.Base.{
  ℕ, ◌+◌, String, ◌≡◌, refl, Bool, true, false, none, some, List, [], ◌∷◌, arith, bit, string_eq,
  if_cases, leb,
}
use ach_agent.Base.Dict.{Dict, get, put, get-put_self, sum-put, sum-remove}
use ach_agent.Harness.Admission.State.{State, Config, Ticket, Delivery, Current, Lane}
use ach_agent.Harness.Admission.Ledger.{fail, expire, cancel_monitor, retire, release_capacity_once}
use ach_agent.Harness.Admission.Permits.{
  Round, expired, again, taken, acquire, acquire_all, acquire_script, ensure_permits, give_back,
}
use ach_agent.Harness.Admission.Tasks.{
  next_or_end, finish, after_round, wait_round, begin, take_head, lane_step, RunnerEnd, settle_run,
  runner_ends,
}
use ach_agent.Harness.Admission.Cases.{lane_cases, runner_cases}
use ach_agent.Harness.Admission.Balance.Lanes.{rest_of, lanes-cancel_monitor}
use ach_agent.Harness.Admission.Permitted.{
  PermittedWith, IsPermitted, Permitted-lanes, OneMore, running, at_work, SamePools,
  PermittedWith-same, give_back-Permitted,
}
use ach_agent.Harness.Admission.Permitted.Acquire.{
  AfterRound, acquire-Permitted, ensure_permits-Permitted,
}

next_or_end-Permitted :
    (cfg : Config) (l : String) (q : List (String × Ticket)) (s : State)
    → PermittedWith cfg (rest_of l q s.lanes) s
    → IsPermitted cfg (next_or_end l q s)
unfolding next_or_end
next_or_end-Permitted cfg l [] s h = h
next_or_end-Permitted cfg l (e ∷ q) s h = h

running-rest_of :
    (p : Delivery → Bool) (l : String) (lane : Lane) (q : List (String × Ticket))
    (L : Dict String Lane)
    → get l L ≡ some lane
    → running p L ≡ running p (rest_of l q L) + at_work p lane.current
running-rest_of p l lane [] L h = ground (arith, sum-remove (λ l lane. at_work p lane.current) l L)
running-rest_of p l lane (e ∷ q) L h = ground (
  arith,
  sum-put (λ l lane. at_work p lane.current) l
      (record { queue = e ∷ q; current = none; ran = true }) L,
)

retire_same : (k : String) (t : Ticket) (s : State) → SamePools s (retire k t s)
unfolding retire cancel_monitor release_capacity_once
retire_same k t s = ground arith

lanes-retire : (k : String) (t : Ticket) (s : State) → (retire k t s).lanes ≡ s.lanes
unfolding retire cancel_monitor release_capacity_once
lanes-retire k t s = ground arith

settle_run_same : (t : Ticket) (how : RunnerEnd) (s : State) → SamePools s (settle_run t how s)
unfolding settle_run
settle_run_same t how s = ground arith

cancel_monitor_same : (k : String) (t : Ticket) (s : State) → SamePools s (cancel_monitor k t s).0
unfolding cancel_monitor
cancel_monitor_same k t s = ground arith

lanes-acquire :
    (cfg : Config) (deadline : ℕ) (d : Delivery) (s : State)
    → (acquire cfg deadline d s).0.lanes ≡ s.lanes
unfolding acquire acquire_all acquire_script
lanes-acquire cfg deadline d s = ground arith

lanes-give_back : (cfg : Config) (d : Delivery) (s : State) → (give_back cfg d s).lanes ≡ s.lanes
unfolding give_back
lanes-give_back cfg d s = ground arith

lanes-ensure_permits :
    (cfg : Config) (d : Delivery) (s : State) → (ensure_permits cfg d s).lanes ≡ s.lanes
unfolding ensure_permits
lanes-ensure_permits cfg d s = ground arith

module _ (cfg : Config) (l : String) (lane : Lane) (c : Current)
    (busy : lane.current ≡ some c) where
  finish-Permitted :
      (s : State)
      → PermittedWith cfg (rest_of l lane.queue s.lanes) s
      → IsPermitted cfg (finish l lane c s)
  unfolding finish
  finish-Permitted s ok =
      let s' = retire c.key c.ticket s in
      next_or_end-Permitted cfg l lane.queue s' (
        rw (lanes-retire c.key c.ticket s) (
          PermittedWith-same cfg (rest_of l lane.queue s.lanes) s s' (retire_same c.key c.ticket s)
            ok))

  -- An entry that holds no permits ends.
  idle_finish-Permitted :
      (s : State)
      → get l s.lanes ≡ some lane
      → c.holding ≡ false
      → IsPermitted cfg s
      → IsPermitted cfg (finish l lane c s)
  idle_finish-Permitted s here idle ok = finish-Permitted s (
      Permitted-lanes cfg (rest_of l lane.queue s.lanes) s
        (λ p. ground (arith, running-rest_of p l lane lane.queue s.lanes here)) ok)

  -- An entry gives its permits back and ends; the table `L` counts its runner.
  holder_finish-Permitted :
      (s : State) (L : Dict String Lane)
      → ((p : Delivery → Bool)
          → running p L ≡ running p (rest_of l lane.queue s.lanes) + bit (p c.ticket.delivery))
      → PermittedWith cfg L s
      → IsPermitted cfg (finish l lane c (give_back cfg c.ticket.delivery s))
  holder_finish-Permitted s L h ok =
      let s' = give_back cfg c.ticket.delivery s in
      finish-Permitted s' (
        rw (lanes-give_back cfg c.ticket.delivery s)
          (give_back-Permitted cfg (rest_of l lane.queue s.lanes) c.ticket.delivery s h ok))

  holds : Lane
  holds = record { queue = lane.queue; current = some (record c { holding = true }); ran = true }

  after_round-Permitted :
      (s : State) (r : Round)
      → get l s.lanes ≡ some lane
      → c.holding ≡ false
      → AfterRound cfg s.lanes c.ticket.delivery s r
      → IsPermitted cfg (after_round cfg l lane c s r)
  unfolding after_round expire fail holds
  after_round-Permitted s expired here idle ok =
      idle_finish-Permitted (expire c.ticket _ s) here idle ok
  after_round-Permitted s again here idle ok = ok
  after_round-Permitted s taken here idle ok =
      if_cases (IsPermitted cfg) (leb c.ticket.deadline_at s.clock) _ _
        (λ late.
          holder_finish-Permitted (expire c.ticket _ s) (put l holds s.lanes)
            (λ p. ground (arith, one_more p, running-rest_of p l lane lane.queue s.lanes here))
            (ok (put l holds s.lanes) one_more))
        (λ early. ok (put l holds s.lanes) one_more)
    where
      one_more : OneMore s.lanes (put l holds s.lanes) c.ticket.delivery
      one_more p = ground (arith, sum-put (λ l lane. at_work p lane.current) l holds s.lanes)

  wait_round-Permitted :
      (s : State)
      → get l s.lanes ≡ some lane
      → c.holding ≡ false
      → IsPermitted cfg s
      → IsPermitted cfg (wait_round cfg l lane c s)
  unfolding wait_round
  wait_round-Permitted s here idle ok =
      let deadline = c.ticket.deadline_at in
      let d = c.ticket.delivery in
      let same = lanes-acquire cfg deadline d s in
      after_round-Permitted (acquire cfg deadline d s).0 (acquire cfg deadline d s).1 (rw same here)
        idle (rw same (acquire-Permitted cfg s.lanes deadline d s ok))

  begin-Permitted :
      (s : State) (was_expired : Bool)
      → get l s.lanes ≡ some lane
      → c.holding ≡ false
      → IsPermitted cfg s
      → IsPermitted cfg (begin cfg l lane c was_expired s)
  unfolding begin expire fail
  begin-Permitted s true here idle ok = idle_finish-Permitted s here idle ok
  begin-Permitted s false here idle ok =
      if_cases (IsPermitted cfg) (leb c.ticket.deadline_at s.clock) _ _
        (λ late. idle_finish-Permitted (expire c.ticket _ s) here idle ok)
        (λ early.
          let same = lanes-ensure_permits cfg c.ticket.delivery s in
          wait_round-Permitted (ensure_permits cfg c.ticket.delivery s) (rw same here) idle
            (rw same (ensure_permits-Permitted cfg s.lanes c.ticket.delivery s ok)))

take_head-Permitted :
    (cfg : Config) (l : String) (lane : Lane) (q : List (String × Ticket)) (s : State)
    → get l s.lanes ≡ some lane
    → lane.current ≡ none
    → lane.queue ≡ q
    → IsPermitted cfg s
    → IsPermitted cfg (take_head cfg l q s)
unfolding take_head
take_head-Permitted cfg l lane [] s here idle e ok = ok
take_head-Permitted cfg l lane ((k, t) ∷ rest) s here idle e ok =
    begin-Permitted cfg l busy c refl (cancel_monitor k t moved).0 (cancel_monitor k t moved).1
      (rw (lanes-cancel_monitor k t moved) (get-put_self l busy s.lanes)) refl
      (rw (lanes-cancel_monitor k t moved) (
        PermittedWith-same cfg moved.lanes moved (cancel_monitor k t moved).0
          (cancel_monitor_same k t moved)
          (Permitted-lanes cfg moved.lanes s
            (λ p. ground (arith, sum-put (λ l lane. at_work p lane.current) l busy s.lanes)) ok)))
  where
    c : Current
    c = record { key = k; ticket = t; holding = false }

    busy : Lane
    busy = record { queue = rest; current = some c; ran = true }

    moved : State
    moved = record s { lanes = put l busy s.lanes }

pub lane_step-Permitted :
    (cfg : Config) (l : String) (s : State)
    → IsPermitted cfg s
    → IsPermitted cfg (lane_step cfg l s)
lane_step-Permitted cfg l s ok =
    lane_cases (IsPermitted cfg) cfg l s ok
      (λ lane here idle. take_head-Permitted cfg l lane lane.queue s here idle refl ok)
      (λ lane c here busy idle. wait_round-Permitted cfg l lane c busy s here idle ok)

pub runner_ends-Permitted :
    (cfg : Config) (l : String) (how : RunnerEnd) (s : State)
    → IsPermitted cfg s
    → IsPermitted cfg (runner_ends cfg l how s)
runner_ends-Permitted cfg l how s ok =
    runner_cases (IsPermitted cfg) cfg l s ok how λ lane c here busy holding.
      let s' = settle_run c.ticket how s in
      let same = settle_run_same c.ticket how s in
      holder_finish-Permitted cfg l lane c busy s' s.lanes
        (λ p. rw same.lanes (ground (arith, running-rest_of p l lane lane.queue s.lanes here)))
        (PermittedWith-same cfg s.lanes s s' same ok)
