-- ===== src/Harness/Admission/Balance/Lanes.antt =====
-- harness/admission.py: the steps of the lanes keep the accounting of the ledger.
use ach_agent.Base.{
  leb, ℕ, ◌+◌, ◌≤◌, String, ◌≡◌, refl, Bool, true, false, ◌&&◌, none, some, List, [], ◌∷◌, arith,
  bit, ◌==◌, ==_refl, nat_eq, string_eq, Bool-cases, inl, inr,
}
use ach_agent.Base.Dict.{Dict, get, put, remove, get-put_self}
use ach_agent.Harness.Admission.State.{State, Config, Ticket, Current, Lane}
use ach_agent.Harness.Admission.Ledger.{expire, cancel_monitor, owns, retire, release_capacity_once}
use ach_agent.Harness.Admission.Permits.{
  Round, expired, again, taken, ensure_permits, acquire, acquire_all, acquire_script, give_back,
}
use ach_agent.Harness.Admission.Tasks.{
  next_or_end, finish, after_round, wait_round, begin, take_head, lane_step, RunnerEnd, settle_run,
  too_late, runner_ends,
}
use ach_agent.Harness.Admission.Cases.{lane_cases, runner_cases}
use ach_agent.Harness.Admission.Balance.{
  SameLedger, IsBalanced-same, Balanced, IsBalanced, in_lanes, in_lane, in_queue, is_ticket,
  Balanced-lanes, Balanced-release, held_is_waiting, in_lanes-put, in_lanes-remove, in_lane-le,
}

-- The lanes behind an entry.
abbrev pub rest_of : String → List (String × Ticket) → Dict String Lane → Dict String Lane
rest_of l [] L = remove l L
rest_of l (e ∷ q) L = put l (record { queue = e ∷ q; current = none; ran = true }) L

in_lanes-rest_of :
    (k : String) (n : ℕ) (l : String) (lane : Lane) (q : List (String × Ticket))
    (L : Dict String Lane)
    → get l L ≡ some lane
    → in_lanes k n (rest_of l q L) + in_lane k n lane ≡ in_lanes k n L + in_queue k n q
in_lanes-rest_of k n l lane [] L h = ground (arith, in_lanes-remove k n l lane L h)
in_lanes-rest_of k n l lane (e ∷ q) L h =
    ground
      (arith, in_lanes-put k n l lane (record { queue = e ∷ q; current = none; ran = true }) L h)

lanes-next_or_end :
    (l : String) (q : List (String × Ticket)) (s : State)
    → (next_or_end l q s).lanes ≡ rest_of l q s.lanes
unfolding next_or_end
lanes-next_or_end l [] s = refl
lanes-next_or_end l (e ∷ q) s = refl

next_or_end-Balanced :
    (l : String) (q : List (String × Ticket)) (s : State)
    → Balanced s.tickets s.recovered s.released s.queued_total (rest_of l q s.lanes)
    → IsBalanced (next_or_end l q s)
unfolding next_or_end
next_or_end-Balanced l [] s h = h
next_or_end-Balanced l (e ∷ q) s h = h

-- `_cancel_monitor` leaves the accounting alone.
pub cancel_monitor-Balanced :
    (k : String) (t : Ticket) (s : State) (L : Dict String Lane)
    → Balanced s.tickets s.recovered s.released s.queued_total L
    → let s' = (cancel_monitor k t s).0 in
      Balanced s'.tickets s'.recovered s'.released s'.queued_total L
unfolding cancel_monitor
cancel_monitor-Balanced k t s L h = elim (Bool-cases (owns k t s)) [
  | inl e ↦ rw e h
  | inr e ↦ rw e h
]

pub owns_of :
    (k : String) (t : Ticket) (s : State)
    → is_ticket t.serial (get k s.tickets) ≡ true
    → owns k t s ≡ true
unfolding owns
owns_of k t s h = ground arith

module _ (l : String) (lane : Lane) (c : Current) (s : State) (here : get l s.lanes ≡ some lane)
    (busy : lane.current ≡ some c) where
  current_is_held : 1 ≤ in_lanes c.key c.ticket.serial s.lanes
  current_is_held = ground (
    arith,
    in_lane-le c.key c.ticket.serial l lane s.lanes here,
    ==_refl c.key,
    ==_refl c.ticket.serial,
  )

  rest_leaves_one :
      (j : String) (m : ℕ)
      → in_lanes j m (rest_of l lane.queue s.lanes) + bit (c.key == j && c.ticket.serial == m)
        ≡ in_lanes j m s.lanes
  rest_leaves_one j m = ground (arith, in_lanes-rest_of j m l lane lane.queue s.lanes here)

  -- A lane is done with its entry: one ticket leaves the lanes and is released.
  pub finish-Balanced : IsBalanced s → IsBalanced (finish l lane c s)
  unfolding finish retire cancel_monitor release_capacity_once
  finish-Balanced b =
      let (t, fresh) = held_is_waiting b c.key c.ticket.serial current_is_held in
      next_or_end-Balanced l lane.queue (retire c.key c.ticket s) (
        rw (owns_of c.key c.ticket s t, fresh)
          (Balanced-release b c.key c.ticket.serial (rest_of l lane.queue s.lanes) t fresh
            rest_leaves_one))

pub acquire_same :
    (cfg : Config) (t : Ticket) (s : State)
    → SameLedger s (acquire cfg t.deadline_at t.delivery s).0
unfolding acquire acquire_all acquire_script
acquire_same cfg t s = ground arith

pub give_back_same :
    (cfg : Config) (t : Ticket) (s : State) → SameLedger s (give_back cfg t.delivery s)
unfolding give_back
give_back_same cfg t s = ground arith

pub ensure_permits_same :
    (cfg : Config) (t : Ticket) (s : State) → SameLedger s (ensure_permits cfg t.delivery s)
unfolding ensure_permits
ensure_permits_same cfg t s = ground arith

pub settle_run_same : (t : Ticket) (how : RunnerEnd) (s : State) → SameLedger s (settle_run t how s)
unfolding settle_run
settle_run_same t how s = ground arith

module _ (cfg : Config) (l : String) (lane : Lane) (c : Current)
    (busy : lane.current ≡ some c) where
  -- The permits go back and the lane is done.
  finish-give_back-Balanced :
      (s : State)
      → get l s.lanes ≡ some lane
      → IsBalanced s
      → IsBalanced (finish l lane c (give_back cfg c.ticket.delivery s))
  finish-give_back-Balanced s here b =
      let e = give_back_same cfg c.ticket s in
      finish-Balanced l lane c (give_back cfg c.ticket.delivery s) (rw e.lanes here) busy
        (IsBalanced-same s (give_back cfg c.ticket.delivery s) e b)

  after_round-Balanced :
      (s : State) (r : Round)
      → get l s.lanes ≡ some lane
      → IsBalanced s
      → IsBalanced (after_round cfg l lane c s r)
  unfolding after_round expire
  after_round-Balanced s expired here b = finish-Balanced l lane c (expire c.ticket _ s) here busy b
  after_round-Balanced s again here b = b
  after_round-Balanced s taken here b = elim (Bool-cases (leb c.ticket.deadline_at s.clock)) [
    | inl late ↦ rw late (finish-give_back-Balanced (expire c.ticket (too_late c.ticket) s) here b)
    | inr early ↦ rw early (
        Balanced-lanes b _ λ k n. ground (
          arith,
          in_lanes-put k n l lane
              (record {
                queue = lane.queue;
                current = some (record c { holding = true });
                ran = true;
              })
              s.lanes here,
        ))
  ]

  wait_round-Balanced :
      (s : State)
      → get l s.lanes ≡ some lane
      → IsBalanced s
      → IsBalanced (wait_round cfg l lane c s)
  unfolding wait_round
  wait_round-Balanced s here b =
      let e = acquire_same cfg c.ticket s in
      after_round-Balanced (acquire cfg c.ticket.deadline_at c.ticket.delivery s).0
        (acquire cfg c.ticket.deadline_at c.ticket.delivery s).1 (rw e.lanes here)
        (IsBalanced-same s (acquire cfg c.ticket.deadline_at c.ticket.delivery s).0 e b)

  begin-Balanced :
      (s : State) (was_expired : Bool)
      → get l s.lanes ≡ some lane
      → IsBalanced s
      → IsBalanced (begin cfg l lane c was_expired s)
  unfolding begin expire
  begin-Balanced s true here b = finish-Balanced l lane c s here busy b
  begin-Balanced s false here b = elim (Bool-cases (leb c.ticket.deadline_at s.clock)) [
    | inl late ↦ rw late (
        finish-Balanced l lane c (expire c.ticket "deadline exceeded before permit wait" s) here
          busy b)
    | inr early ↦
        let e = ensure_permits_same cfg c.ticket s in
        rw early (
          wait_round-Balanced (ensure_permits cfg c.ticket.delivery s) (rw e.lanes here)
            (IsBalanced-same s (ensure_permits cfg c.ticket.delivery s) e b))
  ]

pub lanes-cancel_monitor :
    (k : String) (t : Ticket) (s : State) → (cancel_monitor k t s).0.lanes ≡ s.lanes
unfolding cancel_monitor
lanes-cancel_monitor k t s = ground arith

take_head-Balanced :
    (cfg : Config) (l : String) (lane : Lane) (q : List (String × Ticket)) (s : State)
    → get l s.lanes ≡ some lane
    → lane.current ≡ none
    → lane.queue ≡ q
    → IsBalanced s
    → IsBalanced (take_head cfg l q s)
unfolding take_head
take_head-Balanced cfg l lane [] s here idle e b = b
take_head-Balanced cfg l lane ((k, t) ∷ rest) s here idle e b =
    begin-Balanced cfg l busy c refl (cancel_monitor k t moved).0 (cancel_monitor k t moved).1
      (rw (lanes-cancel_monitor k t moved) (get-put_self l busy s.lanes))
      (rw (lanes-cancel_monitor k t moved) (
        cancel_monitor-Balanced k t moved moved.lanes (
          Balanced-lanes b moved.lanes
            (λ j m. ground (arith, in_lanes-put j m l lane busy s.lanes here)))))
  where
    c : Current
    c = record { key = k; ticket = t; holding = false }

    busy : Lane
    busy = record { queue = rest; current = some c; ran = true }

    moved : State
    moved = record s { lanes = put l busy s.lanes }

-- A lane's task keeps the accounting.
pub lane_step-Balanced :
    (cfg : Config) (l : String) (s : State) → IsBalanced s → IsBalanced (lane_step cfg l s)
lane_step-Balanced cfg l s b =
    lane_cases IsBalanced cfg l s b
      (λ lane here idle. take_head-Balanced cfg l lane lane.queue s here idle refl b)
      (λ lane c here busy _. wait_round-Balanced cfg l lane c busy s here b)

-- So does the end of a runner.
pub runner_ends-Balanced :
    (cfg : Config) (l : String) (how : RunnerEnd) (s : State)
    → IsBalanced s
    → IsBalanced (runner_ends cfg l how s)
runner_ends-Balanced cfg l how s b = runner_cases IsBalanced cfg l s b how λ lane c here busy _.
    let same = settle_run_same c.ticket how s in
    finish-give_back-Balanced cfg l lane c busy (settle_run c.ticket how s) (rw same.lanes here)
      (IsBalanced-same s (settle_run c.ticket how s) same b)
