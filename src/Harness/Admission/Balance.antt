-- ===== src/Harness/Admission/Balance.antt =====
-- harness/admission.py: the accounting invariant of the ledger and the lanes, over the fields that
-- it speaks of. Its children show that the steps keep it.
pub mod Lanes
pub mod Arrivals
pub mod Observers
pub mod Sweep
pub mod Closing
pub mod Closed
use ach_agent.Base.{
  ◌∙◌, ℕ, ◌+◌, ◌-◌, ◌≤◌, String, ◌≡◌, refl, Bool, true, false, not, ◌&&◌, ◌||◌, Option, none, some,
  List, [], ◌∷◌, ◌++◌, arith, bit, Eq, ◌==◌, ==_iff, ==_refl, nat_eq, string_eq, if◌then◌else◌,
  Bool-cases, inl, inr,
}
use ach_agent.Base.Dict.{
  Dict, has, get, put, remove, sum, weigh, get-put, get-remove, sum-put, sum-remove, weigh-le-sum,
}
use ach_agent.Harness.Admission.State.{State, Set, Ticket, RecoveredRun, Current, Lane, unreleased}
use ach_agent.Harness.Admission.Unreleased.{
  counts, unreleased-release, unreleased-put, unreleased-forget,
}

-- How often a lane holds a delivery key with the ticket of a serial number.
abbrev pub in_queue : String → ℕ → List (String × Ticket) → ℕ
in_queue k n [] = 0
in_queue k n ((j, t) ∷ rest) = bit (j == k && t.serial == n) + in_queue k n rest

abbrev pub in_current : String → ℕ → Option Current → ℕ
in_current k n none = 0
in_current k n (some c) = bit (c.key == k && c.ticket.serial == n)

abbrev pub in_lane : String → ℕ → Lane → ℕ
in_lane k n lane = in_queue k n lane.queue + in_current k n lane.current

abbrev pub in_lanes : String → ℕ → Dict String Lane → ℕ
in_lanes k n lanes = sum (λ l lane. in_lane k n lane) lanes

abbrev pub is_ticket : ℕ → Option Ticket → Bool
is_ticket n none = false
is_ticket n (some t) = t.serial == n

-- One if the key stands for the ticket of the serial number, and is not released.
abbrev pub waiting : String → ℕ → Dict String Ticket → Set → ℕ
waiting k n tickets released = bit (is_ticket n (get k tickets) && not (has k released))

abbrev pub all_tickets : Ticket → Bool
all_tickets t = true

abbrev pub all_runs : RecoveredRun → Bool
all_runs run = true

pub record Balanced (tickets : Dict String Ticket) (runs : Dict String RecoveredRun)
    (released : Set) (queued : ℕ) (lanes : Dict String Lane) : Type 0 where
  -- `queued_total` is the number of unreleased records,
  pub counted : queued ≡ unreleased all_tickets released tickets + unreleased all_runs released runs
  -- a key has one record at most,
  pub apart : (k : String) → (has k tickets && has k runs) ≡ false
  -- only keys with a record are released,
  pub accounted : (k : String) → has k released ≡ true → (has k tickets || has k runs) ≡ true
  -- and the lanes hold each unreleased ticket once, and nothing else.
  pub placed : (k : String) (n : ℕ) → in_lanes k n lanes ≡ waiting k n tickets released

abbrev pub IsBalanced : State → Type 0
IsBalanced s = Balanced s.tickets s.recovered s.released s.queued_total s.lanes

module _ {T : Dict String Ticket} {R : Dict String RecoveredRun} {S : Set} {q : ℕ}
    {L : Dict String Lane} (b : Balanced T R S q L) where
  -- The lanes may be rearranged.
  pub Balanced-lanes :
      (L' : Dict String Lane)
      → ((k : String) (n : ℕ) → in_lanes k n L' ≡ in_lanes k n L)
      → Balanced T R S q L'
  Balanced-lanes L' h = record {
    counted = b.counted;
    apart = b.apart;
    accounted = b.accounted;
    placed = λ k n. h k n ∙ b.placed k n;
  }

  -- What a lane holds is an unreleased ticket of the ledger.
  pub held_is_waiting :
      (k : String) (n : ℕ) → 1 ≤ in_lanes k n L → (is_ticket n (get k T) ≡ true) × (has k S ≡ false)
  held_is_waiting k n h = ground (arith, b.placed k n)

  -- A ticket leaves the lanes when its key is released.
  pub Balanced-release :
      (k : String) (n : ℕ) (L' : Dict String Lane)
      → is_ticket n (get k T) ≡ true
      → has k S ≡ false
      → ((j : String) (m : ℕ) → in_lanes j m L' + bit (k == j && n == m) ≡ in_lanes j m L)
      → Balanced T R (put k tt S) (q - 1) L'
  Balanced-release k n L' t fresh h = record {
    counted = ground (
      arith,
      b.counted,
      b.apart k,
      unreleased-release all_tickets k S T fresh,
      unreleased-release all_runs k S R fresh,
    );
    apart = b.apart;
    accounted = λ j r. ground (arith, b.accounted j, get-put k j tt S, ==_iff k j);
    placed = λ j m. ground (arith, b.placed j m, h j m, get-put k j tt S, ==_iff k j);
  }

  -- An owned run is released.
  pub Balanced-release_run :
      (k : String) → has k R ≡ true → has k S ≡ false → Balanced T R (put k tt S) (q - 1) L
  Balanced-release_run k r fresh = record {
    counted = ground (
      arith,
      b.counted,
      b.apart k,
      unreleased-release all_tickets k S T fresh,
      unreleased-release all_runs k S R fresh,
    );
    apart = b.apart;
    accounted = λ j h. ground (arith, b.accounted j, get-put k j tt S, ==_iff k j);
    placed = λ j m. ground (arith, b.placed j m, b.apart j, get-put k j tt S, ==_iff k j);
  }

  -- A key without an unreleased record is forgotten.
  pub Balanced-forget :
      (k : String)
      → ((has k T || has k R) && not (has k S)) ≡ false
      → Balanced (remove k T) (remove k R) (remove k S) q L
  Balanced-forget k r = record {
    counted =
        ground
          (arith, b.counted, unreleased-forget all_tickets k S T, unreleased-forget all_runs k S R);
    apart = λ j. ground (arith, b.apart j, get-remove k j T, get-remove k j R);
    accounted =
        λ j h. ground (arith, b.accounted j, get-remove k j T, get-remove k j R, get-remove k j S);
    placed = λ j m. ground (arith, b.placed j m, get-remove k j T, get-remove k j S, ==_iff k j);
  }

  -- A new key enters the ledger and a lane.
  pub Balanced-enqueue :
      (k : String) (t : Ticket) (L' : Dict String Lane)
      → get k T ≡ none
      → get k R ≡ none
      → ((j : String) (m : ℕ) → in_lanes j m L' ≡ in_lanes j m L + bit (k == j && t.serial == m))
      → Balanced (put k t T) R S (q + 1) L'
  Balanced-enqueue k t L' nt nr h = record {
    counted = ground (arith, b.counted, b.accounted k, unreleased-put all_tickets k S T t nt);
    apart = λ j. ground (arith, b.apart j, get-put k j t T, ==_iff k j);
    accounted = λ j r. ground (arith, b.accounted j, get-put k j t T);
    placed = λ j m. ground (arith, b.placed j m, b.accounted k, h j m, get-put k j t T, ==_iff k j);
  }

  -- A recovered run is claimed.
  pub Balanced-claim :
      (k : String) (run : RecoveredRun)
      → get k T ≡ none
      → get k R ≡ none
      → Balanced T (put k run R) S (q + 1) L
  Balanced-claim k run nt nr = record {
    counted = ground (arith, b.counted, b.accounted k, unreleased-put all_runs k S R run nr);
    apart = λ j. ground (arith, b.apart j, get-put k j run R, ==_iff k j);
    accounted = λ j r. ground (arith, b.accounted j, get-put k j run R);
    placed = b.placed;
  }

-- What replaces a lane changes the number of its entries alone.
pub in_lanes-put :
    (k : String) (n : ℕ) (l : String) (lane new : Lane) (L : Dict String Lane)
    → get l L ≡ some lane
    → in_lanes k n (put l new L) + in_lane k n lane ≡ in_lanes k n L + in_lane k n new
in_lanes-put k n l lane new L h = ground (arith, sum-put (λ l lane. in_lane k n lane) l new L)

pub in_lanes-remove :
    (k : String) (n : ℕ) (l : String) (lane : Lane) (L : Dict String Lane)
    → get l L ≡ some lane
    → in_lanes k n (remove l L) + in_lane k n lane ≡ in_lanes k n L
in_lanes-remove k n l lane L h = ground (arith, sum-remove (λ l lane. in_lane k n lane) l L)

pub in_lane-le :
    (k : String) (n : ℕ) (l : String) (lane : Lane) (L : Dict String Lane)
    → get l L ≡ some lane
    → in_lane k n lane ≤ in_lanes k n L
in_lane-le k n l lane L h = ground (arith, weigh-le-sum (λ l lane. in_lane k n lane) l L)

-- Steps that touch only permits, futures, alarms and monitors.
pub record SameLedger (s s' : State) : Type 0 where
  pub tickets : s'.tickets ≡ s.tickets
  pub recovered : s'.recovered ≡ s.recovered
  pub released : s'.released ≡ s.released
  pub queued_total : s'.queued_total ≡ s.queued_total
  pub lanes : s'.lanes ≡ s.lanes

pub IsBalanced-same : (s s' : State) → SameLedger s s' → IsBalanced s → IsBalanced s'
IsBalanced-same s s' e b = rw (e.tickets, e.recovered, e.released, e.queued_total, e.lanes) b
