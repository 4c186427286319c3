-- ===== src/Harness/Admission/Balance/Closing.antt =====
-- harness/admission.py: cancelling the observers and the lanes keeps the accounting.
use ach_agent.Base.{
  true, ◌∙◌, ℕ, ◌+◌, String, ◌≡◌, refl, ◌&&◌, Option, none, some, List, [], ◌∷◌, arith, bit, ◌==◌,
  ==_iff, ==_refl, nat_eq, string_eq, if◌then◌else◌, inl, inr, Option-cases, if_cases, elem,
}
use ach_agent.Base.Dict.{Dict, has, get, put, remove, empty, get-remove, sum-put, sum-remove}
use ach_agent.Harness.Admission.State.{
  Failure, State, Config, Ticket, RecoveredRun, Current, Lane, admission_cancelled,
}
use ach_agent.Harness.Admission.Ledger.{fail, cancel_monitor, retire, release_capacity_once}
use ach_agent.Harness.Admission.Permits.{give_back}
use ach_agent.Harness.Admission.Close.{
  close_run, cancel_observer, cancel_observers, drain, cause, cancel_current, give_back_held,
  cancel_lane, cancel_lanes,
}
use ach_agent.Harness.Admission.Balance.{
  Balanced, IsBalanced, in_lanes, in_lane, Balanced-lanes, Balanced-release, held_is_waiting,
}
use ach_agent.Harness.Admission.Balance.Lanes.{give_back_same, owns_of}
use ach_agent.Harness.Admission.Balance.Observers.{release_run-Balanced}

pub close_run-Balanced :
    (k : String) (run : RecoveredRun) (s : State)
    → get k s.recovered ≡ some run
    → IsBalanced s
    → IsBalanced (close_run k run s)
unfolding close_run
close_run-Balanced k run s e b =
    if_cases IsBalanced (has k s.released) s _ (λ _. b)
      (λ _. release_run-Balanced k _ (ground arith) b)

cancel_observer-Balanced :
    (k : String) (s : State) → IsBalanced s → IsBalanced (cancel_observer k s)
unfolding cancel_observer
cancel_observer-Balanced k s b = elim (Option-cases (get k s.recovered)) [
  | inl e ↦ rw (e, cancel_observer) b
  | inr (run, e) ↦
      rw (e, cancel_observer)
        (close_run-Balanced k run (record s { recovery_tasks = remove k s.recovery_tasks }) e b)
]

pub cancel_observers-Balanced :
    (ks : List String) (s : State) → IsBalanced s → IsBalanced (cancel_observers ks s)
unfolding cancel_observers
cancel_observers-Balanced [] s b = b
cancel_observers-Balanced (k ∷ ks) s b =
    cancel_observers-Balanced ks (cancel_observer k s) (cancel_observer-Balanced k s b)

abbrev idle_lane : List (String × Ticket) → Lane
idle_lane q = record { queue = q; current = none; ran = true }

-- The accounting with the lanes of `L`, whatever the state's own lanes are.
abbrev BalancedWith : Dict String Lane → State → Type 0
BalancedWith L s = Balanced s.tickets s.recovered s.released s.queued_total L

-- Retiring what leaves the lanes.
retire-Balanced :
    (k : String) (t : Ticket) (s : State) (L L' : Dict String Lane)
    → ((j : String) (m : ℕ) → in_lanes j m L' + bit (k == j && t.serial == m) ≡ in_lanes j m L)
    → BalancedWith L s
    → BalancedWith L' (retire k t s)
unfolding retire cancel_monitor release_capacity_once
retire-Balanced k t s L L' h b =
    let (own, fresh) =
      held_is_waiting b k t.serial (ground (arith, h k t.serial, ==_refl k, ==_refl t.serial)) in
    rw (owns_of k t s own, fresh) (Balanced-release b k t.serial L' own fresh h)

module _ (l : String) (L : Dict String Lane) where
  drain-Balanced :
      (why : Failure) (q : List (String × Ticket)) (s : State)
      → BalancedWith (put l (idle_lane q) L) s
      → BalancedWith (put l (idle_lane []) L) (drain why q s)
  unfolding drain fail
  drain-Balanced why [] s b = b
  drain-Balanced why ((k, t) ∷ rest) s b = drain-Balanced why rest (retire k t (fail t _ s)) (
      retire-Balanced k t (fail t _ s) (put l (idle_lane ((k, t) ∷ rest)) L)
        (put l (idle_lane rest) L)
        (λ j m. ground (
          arith,
          sum-put (λ l lane. in_lane j m lane) l (idle_lane ((k, t) ∷ rest)) L,
          sum-put (λ l lane. in_lane j m lane) l (idle_lane rest) L,
        ))
        b)

  held-Balanced :
      (cfg : Config) (c : Current) (s : State)
      → BalancedWith L s
      → BalancedWith L (give_back_held cfg c s)
  unfolding give_back_held
  held-Balanced cfg c s b =
      let e = give_back_same cfg c.ticket s in
      if_cases (BalancedWith L) c.holding (give_back cfg c.ticket.delivery s) s
        (λ _. rw (e.tickets, e.recovered, e.released, e.queued_total) b) (λ _. b)

  cancel_current-Balanced :
      (cfg : Config) (lane : Lane) (o : Option Current) (s : State)
      → get l L ≡ some lane
      → lane.current ≡ o
      → BalancedWith L s
      → BalancedWith (put l (idle_lane lane.queue) L) (cancel_current cfg o s)
  unfolding cancel_current fail
  cancel_current-Balanced cfg lane none s here idle b =
      Balanced-lanes b _
        (λ j m. ground (arith, sum-put (λ l lane. in_lane j m lane) l (idle_lane lane.queue) L))
  cancel_current-Balanced cfg lane (some c) s here busy b =
      retire-Balanced c.key c.ticket (fail c.ticket admission_cancelled (give_back_held cfg c s)) L
        (put l (idle_lane lane.queue) L)
        (λ j m. ground (arith, sum-put (λ l lane. in_lane j m lane) l (idle_lane lane.queue) L))
        (held-Balanced cfg c s b)

-- Neither touches the table of lanes.
lanes-drain :
    (why : Failure) (q : List (String × Ticket)) (s : State) → (drain why q s).lanes ≡ s.lanes
unfolding drain fail retire cancel_monitor release_capacity_once
lanes-drain why [] s = refl
lanes-drain why ((k, t) ∷ rest) s = ground (arith, lanes-drain why rest (retire k t (fail t why s)))

lanes-cancel_current :
    (cfg : Config) (o : Option Current) (s : State) → (cancel_current cfg o s).lanes ≡ s.lanes
unfolding cancel_current give_back_held fail retire cancel_monitor release_capacity_once
lanes-cancel_current cfg none s = refl
lanes-cancel_current cfg (some c) s = ground (arith, (give_back_same cfg c.ticket s).lanes)

cancel_lane-Balanced :
    (cfg : Config) (l : String) (s : State) → IsBalanced s → IsBalanced (cancel_lane cfg l s)
unfolding cancel_lane
cancel_lane-Balanced cfg l s b = elim (Option-cases (get l s.lanes)) [
  | inl e ↦ rw (e, cancel_lane) b
  | inr (lane, e) ↦
      let s₁ = cancel_current cfg lane.current s in
      let s₂ = drain (cause lane.ran) lane.queue s₁ in
      let same =
        lanes-drain (cause lane.ran) lane.queue s₁ ∙ lanes-cancel_current cfg lane.current s in
      let empty_lane : IsBalanced (record s₂ { lanes = put l (idle_lane []) s.lanes }) =
        drain-Balanced l s.lanes (cause lane.ran) lane.queue s₁
          (cancel_current-Balanced l s.lanes cfg lane lane.current s e refl b) in
      rw (e, cancel_lane)
        (rw same (
          Balanced-lanes empty_lane (remove l s.lanes) (λ j m. ground (
            arith,
            sum-remove (λ l lane. in_lane j m lane) l s.lanes,
            sum-put (λ l lane. in_lane j m lane) l (idle_lane []) s.lanes,
          ))))
]

lanes-cancel_lane :
    (cfg : Config) (l : String) (s : State) (j : String)
    → get j (cancel_lane cfg l s).lanes ≡ (if l == j then none else get j s.lanes)
unfolding cancel_lane
lanes-cancel_lane cfg l s j = elim (Option-cases (get l s.lanes)) [
  | inl e ↦ rw (e, cancel_lane) (ground (arith, ==_iff l j))
  | inr (lane, e) ↦
      let s₁ = cancel_current cfg lane.current s in
      rw (e, cancel_lane)
        (rw (lanes-drain (cause lane.ran) lane.queue s₁ ∙ lanes-cancel_current cfg lane.current s)
          (get-remove l j s.lanes))
]

pub lanes-cancel_lanes :
    (cfg : Config) (ls : List String) (s : State) (j : String)
    → get j (cancel_lanes cfg ls s).lanes ≡ (if elem j ls then none else get j s.lanes)
unfolding cancel_lanes elem
lanes-cancel_lanes cfg [] s j = refl
lanes-cancel_lanes cfg (l ∷ ls) s j =
    ground (arith, lanes-cancel_lanes cfg ls (cancel_lane cfg l s) j, lanes-cancel_lane cfg l s j)

pub cancel_lanes-Balanced :
    (cfg : Config) (ls : List String) (s : State)
    → IsBalanced s
    → IsBalanced (cancel_lanes cfg ls s)
unfolding cancel_lanes
cancel_lanes-Balanced cfg [] s b = b
cancel_lanes-Balanced cfg (l ∷ ls) s b =
    cancel_lanes-Balanced cfg ls (cancel_lane cfg l s) (cancel_lane-Balanced cfg l s b)

closed-cancel_observers : (ks : List String) (s : State) → (cancel_observers ks s).closed ≡ s.closed
unfolding cancel_observers cancel_observer close_run release_capacity_once
closed-cancel_observers [] s = refl
closed-cancel_observers (k ∷ ks) s =
    ground (arith, closed-cancel_observers ks (cancel_observer k s))

closed-drain :
    (why : Failure) (q : List (String × Ticket)) (s : State) → (drain why q s).closed ≡ s.closed
unfolding drain fail retire cancel_monitor release_capacity_once
closed-drain why [] s = refl
closed-drain why ((k, t) ∷ rest) s =
    ground (arith, closed-drain why rest (retire k t (fail t why s)))

closed-give_back :
    (cfg : Config) (c : Current) (s : State) → (give_back_held cfg c s).closed ≡ s.closed
unfolding give_back_held give_back
closed-give_back cfg c s = ground arith

closed-cancel_current :
    (cfg : Config) (o : Option Current) (s : State) → (cancel_current cfg o s).closed ≡ s.closed
unfolding cancel_current fail retire cancel_monitor release_capacity_once
closed-cancel_current cfg none s = refl
closed-cancel_current cfg (some c) s = ground (arith, closed-give_back cfg c s)

closed-cancel_lane :
    (cfg : Config) (l : String) (s : State) → (cancel_lane cfg l s).closed ≡ s.closed
unfolding cancel_lane
closed-cancel_lane cfg l s = elim (Option-cases (get l s.lanes)) [
  | inl e ↦ rw (e, cancel_lane)
  | inr (lane, e) ↦
      rw (e, cancel_lane)
        (closed-drain (cause lane.ran) lane.queue (cancel_current cfg lane.current s)
          ∙ closed-cancel_current cfg lane.current s)
]

closed-cancel_lanes :
    (cfg : Config) (ls : List String) (s : State) → (cancel_lanes cfg ls s).closed ≡ s.closed
unfolding cancel_lanes
closed-cancel_lanes cfg [] s = refl
closed-cancel_lanes cfg (l ∷ ls) s =
    closed-cancel_lanes cfg ls (cancel_lane cfg l s) ∙ closed-cancel_lane cfg l s

-- The object stays closed.
pub closed_stays :
    (cfg : Config) (ks ls : List String) (s : State)
    → (cancel_lanes cfg ls (record (cancel_observers ks s) { recovery_tasks = empty })).closed
      ≡ s.closed
closed_stays cfg ks ls s =
    closed-cancel_lanes cfg ls (record (cancel_observers ks s) { recovery_tasks = empty })
    ∙ closed-cancel_observers ks s
