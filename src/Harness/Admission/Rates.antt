-- ===== src/Harness/Admission/Rates.antt =====
-- harness/admission.py: `_check_rate` against the admissions of the last hour.
use ach_agent.Base.{
  ℕ, ◌+◌, ◌<◌, ◌≤◌, Bool, true, false, List, [], ◌∷◌, ◌≡◌, ◌↔◌, refl, arith, leb, ◌==◌, ==_iff,
  if◌then◌else◌, Bool-cases, inl, inr, bit, not, if_cases,
}
use ach_agent.Base.Dict.{put, get-put}
use ach_agent.Harness.Admission.State.{State, RateKey, rate_key_eq, rate_window}
use ach_agent.Harness.Admission.Admit.{Result, ok, drop_old, admits_at, count, check_windows}

-- The admissions of the last hour.
abbrev pub recent : ℕ → List ℕ → ℕ
recent now [] = 0
recent now (a ∷ rest) = bit (not (leb (a + rate_window) now)) + recent now rest

abbrev pub AllFrom : ℕ → List ℕ → Type 0
AllFrom a [] = Unit
AllFrom a (b ∷ rest) = (a ≤ b) × AllFrom a rest

-- Times in the order in which they were read.
abbrev pub InOrder : List ℕ → Type 0
InOrder [] = Unit
InOrder (a ∷ rest) = AllFrom a rest × InOrder rest

-- Every window has fewer recent admissions than its cap.
abbrev pub Roomy : ℕ → State → List (RateKey × ℕ) → Type 0
Roomy now s [] = Unit
Roomy now s ((k, most) ∷ checks) = (recent now (admits_at k s) < most) × Roomy now s checks

recent-drop_old : (now : ℕ) (admits : List ℕ) → recent now (drop_old now admits) ≡ recent now admits
unfolding drop_old
recent-drop_old now [] = refl
recent-drop_old now (a ∷ rest) = ground (arith, recent-drop_old now rest)

drop_old-InOrder : (now : ℕ) (admits : List ℕ) → InOrder admits → InOrder (drop_old now admits)
unfolding drop_old
drop_old-InOrder now [] h = tt
drop_old-InOrder now (a ∷ rest) h = elim (Bool-cases (leb (a + rate_window) now)) [
  | inl old ↦ rw old (drop_old-InOrder now rest h.1)
  | inr new ↦ rw new h
]

-- From an admission within the hour on, all are.
all_recent :
    (now a : ℕ) (rest : List ℕ)
    → leb (a + rate_window) now ≡ false
    → AllFrom a rest
    → count rest ≡ recent now rest
all_recent now a [] new h = refl
all_recent now a (b ∷ rest) new h = ground (arith, all_recent now a rest new h.1, new, h.0)

count-drop_old :
    (now : ℕ) (admits : List ℕ) → InOrder admits → count (drop_old now admits) ≡ recent now admits
unfolding drop_old
count-drop_old now [] h = refl
count-drop_old now (a ∷ rest) h = elim (Bool-cases (leb (a + rate_window) now)) [
  | inl old ↦ ground (arith, old, count-drop_old now rest h.1)
  | inr new ↦ ground (arith, new, all_recent now a rest new h.0)
]

-- The windows of a state are in order.
abbrev pub WindowsInOrder : State → Type 0
WindowsInOrder s = (k : RateKey) → InOrder (admits_at k s)

trimmed : RateKey → State → State
trimmed k s = record s { rate_admits = put k (drop_old s.clock (admits_at k s)) s.rate_admits }

admits_at-trimmed :
    (k j : RateKey) (s : State)
    → admits_at j (trimmed k s)
      ≡ (if k == j then drop_old s.clock (admits_at k s) else admits_at j s)
unfolding trimmed
admits_at-trimmed k j s =
    ground (arith, get-put k j (drop_old s.clock (admits_at k s)) s.rate_admits)

recent-trimmed :
    (k j : RateKey) (s : State)
    → recent s.clock (admits_at j (trimmed k s)) ≡ recent s.clock (admits_at j s)
recent-trimmed k j s = elim (Bool-cases (k == j)) [
  | inl e ↦
      ground
        (arith, admits_at-trimmed k j s, e, ==_iff k j, recent-drop_old s.clock (admits_at k s))
  | inr e ↦ ground (arith, admits_at-trimmed k j s, e)
]

trimmed-WindowsInOrder : (k : RateKey) (s : State) → WindowsInOrder s → WindowsInOrder (trimmed k s)
trimmed-WindowsInOrder k s h j = rw (admits_at-trimmed k j s) (by_key (k == j))
  where
    by_key : (b : Bool) → InOrder (if b then drop_old s.clock (admits_at k s) else admits_at j s)
    by_key true = drop_old-InOrder s.clock (admits_at k s) (h k)
    by_key false = h j

Roomy-trimmed :
    (k : RateKey) (s : State) (checks : List (RateKey × ℕ))
    → Roomy s.clock (trimmed k s) checks ↔ Roomy s.clock s checks
Roomy-trimmed k s [] = ((λ r. r), (λ r. r))
Roomy-trimmed k s ((j, most) ∷ checks) = (
  (λ r. (ground (arith, r.0, recent-trimmed k j s), (Roomy-trimmed k s checks).0 r.1)),
  (λ r. (ground (arith, r.0, recent-trimmed k j s), (Roomy-trimmed k s checks).1 r.1)),
)

-- A delivery passes the rate limits exactly if each of its windows has fewer admissions within the
-- last hour than its cap, where the times of each window are in order.
pub check_windows-Roomy :
    (checks : List (RateKey × ℕ)) (s : State)
    → WindowsInOrder s
    → ((check_windows checks s).1 ≡ ok tt) ↔ Roomy s.clock s checks
unfolding check_windows trimmed
check_windows-Roomy [] s h = ((λ _. tt), (λ _. refl))
check_windows-Roomy ((k, most) ∷ checks) s h =
    let later = check_windows-Roomy checks (trimmed k s) (trimmed-WindowsInOrder k s h) in
    if_cases Passes (leb most (count (drop_old s.clock (admits_at k s)))) _ _
      (λ full. (
        (λ e. absurd (ground (arith, e))),
        (λ r. absurd (ground (arith, full, r.0, count-drop_old s.clock (admits_at k s) (h k)))),
      ))
      (λ room. (
        (λ e. (
          ground (arith, room, count-drop_old s.clock (admits_at k s) (h k)),
          (Roomy-trimmed k s checks).0 (later.0 e),
        )),
        (λ r. later.1 ((Roomy-trimmed k s checks).1 r.1)),
      ))
  where
    Passes : State × Result (Unit {0}) → Type 0
    Passes (s', answer) = (answer ≡ ok tt) ↔ Roomy s.clock s ((k, most) ∷ checks)
