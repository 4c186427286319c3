-- ===== src/Storage/Archive/Whole.antt =====
-- storage/archive.py: the archives that `_MemberCheck` accepts.
use mathlib.Core.Path.{subst}
use ach_agent.Base.{
  ℕ, zero, suc, ◌+◌, ◌≤◌, false, Option, none, some, List, [], ◌∷◌, ◌≡◌, ◌↔◌, refl, arith, nat_eq,
}
use ach_agent.Base.Integers.{ℤ, pos, negsuc, pos_part, neg_part, ◌+ℤ◌, exceeds, +ℤ_parts}
use ach_agent.Base.Lists.{length, take, sum_of}
use ach_agent.Storage.Archive.{Member, Refusal, MemberCheck, expand, check, stop_at, check_all}
use ach_agent.Storage.Archive.Safe.{Safe, refusal_of, refusal_of-Safe}

abbrev pub AllSafe : List Member → Type 0
AllSafe [] = Unit
AllSafe (m ∷ ms) = Safe m × AllSafe ms

-- What the members add to the total, and what they take from it.
abbrev pub gains : List Member → ℕ
gains ms = sum_of (λ m. pos_part m.size) ms

abbrev pub losses : List Member → ℕ
losses ms = sum_of (λ m. neg_part m.size) ms

-- The members fit what is left of the limits, the expanded bytes at each of them, and each is safe.
pub record Fits (ms : List Member) (c : MemberCheck) : Type 0 where
  pub count : c.count + length ms ≤ c.max_members
  pub size :
      (i : ℕ)
      → pos_part c.total_size + gains (take i ms)
        ≤ c.max_expanded_bytes + (neg_part c.total_size + losses (take i ms))
  pub safe : AllSafe ms

within : (cap : ℕ) (z : ℤ) → exceeds cap z ≡ false → pos_part z ≤ cap + neg_part z
within cap (pos n) h = ground (arith, h)
within cap (negsuc n) h = omega arith

under : (cap : ℕ) (z : ℤ) → pos_part z + 0 ≤ cap + (neg_part z + 0) → exceeds cap z ≡ false
under cap (pos n) h = ground (arith, h)
under cap (negsuc n) h = refl

size-nothing :
    (cap : ℕ) (z : ℤ)
    → exceeds cap z ≡ false
    → (i : ℕ) → pos_part z + gains (take i []) ≤ cap + (neg_part z + losses (take i []))
size-nothing cap z h zero = omega (arith, within cap z h)
size-nothing cap z h (suc i) = omega (arith, within cap z h)

module _ (m : Member) (ms : List Member) (c : MemberCheck) where
  size-before :
      ((i : ℕ)
        → pos_part c.total_size + gains (take i (m ∷ ms))
          ≤ c.max_expanded_bytes + (neg_part c.total_size + losses (take i (m ∷ ms))))
      → (i : ℕ)
      → pos_part (c.total_size +ℤ m.size) + gains (take i ms)
        ≤ c.max_expanded_bytes + (neg_part (c.total_size +ℤ m.size) + losses (take i ms))
  size-before h i = omega (arith, h (suc i), +ℤ_parts c.total_size m.size)

  size-after :
      exceeds c.max_expanded_bytes c.total_size ≡ false
      → ((i : ℕ)
          → pos_part (c.total_size +ℤ m.size) + gains (take i ms)
            ≤ c.max_expanded_bytes + (neg_part (c.total_size +ℤ m.size) + losses (take i ms)))
      → (i : ℕ)
      → pos_part c.total_size + gains (take i (m ∷ ms))
        ≤ c.max_expanded_bytes + (neg_part c.total_size + losses (take i (m ∷ ms)))
  size-after start h zero = omega (arith, within c.max_expanded_bytes c.total_size start)
  size-after start h (suc i) = omega (arith, h i, +ℤ_parts c.total_size m.size)

-- What one accepted member leaves.
after : Member → MemberCheck → MemberCheck
after m c = record c { count = c.count + 1; total_size = c.total_size +ℤ m.size }

check-accepts :
    (m : Member) (c : MemberCheck)
    → c.count + 1 ≤ c.max_members
    → exceeds c.max_expanded_bytes (c.total_size +ℤ m.size) ≡ false
    → refusal_of m ≡ none
    → check m c ≡ (after m c, none)
unfolding check expand after refusal_of
check-accepts m c few small safe = rw safe (ground (arith, few, small))

record Accepted (m : Member) (c : MemberCheck) : Type 0 where
  few : c.count + 1 ≤ c.max_members
  small : exceeds c.max_expanded_bytes (c.total_size +ℤ m.size) ≡ false
  safe : refusal_of m ≡ none

check-Accepted : (m : Member) (c : MemberCheck) → (check m c).1 ≡ none → Accepted m c
unfolding check expand refusal_of
check-Accepted m c h = ground (arith, h)

stop_at-none :
    (x later : MemberCheck × Option Refusal)
    → (stop_at x later).1 ≡ none
    → (x.1 ≡ none) × (later.1 ≡ none)
stop_at-none (c, none) later h = (refl, h)
stop_at-none (c, some refusal) later h = absurd (ground (arith, h))

module _ (m : Member) (ms : List Member) (c : MemberCheck)
    (later : c.count + 1 ≤ c.max_members
      → exceeds c.max_expanded_bytes (c.total_size +ℤ m.size) ≡ false
      → ((check_all ms (after m c)).1 ≡ none) ↔ Fits ms (after m c)) where
  check_all-Fits_cons :
      exceeds c.max_expanded_bytes c.total_size ≡ false
      → (check_all (m ∷ ms) c).1 ≡ none
      → Fits (m ∷ ms) c
  unfolding check_all after
  check_all-Fits_cons start h =
      let (one, rest) = stop_at-none (check m c) (check_all ms (check m c).0) h in
      let a = check-Accepted m c one in
      let fits =
        (later a.few a.small).0 (
          subst (λ x. (check_all ms x.0).1 ≡ none) (check-accepts m c a.few a.small a.safe) rest) in
      record {
        count = omega (arith, fits.count);
        size = size-after m ms c start fits.size;
        safe = ((refusal_of-Safe m).0 a.safe, fits.safe);
      }

  Fits-check_all_cons : Fits (m ∷ ms) c → (check_all (m ∷ ms) c).1 ≡ none
  unfolding check_all after
  Fits-check_all_cons fits =
      let few : c.count + 1 ≤ c.max_members = omega (arith, fits.count) in
      let small : exceeds c.max_expanded_bytes (c.total_size +ℤ m.size) ≡ false =
        under c.max_expanded_bytes (c.total_size +ℤ m.size) (size-before m ms c fits.size 0) in
      rw (check-accepts m c few small ((refusal_of-Safe m).1 fits.safe.0)) (
        (later few small).1 (record {
          count = omega (arith, fits.count);
          size = size-before m ms c fits.size;
          safe = fits.safe.1;
        }))

-- From a state within its limits, a list of members is accepted exactly if each member is safe, no
-- more of them come than the count leaves, and at each of them the sizes so far, of which a negative one
-- lowers the total, fit what is left of the expansion cap. Safe: short and relative, without "..", of an
-- allowed type, and a link's target stays, at each of its steps, inside the root.
pub check_all-Fits :
    (ms : List Member) (c : MemberCheck)
    → c.count ≤ c.max_members
    → exceeds c.max_expanded_bytes c.total_size ≡ false
    → ((check_all ms c).1 ≡ none) ↔ Fits ms c
unfolding check_all after
check_all-Fits [] c few small = (
  (λ _. record {
    count = omega (arith, few);
    size = size-nothing c.max_expanded_bytes c.total_size small;
    safe = tt;
  }),
  (λ _. refl),
)
check_all-Fits (m ∷ ms) c few small = (
  check_all-Fits_cons m ms c (λ few' small'. check_all-Fits ms (after m c) few' small') small,
  Fits-check_all_cons m ms c (λ few' small'. check_all-Fits ms (after m c) few' small'),
)
