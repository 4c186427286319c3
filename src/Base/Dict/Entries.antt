-- ===== src/Base/Dict/Entries.antt =====
-- Association lists with distinct keys, the representation of `Dict`.
use mathlib.Core.Path.{◌≡◌, refl, subst}
use Prim.Native.Nat.{ℕ, ◌+◌, ◌≤◌}
use mathlib.Core.Logic.{inl, inr, ◌⊎◌}
use mathlib.Core.Bool.{Bool, true, false}
use mathlib.Core.Option.{Option, none, some}
use mathlib.Core.List.{List, [], ◌∷◌, map}
use native.Mathlib.Omega.{arith}
use ach_agent.Base.Tests.{elem, Eq, ◌==◌, ==_iff, if◌then◌else◌, Bool-cases}

abbrev pub Assoc {κ ℓ} : Type κ → Type ℓ → Type (κ ⊔ ℓ)
Assoc K V = List (K × V)

-- The number that a function gives to the entry at a key, zero where there is none.
abbrev pub weigh {κ ℓ} : {K : Type κ} {V : Type ℓ} → (K → V → ℕ) → K → Option V → ℕ
weigh f k none = 0
weigh f k (some v) = f k v

-- What a test lets through of the entry at a key.
abbrev pub pass {κ ℓ} : {K : Type κ} {V : Type ℓ} → (K → V → Bool) → K → Option V → Option V
pass p k none = none
pass p k (some v) = if p k v then some v else none

module _ {κ ℓ} {K : Type κ} ⦃e : Eq K⦄ {V : Type ℓ} where
  unfoldable pub lookup : K → Assoc K V → Option V
  lookup k [] = none
  lookup k ((j, v) ∷ l) = if j == k then some v else lookup k l

  unfoldable pub without : K → Assoc K V → Assoc K V
  without k [] = []
  without k ((j, v) ∷ l) = let rest = without k l in if j == k then l else (j, v) ∷ rest

  -- A key that is there keeps its place; a new one goes to the end.
  unfoldable pub place : K → V → Assoc K V → Assoc K V
  place k v [] = (k, v) ∷ []
  place k v ((j, w) ∷ l) = let rest = place k v l in if j == k then (j, v) ∷ l else (j, w) ∷ rest

  unfoldable pub total : (K → V → ℕ) → Assoc K V → ℕ
  total f [] = 0
  total f ((k, v) ∷ l) = f k v + total f l

  -- The entries that a test keeps.
  unfoldable pub keep : (K → V → Bool) → Assoc K V → Assoc K V
  keep p [] = []
  keep p ((k, v) ∷ l) = let rest = keep p l in if p k v then (k, v) ∷ rest else rest

  abbrev pub Distinct : Assoc K V → Type ℓ
  Distinct [] = Unit
  Distinct ((k, v) ∷ l) = (lookup k l ≡ none) × Distinct l

  pub lookup-without :
      (k j : K) (l : Assoc K V)
      → Distinct l
      → lookup j (without k l) ≡ (if k == j then none else lookup j l)
  unfolding lookup without
  lookup-without k j [] d = ground arith
  lookup-without k j ((i, v) ∷ l) d =
      ground (arith, lookup-without k j l d.1, ==_iff i k, ==_iff i j, ==_iff k j)

  pub lookup-place :
      (k j : K) (v : V) (l : Assoc K V)
      → lookup j (place k v l) ≡ (if k == j then some v else lookup j l)
  unfolding lookup place
  lookup-place k j v [] = refl
  lookup-place k j v ((i, w) ∷ l) =
      ground (arith, lookup-place k j v l, ==_iff i k, ==_iff i j, ==_iff k j)

  pub without-Distinct : (k : K) (l : Assoc K V) → Distinct l → Distinct (without k l)
  unfolding without
  without-Distinct k [] d = tt
  without-Distinct k ((i, v) ∷ l) d =
      ground (arith, without-Distinct k l d.1, lookup-without k i l d.1)

  pub place-Distinct : (k : K) (v : V) (l : Assoc K V) → Distinct l → Distinct (place k v l)
  unfolding place lookup
  place-Distinct k v [] d = (refl, tt)
  place-Distinct k v ((i, w) ∷ l) d =
      ground (arith, place-Distinct k v l d.1, lookup-place k i v l, ==_iff i k, ==_iff k i)

  pub total-place :
      (f : K → V → ℕ) (k : K) (v : V) (l : Assoc K V)
      → total f (place k v l) + weigh f k (lookup k l) ≡ total f l + f k v
  unfolding total place lookup
  total-place f k v [] = omega arith
  total-place f k v ((i, w) ∷ l) = ground (arith, total-place f k v l, ==_iff i k)

  pub total-without :
      (f : K → V → ℕ) (k : K) (l : Assoc K V)
      → total f (without k l) + weigh f k (lookup k l) ≡ total f l
  unfolding total without lookup
  total-without f k [] = omega arith
  total-without f k ((i, w) ∷ l) = ground (arith, total-without f k l, ==_iff i k)

  total_same :
      (f g : K → V → ℕ) (k : K) (l : Assoc K V)
      → ((j : K) (v : V) → (j == k) ≡ false → f j v ≡ g j v)
      → lookup k l ≡ none
      → total f l ≡ total g l
  unfolding total lookup
  total_same f g k [] h n = refl
  total_same f g k ((i, w) ∷ l) h n = elim (Bool-cases (i == k)) [
    | inl t ↦ ground arith
    | inr t ↦ ground (arith, h i w, total_same f g k l h)
  ]

  -- Two functions that agree off a key give sums that differ by that key's entry.
  pub total-change :
      (f g : K → V → ℕ) (k : K) (l : Assoc K V)
      → ((j : K) (v : V) → (j == k) ≡ false → f j v ≡ g j v)
      → Distinct l
      → total f l + weigh g k (lookup k l) ≡ total g l + weigh f k (lookup k l)
  unfolding total lookup
  total-change f g k [] h d = refl
  total-change f g k ((i, w) ∷ l) h d = elim (Bool-cases (i == k)) [
    | inl t ↦ ground (arith, total_same f g k l h, ==_iff i k)
    | inr t ↦ ground (arith, h i w, total-change f g k l h d.1)
  ]

  pub total-le : (f : K → V → ℕ) (k : K) (l : Assoc K V) → weigh f k (lookup k l) ≤ total f l
  unfolding total lookup
  total-le f k [] = omega arith
  total-le f k ((i, w) ∷ l) = ground (arith, total-le f k l, ==_iff i k)

  lookup-keep-none :
      (p : K → V → Bool) (k : K) (l : Assoc K V) → lookup k l ≡ none → lookup k (keep p l) ≡ none
  unfolding lookup keep
  lookup-keep-none p k [] h = refl
  lookup-keep-none p k ((i, v) ∷ l) h = ground (arith, lookup-keep-none p k l)

  pub lookup-keep :
      (p : K → V → Bool) (k : K) (l : Assoc K V)
      → Distinct l
      → lookup k (keep p l) ≡ pass p k (lookup k l)
  unfolding lookup keep
  lookup-keep p k [] d = refl
  lookup-keep p k ((i, v) ∷ l) d =
      ground (arith, lookup-keep p k l d.1, lookup-keep-none p i l d.0, ==_iff i k)

  pub keep-Distinct : (p : K → V → Bool) (l : Assoc K V) → Distinct l → Distinct (keep p l)
  unfolding keep
  keep-Distinct p [] d = tt
  keep-Distinct p ((i, v) ∷ l) d = ground (arith, keep-Distinct p l d.1, lookup-keep-none p i l d.0)

  -- Every entry of the list is in the dictionary.
  abbrev pub Within {λ₀} : (K → V → Type λ₀) → Assoc K V → Type λ₀
  Within P [] = Unit
  Within P ((k, v) ∷ l) = P k v × Within P l

  pub total_zero :
      (f : K → V → ℕ) (l : Assoc K V)
      → Distinct l
      → ((k : K) (v : V) → lookup k l ≡ some v → f k v ≡ 0)
      → total f l ≡ 0
  unfolding total lookup
  total_zero f [] d h = refl
  total_zero f ((i, w) ∷ l) d h = omega (
    arith,
    h i w (ground (arith, ==_iff i i)),
    total_zero f l d.1 (λ k v e. h k v (ground (arith, ==_iff i k))),
  )

  pub Within-map {λ₀ λ₁} :
      {P : K → V → Type λ₀} {Q : K → V → Type λ₁} (l : Assoc K V)
      → ((k : K) (v : V) → P k v → Q k v)
      → Within P l
      → Within Q l
  Within-map [] h w = tt
  Within-map ((k, v) ∷ l) h w = (h k v w.0, Within-map l h w.1)

  pub Within-lookup : (l : Assoc K V) → Distinct l → Within (λ k v. lookup k l ≡ some v) l
  unfolding lookup
  Within-lookup [] d = tt
  Within-lookup ((i, w) ∷ l) d = (
    ground (arith, ==_iff i i),
    Within-map l (λ k v e. ground (arith, ==_iff i k)) (Within-lookup l d.1),
  )

  pub lookup-elem :
      (k : K) (l : Assoc K V) → (lookup k l ≡ none) ⊎ (elem k (map (λ (p : K × V). p.0) l) ≡ true)
  unfolding lookup elem
  lookup-elem k [] = inl refl
  lookup-elem k ((i, w) ∷ l) = ground (arith, lookup-elem k l)

  pub Within-at {λ₀} :
      (P : K → V → Type λ₀) (k : K) (v : V) (l : Assoc K V)
      → Within P l
      → lookup k l ≡ some v
      → P k v
  unfolding lookup
  Within-at P k v [] w h = absurd (cc)
  Within-at P k v ((i, u) ∷ l) w h = elim (Bool-cases (i == k)) [
    | inl t ↦
        let same_key : i ≡ k = (==_iff i k).0 t in
        let same_value : u ≡ v = ground arith in
        subst (λ x. P x v) same_key (subst (P i) same_value w.0)
    | inr f ↦ Within-at P k v l w.1 (ground arith)
  ]

  abbrev pub Apart : Assoc K V → Type 0
  Apart [] = Unit
  Apart ((k, v) ∷ l) = Within (λ j w. (j == k) ≡ false) l × Apart l

  lookup-none_apart :
      (k : K) (l : Assoc K V) → lookup k l ≡ none → Within (λ j w. (j == k) ≡ false) l
  unfolding lookup
  lookup-none_apart k [] h = tt
  lookup-none_apart k ((j, v) ∷ l) h =
      (ground (arith, h), lookup-none_apart k l (ground (arith, h)))

  pub Distinct-Apart : (l : Assoc K V) → Distinct l → Apart l
  Distinct-Apart [] d = tt
  Distinct-Apart ((k, v) ∷ l) d = (lookup-none_apart k l d.0, Distinct-Apart l d.1)
