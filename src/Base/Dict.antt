-- ===== src/Base/Dict.antt =====
-- Python's `dict` (and `set`, as a `dict` to the unit type) behind its laws: the entries in
-- insertion order, with distinct keys.
mod Entries
use Entries.{
  Assoc, Distinct, lookup, without, place, keep, total, lookup-without, lookup-place, lookup-keep,
  without-Distinct, place-Distinct, keep-Distinct, total-place, total-without, total-change,
  total-le, total_zero, Within-lookup, Within-at, lookup-elem, Distinct-Apart,
}
pub use Entries.{weigh, pass, Within, Within-map, Apart}
use Prim.Native.Nat.{ℕ, ◌+◌, ◌≤◌}
use mathlib.Core.Path.{◌≡◌, refl}
use mathlib.Core.Logic.{inl, inr, ◌⊎◌}
use mathlib.Core.Bool.{Bool, true, false, ◌||◌}
use mathlib.Core.Option.{Option, none, some}
use mathlib.Core.List.{List, [], ◌∷◌, map}
use native.Mathlib.Omega.{arith}
use ach_agent.Base.Tests.{elem, Eq, ◌==◌, ==_iff, ==_refl, if◌then◌else◌, bit, Bool-cases}

pub record Dict {κ ℓ} (K : Type κ) ⦃e : Eq K⦄ (V : Type ℓ) : Type (κ ⊔ ℓ) where
  entries : Assoc K V
  distinct : Distinct entries

abbrev pub is_some {ℓ} : {A : Type ℓ} → Option A → Bool
is_some none = false
is_some (some a) = true

module _ {κ ℓ} {K : Type κ} ⦃e : Eq K⦄ {V : Type ℓ} where
  unfoldable pub empty : Dict K V
  empty = record { entries = []; distinct = tt }

  -- d.get(k)
  unfoldable pub get : K → Dict K V → Option V
  unfolding lookup
  get k d = lookup k d.entries

  -- k in d
  abbrev pub has : K → Dict K V → Bool
  has k d = is_some (get k d)

  -- d[k] = v, s.add(k)
  unfoldable pub put : K → V → Dict K V → Dict K V
  unfolding place
  put k v d = record {
    entries = place k v d.entries;
    distinct = place-Distinct k v d.entries d.distinct;
  }

  -- d.pop(k, None), s.discard(k)
  unfoldable pub remove : K → Dict K V → Dict K V
  unfolding without
  remove k d = record {
    entries = without k d.entries;
    distinct = without-Distinct k d.entries d.distinct;
  }

  -- {k: v for k, v in d.items() if p(k, v)}
  unfoldable pub filter : (K → V → Bool) → Dict K V → Dict K V
  unfolding keep
  filter p d = record {
    entries = keep p d.entries;
    distinct = keep-Distinct p d.entries d.distinct;
  }

  -- sum(f(k, v) for k, v in d.items())
  unfoldable pub sum : (K → V → ℕ) → Dict K V → ℕ
  unfolding total
  sum f d = total f d.entries

  -- d.items(), d.keys()
  unfoldable pub items : Dict K V → List (K × V)
  items d = d.entries

  unfoldable pub keys : Dict K V → List K
  keys d = map (λ (p : K × V). p.0) d.entries

  pub get-empty : (k : K) → get k empty ≡ none
  unfolding get empty
  get-empty k = refl

  pub get-put :
      (k j : K) (v : V) (d : Dict K V) → get j (put k v d) ≡ (if k == j then some v else get j d)
  unfolding get put
  get-put k j v d = lookup-place k j v d.entries

  pub get-put_self : (k : K) (v : V) (d : Dict K V) → get k (put k v d) ≡ some v
  get-put_self k v d = ground (arith, get-put k k v d, ==_refl k)

  pub get-remove :
      (k j : K) (d : Dict K V) → get j (remove k d) ≡ (if k == j then none else get j d)
  unfolding get remove
  get-remove k j d = lookup-without k j d.entries d.distinct

  pub get-filter :
      (p : K → V → Bool) (k : K) (d : Dict K V) → get k (filter p d) ≡ pass p k (get k d)
  unfolding get filter
  get-filter p k d = lookup-keep p k d.entries d.distinct

  pub sum-empty : (f : K → V → ℕ) → sum f empty ≡ 0
  unfolding sum empty
  sum-empty f = refl

  pub sum-put :
      (f : K → V → ℕ) (k : K) (v : V) (d : Dict K V)
      → sum f (put k v d) + weigh f k (get k d) ≡ sum f d + f k v
  unfolding sum put get
  sum-put f k v d = total-place f k v d.entries

  pub sum-remove :
      (f : K → V → ℕ) (k : K) (d : Dict K V) → sum f (remove k d) + weigh f k (get k d) ≡ sum f d
  unfolding sum remove get
  sum-remove f k d = total-without f k d.entries

  pub sum-change :
      (f g : K → V → ℕ) (k : K) (d : Dict K V)
      → ((j : K) (v : V) → (j == k) ≡ false → f j v ≡ g j v)
      → sum f d + weigh g k (get k d) ≡ sum g d + weigh f k (get k d)
  unfolding sum get
  sum-change f g k d h = total-change f g k d.entries h d.distinct

  pub weigh-le-sum : (f : K → V → ℕ) (k : K) (d : Dict K V) → weigh f k (get k d) ≤ sum f d
  unfolding sum get
  weigh-le-sum f k d = total-le f k d.entries

  -- A sum of zeros.
  pub sum_zero :
      (f : K → V → ℕ) (d : Dict K V)
      → ((k : K) (v : V) → get k d ≡ some v → f k v ≡ 0)
      → sum f d ≡ 0
  unfolding sum get
  sum_zero f d h = total_zero f d.entries d.distinct h

  -- A loop over the items meets each entry of the dictionary, and one over the keys each key.
  pub items-Within : (d : Dict K V) → Within (λ k v. get k d ≡ some v) (items d)
  unfolding items get
  items-Within d = Within-lookup d.entries d.distinct

  pub within_get {λ₀} :
      (P : K → V → Type λ₀) (k : K) (v : V) (d : Dict K V)
      → Within P (items d)
      → get k d ≡ some v
      → P k v
  unfolding items get
  within_get P k v d w h = Within-at P k v d.entries w h

  pub elem-keys : (k : K) (d : Dict K V) → (get k d ≡ none) ⊎ (elem k (keys d) ≡ true)
  unfolding keys get
  elem-keys k d = lookup-elem k d.entries

  -- The keys of the items differ from one another.
  pub items-Apart : (d : Dict K V) → Apart (items d)
  unfolding items
  items-Apart d = Distinct-Apart d.entries d.distinct

pub ruleset dict_laws = (get-empty, get-put, get-remove, get-filter)
