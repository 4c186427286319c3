-- ===== src/Harness/Admission/Unreleased.antt =====
-- How the number of unreleased records follows the release, the arrival and the removal of one.
use ach_agent.Base.{
  ℕ, ◌+◌, String, ◌≡◌, Bool, false, not, ◌&&◌, Option, none, some, arith, bit, ==_iff, ==_refl,
  string_eq,
}
use ach_agent.Base.Dict.{
  Dict, has, get, put, remove, get-put, get-remove, sum-put, sum-remove, sum-change,
}
use ach_agent.Harness.Admission.State.{Set, unreleased}

-- What a record of the key adds to the number.
abbrev pub counts {ℓ} : {V : Type ℓ} → (V → Bool) → Option V → ℕ
counts p none = 0
counts p (some v) = bit (p v)

module _ {ℓ} {V : Type ℓ} (p : V → Bool) (k : String) (released : Set) (d : Dict String V) where
  pub unreleased-release :
      has k released ≡ false
      → unreleased p released d ≡ unreleased p (put k tt released) d + counts p (get k d)
  unreleased-release fresh = ground (
    arith,
    sum-change (λ j v. bit (not (has j released) && p v))
        (λ j v. bit (not (has j (put k tt released)) && p v)) k d
        (λ j v h. ground (arith, get-put k j tt released, ==_iff k j, ==_iff j k)),
    get-put k k tt released,
    ==_refl k,
  )

  pub unreleased-put :
      (v : V)
      → get k d ≡ none
      → unreleased p released (put k v d)
        ≡ unreleased p released d + bit (not (has k released) && p v)
  unreleased-put v h = ground (arith, sum-put (λ j v. bit (not (has j released) && p v)) k v d)

  pub unreleased-forget :
      (has k d && not (has k released)) ≡ false
      → unreleased p (remove k released) (remove k d) ≡ unreleased p released d
  unreleased-forget h = ground (
    arith,
    sum-change (λ j v. bit (not (has j released) && p v))
        (λ j v. bit (not (has j (remove k released)) && p v)) k (remove k d)
        (λ j v h. ground (arith, get-remove k j released, ==_iff k j, ==_iff j k)),
    sum-remove (λ j v. bit (not (has j released) && p v)) k d,
    get-remove k k d,
    ==_refl k,
  )
