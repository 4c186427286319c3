-- ===== src/Harness/Admission/Balance/Sweep.antt =====
-- harness/admission.py: the sweep and the look-up keep the accounting of the ledger.
use ach_agent.Base.{
  String, ◌≡◌, Bool, true, not, ◌&&◌, ◌||◌, Option, none, some, List, [], ◌∷◌, ◌++◌, arith, ==_refl,
  nat_eq, string_eq, Bool-cases, inl, inr,
}
use ach_agent.Base.Dict.{has, get, keys, get-remove}
use ach_agent.Harness.Admission.State.{State, Config, rate_key_eq}
use ach_agent.Harness.Admission.Ledger.{
  forget, is_expired, forget_each, prune, sweep_expired, existing_ticket, keep_or_forget, Known,
  known, lapsed,
}
use ach_agent.Harness.Admission.Balance.{IsBalanced, Balanced-forget}

-- No record of the key is unreleased.
abbrev pub settled : String → State → Bool
settled k s = not ((has k s.tickets || has k s.recovered) && not (has k s.released))

forget-Balanced :
    (k : String) (s : State) → settled k s ≡ true → IsBalanced s → IsBalanced (forget k s)
unfolding forget
forget-Balanced k s r b = Balanced-forget b k (ground arith)

settled-forget : (k j : String) (s : State) → settled j s ≡ true → settled j (forget k s) ≡ true
unfolding forget
settled-forget k j s h =
    ground (arith, get-remove k j s.tickets, get-remove k j s.recovered, get-remove k j s.released)

forget_each-Balanced :
    (p : String → Bool) (ks : List String) (s : State)
    → ((k : String) → p k ≡ true → settled k s ≡ true)
    → IsBalanced s
    → IsBalanced (forget_each p ks s)
unfolding forget_each
forget_each-Balanced p [] s h b = b
forget_each-Balanced p (k ∷ ks) s h b = elim (Bool-cases (p k)) [
  | inl chosen ↦
      rw (chosen, forget_each)
        (forget_each-Balanced p ks (forget k s) (λ j e. settled-forget k j s (h j e))
          (forget-Balanced k s (h k chosen) b))
  | inr other ↦ rw (other, forget_each) (forget_each-Balanced p ks s h b)
]

pub sweep_expired-Balanced :
    (cfg : Config) (s : State) → IsBalanced s → IsBalanced (sweep_expired cfg s)
unfolding sweep_expired prune is_expired
sweep_expired-Balanced cfg s b = record {
  counted = swept.counted;
  apart = swept.apart;
  accounted = swept.accounted;
  placed = swept.placed;
}
  where
    swept : IsBalanced (forget_each (is_expired cfg s) (keys s.tickets ++ keys s.recovered) s)
    swept =
        forget_each-Balanced (is_expired cfg s) (keys s.tickets ++ keys s.recovered) s
          (λ k e. ground arith) b

keep_or_forget-Balanced :
    (cfg : Config) (k : String) (r : Option Known) (s : State)
    → IsBalanced s
    → IsBalanced (keep_or_forget cfg k r s).0
unfolding keep_or_forget
keep_or_forget-Balanced cfg k none s b = b
keep_or_forget-Balanced cfg k (some r) s b = elim (Bool-cases (has k s.released)) [
  | inr owned ↦ rw owned b
  | inl done ↦ rw done (elim (Bool-cases (lapsed cfg s.clock (get k s.completed_at))) [
    | inl over ↦ rw over (forget-Balanced k s (ground arith) b)
    | inr still ↦ rw still b
  ])
]

pub existing_ticket-Balanced :
    (cfg : Config) (k : String) (s : State) → IsBalanced s → IsBalanced (existing_ticket cfg k s).0
unfolding existing_ticket
existing_ticket-Balanced cfg k s b =
    keep_or_forget-Balanced cfg k (known (get k s.tickets) (get k s.recovered)) s b

-- A key that is looked up in vain has no record.
pub existing_ticket-none :
    (cfg : Config) (k : String) (s : State)
    → (existing_ticket cfg k s).1 ≡ none
    → let s' = (existing_ticket cfg k s).0 in
      (get k s'.tickets ≡ none) × (get k s'.recovered ≡ none)
unfolding existing_ticket forget
existing_ticket-none cfg k s h =
    ground (arith, get-remove k k s.tickets, get-remove k k s.recovered, ==_refl k)
