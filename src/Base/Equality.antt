-- ===== src/Base/Equality.antt =====
-- Equality tests of compound values, field by field, as `==` on dataclasses makes them.
use mathlib.Core.Path.{◌≡◌, refl, sym, ap, ◌∙◌}
use mathlib.Core.Logic.{◌↔◌}
use mathlib.Core.Bool.{Bool, true, false, ◌&&◌}
use mathlib.Core.Option.{Option, none, some}
use native.Mathlib.Omega.{arith}
use ach_agent.Base.Tests.{Eq}

abbrev option_beq : {A : Type 0} → Eq A → Option A → Option A → Bool
option_beq e none none = true
option_beq e (some a) (some b) = e.beq a b
option_beq e _ _ = false

pub option_beq_iff : {A : Type 0} (e : Eq A) (a b : Option A) → (option_beq e a b ≡ true) ↔ (a ≡ b)
option_beq_iff e none none = (λ _. refl, λ _. refl)
option_beq_iff e none (some b) = ground arith
option_beq_iff e (some a) none = ground arith
option_beq_iff e (some a) (some b) = ground (arith, e.beq_iff a b)

instance abbrev pub option_eq : {A : Type 0} → ⦃e : Eq A⦄ → Eq (Option A)
option_eq ⦃e⦄ = record { beq = option_beq e; beq_iff = option_beq_iff e }

abbrev pair_beq : {A B : Type 0} → Eq A → Eq B → A × B → A × B → Bool
pair_beq e f p q = e.beq p.0 q.0 && f.beq p.1 q.1

pub pair_beq_iff :
    {A B : Type 0} (e : Eq A) (f : Eq B) (p q : A × B) → (pair_beq e f p q ≡ true) ↔ (p ≡ q)
pair_beq_iff e f p q = ground (arith, e.beq_iff p.0 q.0, f.beq_iff p.1 q.1)

instance abbrev pub pair_eq : {A B : Type 0} → ⦃e : Eq A⦄ → ⦃f : Eq B⦄ → Eq (A × B)
pair_eq ⦃e⦄ ⦃f⦄ = record { beq = pair_beq e f; beq_iff = pair_beq_iff e f }

-- An equality test through another view of the values.
pub eq_view_iff :
    {A B : Type 0} (e : Eq B) (view : A → B) (back : B → A)
    → ((a : A) → back (view a) ≡ a)
    → (a b : A) → (e.beq (view a) (view b) ≡ true) ↔ (a ≡ b)
eq_view_iff e view back inverse a b = (
  λ h. sym (inverse a) ∙ ap back ((e.beq_iff (view a) (view b)).0 h) ∙ inverse b,
  λ h. (e.beq_iff (view a) (view b)).1 (ap view h),
)

abbrev pub eq_view :
    {A B : Type 0}
    → ⦃e : Eq B⦄ → (view : A → B) → (back : B → A) → ((a : A) → back (view a) ≡ a)
    → Eq A
eq_view ⦃e⦄ view back inverse = record {
  beq = λ a b. e.beq (view a) (view b);
  beq_iff = eq_view_iff e view back inverse;
}
