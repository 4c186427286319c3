-- ===== src/Base/Program/Always.antt =====
-- Properties of the trace that hold whatever a program comes to.
use ach_agent.Base.Tests.{if_cases, if◌then◌else◌}
use mathlib.Core.Bool.{Bool}
use ach_agent.Base.Program.{
  Program, Trace, Ensures, Outcome, returns, raises, from_outcome, Ensures-bind, Ensures-attempt,
  attempt, ◌>>=◌,
}

module _ {R : Type 0} {Reply : R → Type 0} {E : Type 0} (P : Trace Reply → Type 0) where
  abbrev pub Always {ℓ} : {A : Type ℓ} → Trace Reply → Program Reply E A → Type 0
  Always t p = Ensures (λ t o. P t) t p

  pub Always-bind {ℓ κ} :
      {A : Type ℓ} {B : Type κ} (t : Trace Reply) (p : Program Reply E A)
      (f : A → Program Reply E B)
      → Always t p
      → ((t : Trace Reply) (a : A) → P t → Always t (f a))
      → Always t (p >>= f)
  Always-bind t p f h k = Ensures-bind (λ t o. P t) (λ t o. P t) t p f h k (λ t e q. q)

  pub Always-attempt {ℓ} :
      {A : Type ℓ} (t : Trace Reply) (p : Program Reply E A) → Always t p → Always t (attempt p)
  Always-attempt t p h = Ensures-attempt (λ t o. P t) (λ t o. P t) t p h (λ t o q. q)

  pub Always-if {ℓ} :
      {A : Type ℓ} (t : Trace Reply) (b : Bool) (p q : Program Reply E A)
      → Always t p
      → Always t q
      → Always t (if b then p else q)
  Always-if t b p q h k = if_cases (λ r. Always t r) b p q (λ _. h) (λ _. k)

  pub Always-from_outcome {ℓ} :
      {A : Type ℓ} (t : Trace Reply) (o : Outcome E A) → P t → Always t (from_outcome o)
  Always-from_outcome t (returns a) p = p
  Always-from_outcome t (raises e) p = p
