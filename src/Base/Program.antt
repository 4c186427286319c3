-- ===== src/Base/Program.antt =====
-- Code that calls the outside: a program makes a request, and goes on with any reply. What a program
-- does is stated for every environment, so for every interleaving with other clients and failures.
pub mod Always
pub mod Extends
use mathlib.Core.Path.{◌≡◌, refl}
use native.Mathlib.Omega.{arith}
use mathlib.Core.List.{List, [], ◌∷◌}

-- What a call, or a piece of code, comes to.
pub data Outcome {ℓ} (E : Type 0) (A : Type ℓ) : Type ℓ where
  returns : A → Outcome E A
  raises : E → Outcome E A

pub data Program {ℓ} {R : Type 0} (Reply : R → Type 0) (E : Type 0) (A : Type ℓ) : Type ℓ where
  give : A → Program Reply E A
  raise : E → Program Reply E A
  call : (r : R) → (Reply r → Program Reply E A) → Program Reply E A

-- An outcome's continuation: an error is passed on.
abbrev pub and_then {ℓ κ} :
    {E : Type 0} {A : Type ℓ} {B : Type κ} → Outcome E A → (A → Outcome E B) → Outcome E B
and_then (returns a) f = f a
and_then (raises e) f = raises e

pub and_then-returns {ℓ κ} :
    {E : Type 0} {A : Type ℓ} {B : Type κ} (o : Outcome E A) (f : A → Outcome E B) (b : B)
    → and_then o f ≡ returns b
    → (a : A) × (o ≡ returns a) × (f a ≡ returns b)
and_then-returns (returns a) f b h = (a, refl, h)
and_then-returns (raises e) f b h = absurd (ground (arith, h))

-- The requests with their replies, the last one first.
abbrev pub Trace : {R : Type 0} → (R → Type 0) → Type 0
Trace {R} Reply = List ((r : R) × Reply r)

-- What answers requests; it may look at all that was asked before.
abbrev pub Environment : {R : Type 0} → (R → Type 0) → Type 0
Environment {R} Reply = Trace Reply → (r : R) → Reply r

module _ {R : Type 0} {Reply : R → Type 0} {E : Type 0} where
  infixl 5 ◌>>=◌
  abbrev pub ◌>>=◌ {ℓ κ} :
      {A : Type ℓ} {B : Type κ} → Program Reply E A → (A → Program Reply E B) → Program Reply E B
  give a >>= f = f a
  raise e >>= f = raise e
  call r k >>= f = call r (λ x. k x >>= f)

  -- try: ... except: an error becomes a value
  abbrev pub attempt {ℓ} : {A : Type ℓ} → Program Reply E A → Program Reply E (Outcome E A)
  attempt (give a) = give (returns a)
  attempt (raise e) = give (raises e)
  attempt (call r k) = call r (λ x. attempt (k x))

  abbrev pub from_outcome {ℓ} : {A : Type ℓ} → Outcome E A → Program Reply E A
  from_outcome (returns a) = give a
  from_outcome (raises e) = raise e

  abbrev pub execute {ℓ} :
      {A : Type ℓ} → Environment Reply → Trace Reply → Program Reply E A → Trace Reply × Outcome E A
  execute env t (give a) = (t, returns a)
  execute env t (raise e) = (t, raises e)
  execute env t (call r k) = let x = env t r in execute env ((r, x) ∷ t) (k x)

  -- Whatever the replies, the trace and the outcome satisfy the postcondition.
  abbrev pub Ensures {ℓ κ} :
      {A : Type ℓ} → (Trace Reply → Outcome E A → Type κ) → Trace Reply → Program Reply E A → Type κ
  Ensures Q t (give a) = Q t (returns a)
  Ensures Q t (raise e) = Q t (raises e)
  Ensures Q t (call r k) = (x : Reply r) → Ensures Q ((r, x) ∷ t) (k x)

  pub Ensures-execute {ℓ κ} :
      {A : Type ℓ} (Q : Trace Reply → Outcome E A → Type κ) (env : Environment Reply)
      (t : Trace Reply) (p : Program Reply E A)
      → Ensures Q t p
      → Q (execute env t p).0 (execute env t p).1
  Ensures-execute Q env t (give a) h = h
  Ensures-execute Q env t (raise e) h = h
  Ensures-execute Q env t (call r k) h =
      Ensures-execute Q env ((r, env t r) ∷ t) (k (env t r)) (h (env t r))

  pub Ensures-weaken {ℓ κ λ₀} :
      {A : Type ℓ} (P : Trace Reply → Outcome E A → Type κ)
      (Q : Trace Reply → Outcome E A → Type λ₀) (t : Trace Reply) (p : Program Reply E A)
      → Ensures P t p
      → ((t : Trace Reply) (o : Outcome E A) → P t o → Q t o)
      → Ensures Q t p
  Ensures-weaken P Q t (give a) h w = w t (returns a) h
  Ensures-weaken P Q t (raise e) h w = w t (raises e) h
  Ensures-weaken P Q t (call r k) h w = λ x. Ensures-weaken P Q ((r, x) ∷ t) (k x) (h x) w

  pub Ensures-bind {ℓ₁ ℓ₂ κ λ₀} :
      {A : Type ℓ₁} {B : Type ℓ₂} (P : Trace Reply → Outcome E A → Type κ)
      (Q : Trace Reply → Outcome E B → Type λ₀) (t : Trace Reply) (p : Program Reply E A)
      (f : A → Program Reply E B)
      → Ensures P t p
      → ((t : Trace Reply) (a : A) → P t (returns a) → Ensures Q t (f a))
      → ((t : Trace Reply) (e : E) → P t (raises e) → Q t (raises e))
      → Ensures Q t (p >>= f)
  Ensures-bind P Q t (give a) f h ok err = ok t a h
  Ensures-bind P Q t (raise e) f h ok err = err t e h
  Ensures-bind P Q t (call r k) f h ok err = λ x. Ensures-bind P Q ((r, x) ∷ t) (k x) f (h x) ok err

  pub Ensures-attempt {ℓ κ λ₀} :
      {A : Type ℓ} (P : Trace Reply → Outcome E A → Type κ)
      (Q : Trace Reply → Outcome E (Outcome E A) → Type λ₀) (t : Trace Reply)
      (p : Program Reply E A)
      → Ensures P t p
      → ((t : Trace Reply) (o : Outcome E A) → P t o → Q t (returns o))
      → Ensures Q t (attempt p)
  Ensures-attempt P Q t (give a) h w = w t (returns a) h
  Ensures-attempt P Q t (raise e) h w = w t (raises e) h
  Ensures-attempt P Q t (call r k) h w = λ x. Ensures-attempt P Q ((r, x) ∷ t) (k x) (h x) w

  pub Ensures-try {ℓ₁ ℓ₂ κ λ₀} :
      {A : Type ℓ₁} {B : Type ℓ₂} (P : Trace Reply → Outcome E A → Type κ)
      (Q : Trace Reply → Outcome E B → Type λ₀) (t : Trace Reply) (p : Program Reply E A)
      (f : Outcome E A → Program Reply E B)
      → Ensures P t p
      → ((t : Trace Reply) (o : Outcome E A) → P t o → Ensures Q t (f o))
      → Ensures Q t (attempt p >>= f)
  Ensures-try P Q t (give a) f h w = w t (returns a) h
  Ensures-try P Q t (raise e) f h w = w t (raises e) h
  Ensures-try P Q t (call r k) f h w = λ x. Ensures-try P Q ((r, x) ∷ t) (k x) f (h x) w
