-- ===== src/Base/Program/Extends.antt =====
-- A program only adds to its trace.
use ach_agent.Base.Program.{Program, give, raise, call, Trace, Ensures, Outcome}
use mathlib.Core.List.{◌∷◌}

pub data Extends {R : Type 0} {Reply : R → Type 0} (start : Trace Reply)
    : Trace Reply → Type 0 where
  as_it_was : Extends start start
  and_more : (e : (r : R) × Reply r) (t : Trace Reply) → Extends start t → Extends start (e ∷ t)

module _ {R : Type 0} {Reply : R → Type 0} {E : Type 0} where
  pub Ensures-Extends {ℓ κ} :
      {A : Type ℓ} (Q : Trace Reply → Outcome E A → Type κ) (start t : Trace Reply)
      (p : Program Reply E A)
      → Extends start t
      → Ensures Q t p
      → Ensures (λ t o. Q t o × Extends start t) t p
  Ensures-Extends Q start t (give a) x h = (h, x)
  Ensures-Extends Q start t (raise e) x h = (h, x)
  Ensures-Extends Q start t (call r k) x h = λ reply.
      Ensures-Extends Q start ((r, reply) ∷ t) (k reply) (and_more (r, reply) t x) (h reply)
