-- ===== src/Harness/Admission/Pool.antt =====
-- harness/admission.py: a family of semaphores against the permits that are out.
use ach_agent.Base.{
  ℕ, ◌+◌, ◌-◌, ◌<◌, String, ◌≡◌, Bool, none, some, arith, bit, ◌==◌, ==_iff, ==_refl, nat_eq,
  string_eq, inl, inr, Option-cases,
}
use ach_agent.Base.Dict.{Dict, get, put, filter, get-put, get-filter}
use ach_agent.Harness.Admission.State.{Semaphore}
use ach_agent.Harness.Admission.Ledger.{stays}
use ach_agent.Harness.Admission.Permits.{ensure, sem_value, take_from, give_to}

-- What a pool has left for a key; all of its cap before the first use.
abbrev pub available : (String → ℕ) → String → Dict String Semaphore → ℕ
available caps k sems = elim (get k sems) [ none ↦ caps k | some sem ↦ sem.value ]

-- A family of semaphores against the number of permits that are out.
pub record PoolOk (caps : String → ℕ) (out : String → ℕ) (sems : Dict String Semaphore)
    : Type 0 where
  pub kept : (k : String) → available caps k sems + out k ≡ caps k
  pub made : (k : String) (sem : Semaphore) → get k sems ≡ some sem → sem.cap ≡ caps k

module _ {caps out : String → ℕ} {sems : Dict String Semaphore} (ok : PoolOk caps out sems) where
  pub PoolOk-out : (out' : String → ℕ) → ((k : String) → out' k ≡ out k) → PoolOk caps out' sems
  PoolOk-out out' h = record { kept = λ k. ground (arith, ok.kept k, h k); made = ok.made }

  pub PoolOk-ensure : (k : String) → PoolOk caps out (ensure k (caps k) sems)
  unfolding ensure
  PoolOk-ensure k = record {
    kept = λ j. ground (
      arith,
      ok.kept j,
      ok.kept k,
      ==_iff k j,
      get-put k j (record { value = caps k; cap = caps k }) sems,
    );
    made = λ j sem h. ground (
      arith,
      ok.made j sem,
      ==_iff k j,
      get-put k j (record { value = caps k; cap = caps k }) sems,
    );
  }

  pub PoolOk-take :
      (k : String) (out' : String → ℕ)
      → 0 < sem_value k sems
      → ((j : String) → out' j ≡ out j + bit (k == j))
      → PoolOk caps out' (take_from k sems)
  unfolding take_from
  PoolOk-take k out' free h = elim (Option-cases (get k sems)) [
    | inl e ↦ absurd (ground arith)
    | inr (sem, e) ↦
        let sems' = put k (record sem { value = sem.value - 1 }) sems in
        let new : PoolOk caps out' sems' = record {
          kept = λ j. ground (
            arith,
            ok.kept j,
            h j,
            ==_iff k j,
            get-put k j (record sem { value = sem.value - 1 }) sems,
          );
          made = λ j sem' e'. ground (
            arith,
            ok.made j sem',
            ok.made k sem e,
            ==_iff k j,
            get-put k j (record sem { value = sem.value - 1 }) sems,
          );
        } in
        rw (e, take_from) new
  ]

  pub PoolOk-give :
      (k : String) (out' : String → ℕ)
      → ((j : String) → out j ≡ out' j + bit (k == j))
      → PoolOk caps out' (give_to k sems)
  unfolding give_to
  PoolOk-give k out' h = elim (Option-cases (get k sems)) [
    | inl e ↦ absurd (ground (arith, ok.kept k, h k, ==_refl k))
    | inr (sem, e) ↦
        let sems' = put k (record sem { value = sem.value + 1 }) sems in
        let new : PoolOk caps out' sems' = record {
          kept = λ j. ground (
            arith,
            ok.kept j,
            h j,
            ==_iff k j,
            get-put k j (record sem { value = sem.value + 1 }) sems,
          );
          made = λ j sem' e'. ground (
            arith,
            ok.made j sem',
            ok.made k sem e,
            ==_iff k j,
            get-put k j (record sem { value = sem.value + 1 }) sems,
          );
        } in
        rw (e, give_to) new
  ]

  pub PoolOk-filter : (active : String → Bool) → PoolOk caps out (filter (stays active) sems)
  PoolOk-filter active = record {
    kept = λ k. elim (Option-cases (get k sems)) [
      | inl e ↦ ground (arith, ok.kept k, get-filter (stays active) k sems)
      | inr (sem, e) ↦ ground (arith, ok.kept k, ok.made k sem e, get-filter (stays active) k sems)
    ];
    made = λ k sem h. ground (arith, ok.made k sem, get-filter (stays active) k sems);
  }
