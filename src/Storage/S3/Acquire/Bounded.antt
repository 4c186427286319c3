-- ===== src/Storage/S3/Acquire/Bounded.antt =====
-- storage/s3.py: how `acquire_writer` ends.
use ach_agent.Base.{
  ◌≡◌, refl, ap, ℕ, zero, suc, ◌+◌, ◌≤◌, String, Option, none, [], ◌∷◌, arith, if_cases,
}
use ach_agent.Base.Lists.{length}
use ach_agent.Base.Program.{
  raise, Outcome, returns, raises, from_outcome, Trace, Ensures, Ensures-try, Ensures-execute,
  Environment, execute, Ensures-weaken,
}
use ach_agent.Storage.Fencing.{RegistryDoc, WriterLease, acquired, lease_on}
use ach_agent.Storage.Refs.{StateRef, registry_key}
use ach_agent.Storage.S3.Documents.{registry_document}
use ach_agent.Storage.S3.Requests.{
  StorageFailure, runtime_error, precondition_failed, is_precondition_failed, lost_race,
  as_transient, Fetched, StorageRequest, get_object, put_object, Reply, S3, Settings,
  registry_writes,
}
use ach_agent.Storage.S3.Registry.{
  cas_retry_limit, bounded, decode_registry, read_registry, condition_on, replaced,
  cas_write_registry,
}
use ach_agent.Storage.S3.Registry.Reads.{require_client-Ensures}
use ach_agent.Storage.S3.Acquire.{
  etag_of, doc_of, served_again, replied, write_over, turn, acquire_loop, acquire_writer,
}

-- The last request is a read of the registry that gave `current`.
pub record Served (s : Settings) (ref : StateRef) (t : Trace Reply)
    (current : Option (RegistryDoc × String)) : Type 0 where
  pub reply : Outcome StorageFailure Fetched
  pub before : Trace Reply
  pub last : t ≡ ((get_object (registry_key ref), reply) ∷ before)
  pub decoded : decode_registry s (bounded reply) ≡ returns current

-- The lease of the last request: a write of the next epoch over what the storage served just before,
-- on the condition that it is still there.
pub record Leased (s : Settings) (ref : StateRef) (writer : String) (t : Trace Reply)
    (lease : WriterLease) : Type 0 where
  pub current : Option (RegistryDoc × String)
  pub etag : String
  pub before : Trace Reply
  pub served : Served s ref before current
  pub last : t ≡ (
      (
        put_object
            (registry_key ref)
            (registry_document (acquired writer (doc_of current)))
            (condition_on (etag_of current)),
        returns etag,
      )
      ∷ before)
  pub lease_is : lease ≡ lease_on ref writer etag (acquired writer (doc_of current))

abbrev writes_of : Trace Reply → ℕ
writes_of t = length (registry_writes t)

abbrev pub IsLease :
    Settings → StateRef → String → Trace Reply → Outcome StorageFailure WriterLease → Type 0
IsLease s ref writer t (raises e) = Unit
IsLease s ref writer t (returns lease) = Leased s ref writer t lease

module _ (s : Settings) (ref : StateRef) (writer : String) where
  abbrev IsRead :
      Trace Reply → Trace Reply → Outcome StorageFailure (Option (RegistryDoc × String)) → Type 0
  IsRead t t' (raises e) = registry_writes t' ≡ registry_writes t
  IsRead t t' (returns current) = (registry_writes t' ≡ registry_writes t) × Served s ref t' current

  decoded-IsRead :
      (t t₁ : Trace Reply) (reply : Outcome StorageFailure Fetched)
      (o : Outcome StorageFailure (Option (RegistryDoc × String)))
      → registry_writes t₁ ≡ registry_writes t
      → decode_registry s (bounded reply) ≡ o
      → Ensures (IsRead t) ((get_object (registry_key ref), reply) ∷ t₁) (from_outcome o)
  decoded-IsRead t t₁ reply (raises e) w d = w
  decoded-IsRead t t₁ reply (returns current) w d =
      (w, record { reply = reply; before = t₁; last = refl; decoded = d })

  read_registry-IsRead : (t : Trace Reply) → Ensures (IsRead t) t (read_registry s ref)
  unfolding read_registry
  read_registry-IsRead t =
      require_client-Ensures (IsRead t) s t _ (λ x. decoded-IsRead t t x _ refl refl) refl

  abbrev write_request : RegistryDoc → Option String → StorageRequest
  write_request doc expected =
      put_object (registry_key ref) (registry_document doc) (condition_on expected)

  abbrev IsWrite :
      RegistryDoc
      → Option String
      → Trace Reply
      → Trace Reply
      → Outcome StorageFailure String
      → Type 0
  IsWrite doc expected t t' (raises e) = writes_of t' ≤ writes_of t + 1
  IsWrite doc expected t t' (returns etag) = t' ≡ ((write_request doc expected, returns etag) ∷ t)

  replaced-IsWrite :
      (doc : RegistryDoc) (expected : Option String) (t : Trace Reply)
      (x : Outcome StorageFailure String)
      → Ensures (IsWrite doc expected t) ((write_request doc expected, x) ∷ t) (replaced x)
  replaced-IsWrite doc expected t (returns etag) = refl
  replaced-IsWrite doc expected t (raises e) =
      if_cases
        (λ p. Ensures (IsWrite doc expected t) ((write_request doc expected, raises e) ∷ t) p)
        (is_precondition_failed e) (raise precondition_failed) (raise e) (λ _. omega arith)
        (λ _. omega arith)

  cas_write_registry-IsWrite :
      (doc : RegistryDoc) (expected : Option String) (t : Trace Reply)
      → Ensures (IsWrite doc expected t) t (cas_write_registry s ref doc expected)
  unfolding cas_write_registry
  cas_write_registry-IsWrite doc expected t =
      require_client-Ensures (IsWrite doc expected t) s t _ (replaced-IsWrite doc expected t)
        (omega arith)

  -- What the loop comes to with `n` turns left.
  abbrev Ends : ℕ → Trace Reply → Trace Reply → Outcome StorageFailure WriterLease → Type 0
  Ends n t t' o = (writes_of t' ≤ writes_of t + n) × IsLease s ref writer t' o

  replied-Ends :
      (n : ℕ) (t t₀ t₁ : Trace Reply) (current : Option (RegistryDoc × String))
      (next : Option String → S3 WriterLease)
      → ((t : Trace Reply) (rejected : Option String) → Ensures (Ends n t) t (next rejected))
      → writes_of t₀ ≤ writes_of t
      → Served s ref t₀ current
      → (o : Outcome StorageFailure String)
      → IsWrite (acquired writer (doc_of current)) (etag_of current) t₀ t₁ o
      → Ensures
          (Ends (suc n) t)
          t₁
          (replied s ref writer next (acquired writer (doc_of current)) (etag_of current) o)
  replied-Ends n t t₀ t₁ current next ih w served (returns etag) h = (
    omega (arith, ap writes_of h, w),
    record {
      current = current;
      etag = etag;
      before = t₀;
      served = served;
      last = h;
      lease_is = refl;
    },
  )
  replied-Ends n t t₀ t₁ current next ih w served (raises e) h =
      let later = λ (rejected : Option String).
        Ensures-weaken (Ends n t₁) (Ends (suc n) t) t₁ (next rejected) (ih t₁ rejected)
          (λ t₂ o r. (omega (arith, r.0, h, w), r.1)) in
      if_cases (λ p. Ensures (Ends (suc n) t) t₁ p) (lost_race e) (next (etag_of current))
        (raise (as_transient e)) (λ _. later (etag_of current)) (λ _. (omega (arith, h, w), tt))

  turn-Ends :
      (n : ℕ) (t t₁ : Trace Reply) (rejected : Option String)
      (next : Option String → S3 WriterLease)
      → ((t : Trace Reply) (rejected : Option String) → Ensures (Ends n t) t (next rejected))
      → (o : Outcome StorageFailure (Option (RegistryDoc × String))) → IsRead t t₁ o
      → Ensures (Ends (suc n) t) t₁ (turn s ref writer next rejected rejected o)
  turn-Ends n t t₁ rejected next ih (raises e) h =
      if_cases (λ p. Ensures (Ends (suc n) t) t₁ p) (lost_race e) (next rejected)
        (raise (as_transient e))
        (λ _.
          Ensures-weaken (Ends n t₁) (Ends (suc n) t) t₁ (next rejected) (ih t₁ rejected)
            (λ t₂ o r. (omega (arith, r.0, ap length h), r.1)))
        (λ _. (omega (arith, ap length h), tt))
  turn-Ends n t t₁ rejected next ih (returns current) h =
      let doc = acquired writer (doc_of current) in
      if_cases (λ p. Ensures (Ends (suc n) t) t₁ p) (served_again (etag_of current) rejected)
        (raise runtime_error) (write_over s ref writer next current)
        (λ _. (omega (arith, ap length h.0), tt))
        (λ _.
          Ensures-try (IsWrite doc (etag_of current) t₁) (Ends (suc n) t) t₁
            (cas_write_registry s ref doc (etag_of current))
            (replied s ref writer next doc (etag_of current))
            (cas_write_registry-IsWrite doc (etag_of current) t₁)
            (λ t₂. replied-Ends n t t₁ t₂ current next ih (omega (arith, ap length h.0)) h.1))

  acquire_loop-Ends :
      (n : ℕ) (t : Trace Reply) (rejected : Option String)
      → Ensures (Ends n t) t (acquire_loop s ref writer n rejected)
  unfolding acquire_loop
  acquire_loop-Ends zero t rejected = (omega arith, tt)
  acquire_loop-Ends (suc n) t rejected =
      let next = acquire_loop s ref writer n in
      Ensures-try (IsRead t) (Ends (suc n) t) t (read_registry s ref)
        (turn s ref writer next rejected rejected) (read_registry-IsRead t)
        λ t₁. turn-Ends n t t₁ rejected next (acquire_loop-Ends n)

abbrev pub EndsWithin :
    Settings → StateRef → String → ℕ → Trace Reply × Outcome StorageFailure WriterLease → Type 0
EndsWithin s ref writer limit (t, o) =
    (length (registry_writes t) ≤ limit) × IsLease s ref writer t o

-- Whatever the storage answers, `acquire_writer` ends behind at most _CAS_RETRY_LIMIT writes of the
-- registry. A lease that it returns is for the epoch that its last request wrote, over the document
-- that the storage had served just before, and on the condition that it was still there.
pub acquire_writer-Leased :
    (s : Settings) (ref : StateRef) (writer : String) (env : Environment Reply)
    → EndsWithin s ref writer cas_retry_limit (execute env [] (acquire_writer s ref writer))
unfolding acquire_writer
acquire_writer-Leased s ref writer env =
    Ensures-execute (Ends s ref writer cas_retry_limit []) env [] (acquire_writer s ref writer) (
      require_client-Ensures (Ends s ref writer cas_retry_limit []) s [] _
        (acquire_loop-Ends s ref writer cas_retry_limit [] none) (omega arith, tt))
