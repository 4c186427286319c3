-- ===== src/Storage/S3/Restore/Verified.antt =====
-- storage/s3.py: what the opener of a restored snapshot yields.
use ach_agent.Base.{
  ◌≡◌, refl, subst, ℕ, String, Bool, true, false, Option, none, some, [], ◌∷◌, ◌==◌, ==_iff, nat_eq,
  string_eq, if_cases, ◌⊎◌, inl, inr,
}
use ach_agent.Base.Program.{
  give, raise, call, Outcome, returns, raises, ◌>>=◌, from_outcome, Trace, Ensures, Ensures-bind,
  Ensures-try, Ensures-execute, Environment, execute,
}
use ach_agent.Storage.Cache.{Bytes}
use ach_agent.Storage.Fencing.{LatestEntry}
use ach_agent.Storage.Refs.{StateRef, registry_key, snapshot_key}
use ach_agent.Storage.S3.Requests.{
  StorageFailure, cancelled, restore_failed, snapshot_expired, Drained, done, StorageRequest, clock,
  hash_staging, unlink_staging, download_capped, read_staging, put_cached, Reply, S3, Settings,
}
use ach_agent.Storage.S3.Restore.{
  is_expired, check_snapshot_expiry, owned_outcome, require_equal, fetch_verified, behind_unlink,
  cache_payload, serve_payload, download, open_uncached, open_snapshot,
}

-- The request was made and had this reply.
pub data Asked (r : StorageRequest) (x : Reply r) : Trace Reply → Type 0 where
  at_last : (t : Trace Reply) → Asked r x ((r, x) ∷ t)
  before : (e : (r : StorageRequest) × Reply r) (t : Trace Reply) → Asked r x t → Asked r x (e ∷ t)

module _ (s : Settings) (has_cache : Bool) (ref : StateRef) (latest : LatestEntry) where
  -- The bytes were read from a file that was downloaded in the entry's size and had its checksum.
  pub record IsVerified (content : Bytes) (t : Trace Reply) : Type 0 where
    pub sized : Asked (download_capped (snapshot_key ref latest.snapshot_id)) (done latest.size) t
    pub hashed : Asked hash_staging (done latest.checksum) t
    pub read : Asked read_staging (done content) t

  abbrev later :
      (content : Bytes) (e : (r : StorageRequest) × Reply r) (t : Trace Reply)
      → IsVerified content t
      → IsVerified content (e ∷ t)
  later content e t v = record {
    sized = before e t v.sized;
    hashed = before e t v.hashed;
    read = before e t v.read;
  }

  drained-Ensures :
      {A B : Type 0} (Q : Trace Reply → Outcome StorageFailure B → Type 0)
      (mk : Drained A → Trace Reply) (f : A → S3 B)
      → ((t : Trace Reply) (e : StorageFailure) → Q t (raises e))
      → ((a : A) → Ensures Q (mk (done a)) (f a))
      → (b : Bool) (o : Outcome StorageFailure A)
      → Ensures Q
          (mk (record { was_cancelled = b; outcome = o }))
          (owned_outcome (record { was_cancelled = b; outcome = o }) >>= f)
  drained-Ensures Q mk f bad good true o = bad _ cancelled
  drained-Ensures Q mk f bad good false (raises e) = bad _ e
  drained-Ensures Q mk f bad good false (returns a) = good a

  required-Ensures :
      {B : Type 0} (Q : Trace Reply → Outcome StorageFailure B → Type 0) (t : Trace Reply)
      (b : Bool) (f : Unit {0} → S3 B)
      → Q t (raises restore_failed)
      → (b ≡ true → Ensures Q t (f tt))
      → Ensures Q t (require_equal b >>= f)
  required-Ensures Q t true f bad good = good refl
  required-Ensures Q t false f bad good = bad

  abbrev Fetched : Trace Reply → Outcome StorageFailure Bytes → Type 0
  Fetched t (raises e) = Unit
  Fetched t (returns content) = IsVerified content t

  abbrev fetched : String → ℕ → Trace Reply → Trace Reply
  fetched checksum size t =
      (hash_staging, done checksum)
      ∷ ((download_capped (snapshot_key ref latest.snapshot_id), done size) ∷ t)

  read-Fetched :
      (t : Trace Reply) (size : ℕ) (checksum : String)
      → (size == latest.size) ≡ true
      → (checksum == latest.checksum) ≡ true
      → (b : Bool) (o : Outcome StorageFailure Bytes)
      → Ensures Fetched
          ((read_staging, record { was_cancelled = b; outcome = o }) ∷ fetched checksum size t)
          (owned_outcome (record { was_cancelled = b; outcome = o }))
  read-Fetched t size checksum sized same true o = tt
  read-Fetched t size checksum sized same false (raises e) = tt
  read-Fetched t size checksum sized same false (returns content) = record {
    sized = before _ _ (
        before _ _ (
          subst
            (λ n.
              Asked (download_capped (snapshot_key ref latest.snapshot_id)) (done n)
                ((download_capped (snapshot_key ref latest.snapshot_id), done size) ∷ t))
            ((==_iff size latest.size).0 sized) (at_last t)));
    hashed = before _ _ (
        subst (λ c. Asked hash_staging (done c) (fetched checksum size t))
          ((==_iff checksum latest.checksum).0 same) (at_last _));
    read = at_last _;
  }

  fetch_verified-Fetched :
      (t : Trace Reply) → Ensures Fetched t (fetch_verified s has_cache ref latest)
  fetch_verified-Fetched t x =
      drained-Ensures Fetched (λ x. (download_capped (snapshot_key ref latest.snapshot_id), x) ∷ t)
        _ (λ t e. tt)
        (λ size. required-Ensures Fetched _ (size == latest.size) _ tt λ sized y.
          drained-Ensures Fetched
            (λ y.
              (hash_staging, y)
              ∷ ((download_capped (snapshot_key ref latest.snapshot_id), done size) ∷ t))
            _ (λ t e. tt)
            (λ checksum.
              required-Ensures Fetched _ (checksum == latest.checksum) _ tt
                λ same z. read-Fetched t size checksum sized same z.was_cancelled z.outcome)
            y.was_cancelled y.outcome)
        x.was_cancelled x.outcome

  -- The last request read the clock, before the snapshot expires.
  pub record Unexpired (t : Trace Reply) : Type 0 where
    pub time : ℕ
    pub earlier : Trace Reply
    pub last : t ≡ ((clock, time) ∷ earlier)
    pub fresh : is_expired s.dates latest.expires_at time ≡ false

  expiry-Ensures :
      {B : Type 0} (Q : Trace Reply → Outcome StorageFailure B → Type 0) (t : Trace Reply)
      (f : Unit {0} → S3 B)
      → ((t : Trace Reply) (e : StorageFailure) → Q t (raises e))
      → ((now : ℕ) → Unexpired ((clock, now) ∷ t) → Ensures Q ((clock, now) ∷ t) (f tt))
      → Ensures Q t (check_snapshot_expiry s latest >>= f)
  expiry-Ensures Q t f bad good now =
      if_cases (λ p. Ensures Q ((clock, now) ∷ t) (p >>= f))
        (is_expired s.dates latest.expires_at now) (raise snapshot_expired) (give tt)
        (λ _. bad _ snapshot_expired)
        (λ fresh. good now (record { time = now; earlier = t; last = refl; fresh = fresh }))

  -- What the opener comes to, over what the cache had.
  abbrev pub Opened : Option Bytes → Trace Reply → Outcome StorageFailure Bytes → Type 0
  Opened cached t (raises e) = Unit
  Opened cached t (returns content) = Unexpired t × ((cached ≡ some content) ⊎ IsVerified content t)

  abbrev Stored : Bytes → Trace Reply → Outcome StorageFailure (Unit {0}) → Type 0
  Stored content t (raises e) = Unit
  Stored content t (returns u) = IsVerified content t

  put_cached-Stored :
      (t : Trace Reply) (content : Bytes)
      → IsVerified content t
      → (b : Bool) (o : Outcome StorageFailure (Unit {0}))
      → Ensures (Stored content) t (owned_outcome (record { was_cancelled = b; outcome = o }))
  put_cached-Stored t content v true o = tt
  put_cached-Stored t content v false (raises e) = tt
  put_cached-Stored t content v false (returns u) = v

  cache_payload-Stored :
      (t : Trace Reply) (content : Bytes)
      → IsVerified content t
      → Ensures (Stored content) t (cache_payload s has_cache ref latest content)
  cache_payload-Stored t content v =
      if_cases (λ p. Ensures (Stored content) t p) has_cache
        (call (put_cached (registry_key ref) latest.version content) owned_outcome) (give tt)
        (λ _ x. put_cached-Stored _ content (later content _ t v) x.was_cancelled x.outcome)
        (λ _. v)

  serve_payload-Opened :
      (t : Trace Reply) (content : Bytes)
      → IsVerified content t
      → Ensures (Opened none) t (serve_payload s has_cache ref latest content)
  serve_payload-Opened t content v =
      expiry-Ensures (Opened none) t _ (λ t e. tt)
        λ now _.
          Ensures-bind (Stored content) (Opened none) ((clock, now) ∷ t)
            (cache_payload s has_cache ref latest content) _
            (cache_payload-Stored ((clock, now) ∷ t) content (later content (clock, now) t v))
            (λ t₁ _ v₁.
              expiry-Ensures (Opened none) t₁ _ (λ t e. tt)
                λ now fresh. (fresh, inr (later content (clock, now) t₁ v₁)))
            (λ t₁ e h. tt)

  unlinked-Opened :
      (t : Trace Reply) (content : Bytes)
      → IsVerified content t
      → (b : Bool) (o : Outcome StorageFailure (Unit {0}))
      → Ensures (Opened none) t (
          from_outcome (
            behind_unlink s has_cache ref latest
              (returns content)
              (record { was_cancelled = b; outcome = o }))
          >>= serve_payload s has_cache ref latest)
  unlinked-Opened t content v true o = tt
  unlinked-Opened t content v false (raises e) = tt
  unlinked-Opened t content v false (returns u) = serve_payload-Opened t content v

  fetched-Opened :
      (t : Trace Reply) (o : Outcome StorageFailure Bytes)
      → Fetched t o
      → (u : Drained (Unit {0}))
      → Ensures (Opened none) ((unlink_staging, u) ∷ t) (
          from_outcome (behind_unlink s has_cache ref latest o u)
          >>= serve_payload s has_cache ref latest)
  fetched-Opened t (raises e) h u = tt
  fetched-Opened t (returns content) h u =
      unlinked-Opened _ content (later content (unlink_staging, u) t h) u.was_cancelled u.outcome

  download-Opened :
      (t : Trace Reply) (b : Bool) (o : Outcome StorageFailure (Unit {0}))
      → Ensures (Opened none) t (download s has_cache ref latest b o)
  download-Opened t b (raises e) = tt
  download-Opened t true (returns u) = λ _. tt
  download-Opened t false (returns u) =
      Ensures-try Fetched (Opened none) t (fetch_verified s has_cache ref latest) _
        (fetch_verified-Fetched t) fetched-Opened

  open_uncached-Opened :
      (t : Trace Reply) (cached : Option Bytes)
      → Unexpired t
      → Ensures (Opened cached) t (open_uncached s has_cache ref latest cached)
  open_uncached-Opened t (some content) fresh = (fresh, inl refl)
  open_uncached-Opened t none fresh = λ c. download-Opened _ c.was_cancelled c.outcome

-- Whatever the storage answers, the content that a restored snapshot yields is what the cache had, or was
-- read from a file that was downloaded in the registered size and had the registered checksum; and the
-- last request was a reading of the clock before the snapshot expires.
pub open_snapshot-Opened :
    (s : Settings) (has_cache : Bool) (ref : StateRef) (latest : LatestEntry)
    (cached : Option Bytes) (env : Environment Reply)
    → Opened s has_cache ref latest cached
        (execute env [] (open_snapshot s has_cache ref latest cached)).0
        (execute env [] (open_snapshot s has_cache ref latest cached)).1
unfolding open_snapshot
open_snapshot-Opened s has_cache ref latest cached env =
    let Q = Opened s has_cache ref latest cached in
    Ensures-execute Q env [] (open_snapshot s has_cache ref latest cached) (
      expiry-Ensures s has_cache ref latest Q [] _ (λ t e. tt)
        λ now fresh. open_uncached-Opened s has_cache ref latest _ cached fresh)
