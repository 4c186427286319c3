-- ===== src/Storage/S3/Restore.antt =====
-- storage/s3.py: `restore` with the opener of its receipt. The requests to the cache stand for the calls
-- of `BoundedCache`, whose file names are made of the registry's key; a payload is yielded once.
pub mod Verified
use ach_agent.Base.{
  ℕ, String, Bool, true, false, not, ◌||◌, Option, none, some, leb, ltb, ◌==◌, nat_eq, string_eq,
  if◌then◌else◌,
}
use ach_agent.Base.Equality.{option_eq}
use ach_agent.Base.Program.{
  Program, give, raise, call, Outcome, returns, raises, ◌>>=◌, attempt, from_outcome, and_then,
}
use ach_agent.Storage.Cache.{Bytes}
use ach_agent.Storage.Fencing.{LatestEntry, RegistryDoc}
use ach_agent.Storage.Refs.{StateRef, ObjectKey, registry_key, snapshot_key}
use ach_agent.Storage.S3.Documents.{Dates, instant}
use ach_agent.Storage.S3.Requests.{
  StorageFailure, cancelled, restore_failed, snapshot_expired, is_not_found, Head, Drained, clock,
  create_staging, hash_staging, unlink_staging, check_object, download_capped, read_staging,
  get_cached, put_cached, Reply, S3, Settings,
}
use ach_agent.Storage.S3.Registry.{require_client, legacy, read_registry}
use ach_agent.Storage.S3.Persist.{unlink_and_raise}

-- _check_snapshot_expiry
unfoldable pub is_expired : Dates → Option String → ℕ → Bool
is_expired d none now = false
is_expired d (some expires_at) now = leb (instant d expires_at) (instant d (d.format now))

abbrev pub fresh_at : Settings → LatestEntry → ℕ → S3 (Unit {0})
fresh_at s latest now =
    if is_expired s.dates latest.expires_at now then raise snapshot_expired else give tt

abbrev pub check_snapshot_expiry : Settings → LatestEntry → S3 (Unit {0})
check_snapshot_expiry s latest = call clock (fresh_at s latest)

-- `_run_owned`: a cancellation comes first
abbrev pub owned_outcome : {A : Type 0} → Drained A → S3 A
owned_outcome x = if x.was_cancelled then raise cancelled else from_outcome x.outcome

abbrev pub require_equal : Bool → S3 (Unit {0})
require_equal true = give tt
require_equal false = raise restore_failed

module _ (s : Settings) (has_cache : Bool) (ref : StateRef) (latest : LatestEntry) where
  -- the bytes in the staging file, once their size and their checksum are checked
  abbrev pub fetch_verified : S3 Bytes
  fetch_verified = do
    size ← call (download_capped (snapshot_key ref latest.snapshot_id)) owned_outcome
    sized ← require_equal (size == latest.size)
    checksum ← call hash_staging owned_outcome
    same ← require_equal (checksum == latest.checksum)
    call read_staging owned_outcome

  -- behind the unlink of the staging file
  abbrev pub behind_unlink :
      Outcome StorageFailure Bytes → Drained (Unit {0}) → Outcome StorageFailure Bytes
  behind_unlink (raises e) u = raises e
  behind_unlink (returns payload) u =
      if u.was_cancelled then raises cancelled else and_then u.outcome λ _. returns payload

  abbrev pub cache_payload : Bytes → S3 (Unit {0})
  cache_payload payload =
      if has_cache
      then call (put_cached (registry_key ref) latest.version payload) owned_outcome
      else give tt

  abbrev pub serve_payload : Bytes → S3 Bytes
  serve_payload payload = do
    fresh ← check_snapshot_expiry s latest
    stored ← cache_payload payload
    still ← check_snapshot_expiry s latest
    give payload

  abbrev pub download : Bool → Outcome StorageFailure (Unit {0}) → S3 Bytes
  download was_cancelled (raises e) = raise (if was_cancelled then cancelled else e)
  download true (returns u) = unlink_and_raise cancelled
  download false (returns u) = do
    payload ← attempt fetch_verified
    content ← call unlink_staging λ u. from_outcome (behind_unlink payload u)
    serve_payload content

  abbrev pub open_uncached : Option Bytes → S3 Bytes
  open_uncached (some content) = give content
  open_uncached none = call create_staging λ c. download c.was_cancelled c.outcome

  -- _open
  unfoldable pub open_snapshot : Option Bytes → S3 Bytes
  unfolding is_expired
  open_snapshot cached = check_snapshot_expiry s latest >>= λ _. open_uncached cached

  -- the object must be there, in its size, unless the cache has it
  abbrev pub object_checked : Outcome StorageFailure Head → S3 (Unit {0})
  object_checked (raises e) = raise (if is_not_found e then restore_failed else e)
  object_checked (returns head) = require_equal (head.content_length == some latest.size)

  abbrev pub check_uncached : Option Bytes → S3 (Unit {0})
  check_uncached (some content) = give tt
  check_uncached none = call (check_object (snapshot_key ref latest.snapshot_id)) object_checked

  abbrev pub read_cache : S3 (Option Bytes)
  read_cache =
      if has_cache
      then call (get_cached (registry_key ref) latest.version latest.checksum) owned_outcome
      else give none

-- RestoreReceipt; the entry has its snapshot, checksum, size, version and dates.
pub record RestoreReceipt : Type 0 where
  pub ref : StateRef
  pub writer_epoch : ℕ
  pub generation : ℕ
  pub etag : String
  pub entry : LatestEntry
  pub opener : S3 Bytes

abbrev pub restore_latest :
    Settings
    → Bool
    → StateRef
    → ℕ
    → RegistryDoc
    → String
    → Option LatestEntry
    → S3 (Option RestoreReceipt)
restore_latest s has_cache ref retention_days doc etag none = give none
restore_latest s has_cache ref retention_days doc etag (some latest) =
    if legacy retention_days latest.committed_at then raise restore_failed else do
      fresh ← check_snapshot_expiry s latest
      fits ← require_equal (leb latest.size s.max_snapshot_bytes)
      cached ← read_cache s has_cache ref latest
      checked ← check_uncached s has_cache ref latest cached
      give (
          some (record {
            ref = ref;
            writer_epoch = doc.writer_epoch;
            generation = doc.generation;
            etag = etag;
            entry = latest;
            opener = open_snapshot s has_cache ref latest cached;
          }))

abbrev pub restore_registry :
    Settings → Bool → StateRef → ℕ → Option (RegistryDoc × String) → S3 (Option RestoreReceipt)
restore_registry s has_cache ref retention_days none = give none
restore_registry s has_cache ref retention_days (some (doc, etag)) =
    restore_latest s has_cache ref retention_days doc etag doc.latest

unfoldable pub restore : Settings → Bool → StateRef → ℕ → S3 (Option RestoreReceipt)
unfolding read_registry is_expired open_snapshot is_not_found
restore s has_cache ref retention_days = do
  client ← require_client s
  current ← read_registry s ref
  restore_registry s has_cache ref retention_days current
