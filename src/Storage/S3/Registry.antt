-- ===== src/Storage/S3/Registry.antt =====
-- storage/s3.py: the registry of a domain and the commit records, read and conditionally written, and
-- the acquisition of a lease.
pub mod Reads
pub mod Records
pub mod ReadBack
use ach_agent.Base.{
  Eq, ◌≡◌, refl, ℕ, zero, suc, String, Bool, true, false, not, ◌&&◌, ◌||◌, Option, none, some, List,
  [], ◌∷◌, ltb, ◌==◌, nat_eq, string_eq, if◌then◌else◌,
}
use ach_agent.Base.Equality.{eq_view, pair_eq, option_eq}
use ach_agent.Base.Program.{
  Program, give, raise, call, Outcome, returns, raises, ◌>>=◌, and_then, from_outcome,
}
use ach_agent.Storage.Fencing.{
  LatestEntry, RegistryDoc, WriterLease, assert_lease_current, acquired, lease_on, Fenced,
}
use ach_agent.Storage.Refs.{StateRef, ref_eq, ObjectKey, registry_key, commit_record_key}
use ach_agent.Storage.S3.Documents.{
  PersistReceipt, CommitRecord, receipt_of_record, validate_registry_doc, validate_commit_record,
  registry_document, commit_document,
}
use ach_agent.Storage.S3.Requests.{
  StorageFailure, cancelled, storage_unavailable, restore_failed, snapshot_transient,
  precondition_failed, runtime_error, is_not_found, is_precondition_failed, is_snapshot_transient,
  Fetched, Condition, if_none_match, if_match, StorageRequest, get_object, put_object, Reply, S3,
  Settings,
}

-- == of LatestEntry and of PersistReceipt
instance abbrev pub latest_eq : Eq LatestEntry
latest_eq =
    eq_view {B = ((String × String) × (ℕ × ℕ)) × (Option String × Option String)}
      (λ e. (((e.snapshot_id, e.checksum), (e.size, e.version)), (e.committed_at, e.expires_at)))
      (λ p. record {
        snapshot_id = p.0.0.0;
        checksum = p.0.0.1;
        size = p.0.1.0;
        version = p.0.1.1;
        committed_at = p.1.0;
        expires_at = p.1.1;
      })
      (λ e. refl)

instance abbrev pub receipt_eq : Eq PersistReceipt
receipt_eq =
    eq_view
      {B = (((StateRef × String) × (ℕ × ℕ)) × ((String × String) × (ℕ × ℕ)))
        × (Option String × Option String)}
      (λ r. (
        (
          ((r.ref, r.snapshot_id), (r.writer_epoch, r.generation)),
          ((r.etag, r.checksum), (r.size, r.version)),
        ),
        (r.committed_at, r.expires_at),
      ))
      (λ p. record {
        ref = p.0.0.0.0;
        snapshot_id = p.0.0.0.1;
        writer_epoch = p.0.0.1.0;
        generation = p.0.0.1.1;
        etag = p.0.1.0.0;
        checksum = p.0.1.0.1;
        size = p.0.1.1.0;
        version = p.0.1.1.1;
        committed_at = p.1.0;
        expires_at = p.1.1;
      })
      (λ r. refl)

-- _CAS_RETRY_LIMIT, _MAX_REGISTRY_BYTES
abbrev pub cas_retry_limit : ℕ
cas_retry_limit = 20

abbrev pub max_registry_bytes : ℕ
max_registry_bytes = 65536

abbrev pub require_client : Settings → S3 (Unit {0})
require_client s = if s.configured then give tt else raise storage_unavailable

-- _fetch_with_etag, behind the request
abbrev pub bounded : Outcome StorageFailure Fetched → Outcome StorageFailure Fetched
bounded (raises e) = raises e
bounded (returns f) = if ltb max_registry_bytes f.size then raises restore_failed else returns f

abbrev pub checked {ℓ} : {A : Type ℓ} → Option A → Outcome StorageFailure A
checked none = raises restore_failed
checked (some a) = returns a

-- a missing object is None; the body is parsed and checked
unfoldable pub decode_registry :
    Settings
    → Outcome StorageFailure Fetched
    → Outcome StorageFailure (Option (RegistryDoc × String))
unfolding is_not_found validate_registry_doc
decode_registry s (raises e) = if is_not_found e then returns none else raises e
decode_registry s (returns f) = and_then (checked f.json) λ value.
    and_then (checked (validate_registry_doc s.dates value)) λ doc. returns (some (doc, f.etag))

unfoldable pub read_registry : Settings → StateRef → S3 (Option (RegistryDoc × String))
unfolding decode_registry
read_registry s ref = do
  client ← require_client s
  call (get_object (registry_key ref)) λ reply. from_outcome (decode_registry s (bounded reply))

-- `retention_days` with no commit date is refused.
abbrev pub legacy : ℕ → Option String → Bool
legacy retention_days (some c) = false
legacy retention_days none = ltb 0 retention_days

-- The record must be for the snapshot that was asked for.
abbrev pub accepted :
    StateRef → String → ℕ → CommitRecord → Outcome StorageFailure (Option PersistReceipt)
accepted ref snapshot_id retention_days q =
    if not (q.snapshot_id == snapshot_id) || legacy retention_days q.retention.committed_at
    then raises restore_failed
    else returns (some (receipt_of_record ref q))

unfoldable pub decode_commit_record :
    Settings
    → StateRef
    → String
    → ℕ
    → Outcome StorageFailure Fetched
    → Outcome StorageFailure (Option PersistReceipt)
unfolding is_not_found validate_commit_record
decode_commit_record s ref snapshot_id retention_days (raises e) =
    if is_not_found e then returns none else raises e
decode_commit_record s ref snapshot_id retention_days (returns f) =
    and_then (checked f.json) λ value.
      and_then (checked (validate_commit_record s.dates value))
        (accepted ref snapshot_id retention_days)

unfoldable pub read_commit_record : Settings → StateRef → String → ℕ → S3 (Option PersistReceipt)
unfolding decode_commit_record
read_commit_record s ref snapshot_id retention_days = do
  client ← require_client s
  call (get_object (commit_record_key ref snapshot_id))
      λ reply. from_outcome (decode_commit_record s ref snapshot_id retention_days (bounded reply))

-- A collision is read back: it must be this very receipt.
abbrev pub same_receipt : PersistReceipt → Option PersistReceipt → S3 (Unit {0})
same_receipt r existing = if existing == some r then give tt else raise restore_failed

abbrev pub recorded :
    Settings → StateRef → PersistReceipt → Outcome StorageFailure String → S3 (Unit {0})
recorded s ref r (returns etag) = give tt
recorded s ref r (raises e) =
    if is_precondition_failed e
    then read_commit_record s ref r.snapshot_id 0 >>= same_receipt r
    else raise e

unfoldable pub write_commit_record : Settings → StateRef → PersistReceipt → S3 (Unit {0})
unfolding is_precondition_failed read_commit_record commit_document
write_commit_record s ref r = do
  client ← require_client s
  call (put_object (commit_record_key ref r.snapshot_id) (commit_document r) if_none_match)
      (recorded s ref r)

abbrev pub condition_on : Option String → Condition
condition_on none = if_none_match
condition_on (some etag) = if_match etag

abbrev pub replaced : Outcome StorageFailure String → S3 String
replaced (returns etag) = give etag
replaced (raises e) = if is_precondition_failed e then raise precondition_failed else raise e

unfoldable pub cas_write_registry : Settings → StateRef → RegistryDoc → Option String → S3 String
unfolding is_precondition_failed registry_document
cas_write_registry s ref doc expected = do
  client ← require_client s
  call (put_object (registry_key ref) (registry_document doc) (condition_on expected)) replaced

abbrev current_writer_of : Option (RegistryDoc × String) → Option String
current_writer_of none = none
current_writer_of (some (doc, etag)) = some doc.writer_instance_id

unfoldable pub current_writer : Settings → StateRef → S3 (Option String)
unfolding read_registry
current_writer s ref = do
  client ← require_client s
  current ← read_registry s ref
  give (current_writer_of current)
