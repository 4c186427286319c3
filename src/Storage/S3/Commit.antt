-- ===== src/Storage/S3/Commit.antt =====
-- storage/s3.py: `_commit` of `persist`, with its reconciliation, and `persist` around it.
pub mod Receipts
pub mod Once
pub mod Prepared
pub mod Persisted
use ach_agent.Base.{
  ℕ, ◌+◌, ◌*◌, String, Bool, true, false, not, ◌&&◌, ◌||◌, Option, none, some, ltb, ◌==◌, nat_eq,
  string_eq, if◌then◌else◌,
}
use ach_agent.Base.Equality.{option_eq}
use ach_agent.Base.Program.{
  Program, give, raise, call, Outcome, returns, raises, ◌>>=◌, attempt, from_outcome, and_then,
}
use ach_agent.Storage.Fencing.{LatestEntry, RegistryDoc, WriterLease, with_committed_snapshot}
use ach_agent.Storage.Refs.{StateRef, ref_eq}
use ach_agent.Storage.S3.Documents.{PersistReceipt, instant}
use ach_agent.Storage.S3.Requests.{
  StorageFailure, cancelled, other_ref, snapshot_conflict, concurrent_modification, lost_race,
  as_transient, Owner, Drained, unlink_staging, clock, Reply, S3, Settings,
}
use ach_agent.Storage.S3.Registry.{
  latest_eq, read_registry, read_commit_record, write_commit_record, cas_write_registry,
}
use ach_agent.Storage.S3.Persist.{
  receive_bounded, upload_snapshot_immutable, is_snapshot, repaired, checked_lease,
}

-- an `except asyncio.CancelledError`, which no `except Exception` is
abbrev pub is_cancelled : StorageFailure → Bool
is_cancelled cancelled = true
is_cancelled e = false

-- _version of the next commit
abbrev next_version : Option LatestEntry → ℕ
next_version none = 1
next_version (some e) = e.version + 1

-- timedelta(days=...) in microseconds
abbrev days_long : ℕ → ℕ
days_long n = n * 86400000000

-- What a commit is about: the domain, the snapshot, the lease with the base that the caller expects,
-- and the document and the ETag that the registry had.
pub record Commit : Type 0 where
  pub ref : StateRef
  pub snapshot_id : String
  pub lease : WriterLease
  pub expected_base : Option String
  pub retention_days : ℕ
  pub checksum : String
  pub size : ℕ
  pub current : RegistryDoc
  pub current_etag : String

module _ (s : Settings) (c : Commit) where
  -- the receipt where the registry holds the commit, and the latest entry that it holds
  abbrev pub reconciled : RegistryDoc × String → S3 (Option PersistReceipt × Option LatestEntry)
  reconciled (doc, etag) =
      if is_snapshot c.snapshot_id c.checksum c.size doc.latest
      then (repaired s c.ref doc etag c.retention_days >>= λ receipt.
          give (some receipt, doc.latest))
      else give (none, doc.latest)

  -- _reconciled_receipt_if_applied
  unfoldable pub reconciled_receipt_if_applied : S3 (Option PersistReceipt × Option LatestEntry)
  unfolding read_registry checked_lease write_commit_record
  reconciled_receipt_if_applied = do
    refreshed ← read_registry s c.ref
    refreshed' ← from_outcome (checked_lease c.lease refreshed)
    reconciled refreshed'

  -- behind a write that was rejected, or that failed with `e`
  abbrev pub or_conflict : Option PersistReceipt × Option LatestEntry → S3 PersistReceipt
  or_conflict (some receipt, latest) = give receipt
  or_conflict (none, latest) = raise concurrent_modification

  abbrev pub or_failure :
      StorageFailure → Option PersistReceipt × Option LatestEntry → S3 PersistReceipt
  or_failure e (some receipt, latest) = give receipt
  or_failure e (none, latest) =
      raise (if latest == c.current.latest then e else concurrent_modification)

  abbrev pub new_entry : ℕ → LatestEntry
  new_entry now =
      let committed_at = s.dates.format now in
      record {
        snapshot_id = c.snapshot_id;
        checksum = c.checksum;
        size = c.size;
        version = next_version c.current.latest;
        committed_at = some committed_at;
        expires_at =
            if ltb 0 c.retention_days
            then some (s.dates.format (instant s.dates committed_at + days_long c.retention_days))
            else none;
      }

  unfoldable pub new_doc : LatestEntry → RegistryDoc
  unfolding with_committed_snapshot
  new_doc entry = with_committed_snapshot c.lease.epoch c.lease.writer_instance_id entry c.current

  abbrev pub new_receipt : LatestEntry → String → PersistReceipt
  new_receipt entry etag = record {
    ref = c.ref;
    snapshot_id = c.snapshot_id;
    writer_epoch = c.lease.epoch;
    generation = (new_doc entry).generation;
    etag = etag;
    checksum = c.checksum;
    size = c.size;
    version = entry.version;
    committed_at = entry.committed_at;
    expires_at = entry.expires_at;
  }

  abbrev pub conclude : LatestEntry → Outcome StorageFailure String → S3 PersistReceipt
  conclude entry (returns etag) = do
    recorded ← write_commit_record s c.ref (new_receipt entry etag)
    give (new_receipt entry etag)
  conclude entry (raises e) =
      if lost_race e
      then reconciled_receipt_if_applied >>= or_conflict
      else if is_cancelled e
      then raise e
      else reconciled_receipt_if_applied >>= or_failure e

  -- the ETag to write over
  abbrev pub base : Option String → Option LatestEntry → Option String
  base (some etag) latest = some etag
  base none none = some c.current_etag
  base none (some entry) = none

  abbrev pub publish_over : Option String → S3 PersistReceipt
  publish_over none = raise concurrent_modification
  publish_over (some etag) = call clock λ now.
      attempt (cas_write_registry s c.ref (new_doc (new_entry now)) (some etag))
      >>= conclude (new_entry now)

  abbrev pub owner : Owner
  owner = record {
    epoch = c.lease.epoch;
    writer_instance_id = c.lease.writer_instance_id;
    generation = c.current.generation;
  }

  abbrev pub publish_new : Bool → S3 PersistReceipt
  publish_new is_ours =
      if is_ours
      then publish_over (base c.expected_base c.current.latest)
      else raise concurrent_modification

  -- without a record of the snapshot
  abbrev pub commit_new : S3 PersistReceipt
  commit_new =
      if is_snapshot c.snapshot_id c.checksum c.size c.current.latest
      then repaired s c.ref c.current c.current_etag c.retention_days
      else upload_snapshot_immutable s c.ref c.snapshot_id c.checksum c.size owner >>= publish_new

  abbrev pub commit_again : Option PersistReceipt → S3 PersistReceipt
  commit_again none = commit_new
  commit_again (some historical) =
      if (historical.checksum == c.checksum) && (historical.size == c.size)
      then give historical
      else raise snapshot_conflict

  -- _commit
  unfoldable pub commit : S3 PersistReceipt
  unfolding read_commit_record cas_write_registry new_doc reconciled_receipt_if_applied
      upload_snapshot_immutable
  commit = read_commit_record s c.ref c.snapshot_id c.retention_days >>= commit_again

-- behind the unlink of the staging file: a failure of the commit comes first
abbrev pub finish_persist :
    Outcome StorageFailure PersistReceipt
    → Drained (Unit {0})
    → Outcome StorageFailure PersistReceipt
finish_persist (raises e) u = raises (as_transient e)
finish_persist (returns receipt) u =
    if u.was_cancelled then raises cancelled else and_then u.outcome λ _. returns receipt

abbrev pub commit_of :
    StateRef → String → WriterLease → Option String → ℕ → String × ℕ → RegistryDoc × String → Commit
commit_of ref snapshot_id lease expected_base retention_days (checksum, size) (doc, etag) = record {
  ref = ref;
  snapshot_id = snapshot_id;
  lease = lease;
  expected_base = expected_base;
  retention_days = retention_days;
  checksum = checksum;
  size = size;
  current = doc;
  current_etag = etag;
}

abbrev pub transient_or {ℓ} : {A : Type ℓ} → Outcome StorageFailure A → Outcome StorageFailure A
transient_or (returns a) = returns a
transient_or (raises e) = raises (as_transient e)

-- under a lease that is current
abbrev pub persist_over :
    Settings
    → StateRef
    → String
    → WriterLease
    → Option String
    → ℕ
    → RegistryDoc × String
    → S3 PersistReceipt
persist_over s ref snapshot_id lease expected_base retention_days current = do
  received ← receive_bounded s
  let c = commit_of ref snapshot_id lease expected_base retention_days received current
  result ← attempt (commit s c)
  call unlink_staging λ u. from_outcome (finish_persist result u)

unfoldable pub persist :
    Settings → StateRef → String → WriterLease → Option String → ℕ → S3 PersistReceipt
unfolding read_registry checked_lease receive_bounded commit
persist s ref snapshot_id lease expected_base retention_days =
    if not (lease.ref == ref) then raise other_ref else do
      read ← attempt (read_registry s ref)
      current ← from_outcome (transient_or read)
      leased ← from_outcome (checked_lease lease current)
      persist_over s ref snapshot_id lease expected_base retention_days leased
