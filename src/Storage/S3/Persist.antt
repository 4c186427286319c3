-- ===== src/Storage/S3/Persist.antt =====
-- storage/s3.py: `persist` with the functions that it calls. A snapshot is received in a staging file,
-- and committed: uploaded, then published in the registry, then recorded.
use ach_agent.Base.{
  ℕ, String, Bool, true, false, not, ◌&&◌, ◌||◌, Option, none, some, ◌==◌, nat_eq, string_eq,
  if◌then◌else◌,
}
use ach_agent.Base.Equality.{option_eq}
use ach_agent.Base.Program.{
  Program, give, raise, call, Outcome, returns, raises, ◌>>=◌, from_outcome,
}
use ach_agent.Storage.Capped.{write_capped, WriteOutcome, returned, raises_cancelled, raises_error}
use ach_agent.Storage.Fencing.{LatestEntry, RegistryDoc, WriterLease, assert_lease_current}
use ach_agent.Storage.Refs.{StateRef, ref_eq, snapshot_key}
use ach_agent.Storage.S3.Documents.{PersistReceipt}
use ach_agent.Storage.S3.Requests.{
  StorageFailure, fenced, cancelled, restore_failed, snapshot_conflict, runtime_error,
  is_precondition_failed, Owner, Head, Writing, put_snapshot, head_object, create_staging,
  write_stream, hash_staging, unlink_staging, Reply, S3, Settings,
}
use ach_agent.Storage.S3.Registry.{latest_eq, require_client, legacy, write_commit_record}
use ach_agent.Storage.S3.Acquire.{doc_of}

-- `write_capped` of the staging file
abbrev written_size : WriteOutcome → StorageFailure → Outcome StorageFailure ℕ
written_size (returned n) e = returns n
written_size raises_cancelled e = raises cancelled
written_size raises_error e = raises e

abbrev pub received_size : Settings → Writing → Outcome StorageFailure ℕ
received_size s w =
    written_size
      (write_capped s.max_snapshot_bytes w.opens w.chunks w.stream_raises w.closes w.unlinks).0
      w.error

-- The staging file is removed, and the failure raised whatever comes of that.
abbrev pub unlink_and_raise {ℓ} : {A : Type ℓ} → StorageFailure → Program Reply StorageFailure A
unlink_and_raise e = call unlink_staging λ _. raise e

abbrev pub checksum_and_size : ℕ → Bool → Outcome StorageFailure String → S3 (String × ℕ)
checksum_and_size size was_cancelled (raises e) =
    unlink_and_raise (if was_cancelled then cancelled else e)
checksum_and_size size was_cancelled (returns checksum) =
    if was_cancelled then unlink_and_raise cancelled else give (checksum, size)

abbrev pub hash_of_size : Outcome StorageFailure ℕ → S3 (String × ℕ)
hash_of_size (raises e) = raise e
hash_of_size (returns size) =
    call hash_staging λ h. checksum_and_size size h.was_cancelled h.outcome

abbrev pub staged : Settings → Bool → Outcome StorageFailure (Unit {0}) → S3 (String × ℕ)
staged s was_cancelled (raises e) = raise (if was_cancelled then cancelled else e)
staged s was_cancelled (returns u) =
    if was_cancelled
    then unlink_and_raise cancelled
    else call write_stream λ w. hash_of_size (received_size s w)

-- the checksum and the size of the stream
unfoldable pub receive_bounded : Settings → S3 (String × ℕ)
unfolding write_capped
receive_bounded s = call create_staging λ c. staged s c.was_cancelled c.outcome

-- Whether the object that is there has these bytes, and was uploaded by this attempt.
abbrev pub existing : String → ℕ → Owner → Bool → Outcome StorageFailure Head → S3 Bool
existing checksum size owner true o = raise cancelled
existing checksum size owner false (raises e) = raise e
existing checksum size owner false (returns head) =
    if not (head.sha256 == some checksum) || not (head.content_length == some size)
    then raise snapshot_conflict
    else give (
        (head.writer_epoch == some owner.epoch)
        && (head.writer_instance_id == some owner.writer_instance_id)
        && (head.base_generation == some owner.generation))

abbrev pub uploaded :
    StateRef → String → String → ℕ → Owner → Bool → Outcome StorageFailure (Unit {0}) → S3 Bool
uploaded ref snapshot_id checksum size owner true o = raise cancelled
uploaded ref snapshot_id checksum size owner false (returns u) = give true
uploaded ref snapshot_id checksum size owner false (raises e) =
    if not (is_precondition_failed e)
    then raise e
    else call (head_object (snapshot_key ref snapshot_id))
        λ h. existing checksum size owner h.was_cancelled h.outcome

unfoldable pub upload_snapshot_immutable :
    Settings → StateRef → String → String → ℕ → Owner → S3 Bool
unfolding is_precondition_failed
upload_snapshot_immutable s ref snapshot_id checksum size owner = do
  client ← require_client s
  call (put_snapshot (snapshot_key ref snapshot_id) checksum owner)
      λ r. uploaded ref snapshot_id checksum size owner r.was_cancelled r.outcome

-- The latest entry is this very snapshot.
abbrev pub is_snapshot : String → String → ℕ → Option LatestEntry → Bool
is_snapshot snapshot_id checksum size none = false
is_snapshot snapshot_id checksum size (some e) =
    (e.snapshot_id == snapshot_id) && (e.checksum == checksum) && (e.size == size)

abbrev pub receipt_of :
    StateRef → RegistryDoc → String → ℕ → Option LatestEntry → Outcome StorageFailure PersistReceipt
receipt_of ref doc etag retention_days none = raises runtime_error
receipt_of ref doc etag retention_days (some e) =
    if legacy retention_days e.committed_at
    then raises restore_failed
    else returns (record {
      ref = ref;
      snapshot_id = e.snapshot_id;
      writer_epoch = doc.writer_epoch;
      generation = doc.generation;
      etag = etag;
      checksum = e.checksum;
      size = e.size;
      version = e.version;
      committed_at = e.committed_at;
      expires_at = e.expires_at;
    })

-- _receipt_from
unfoldable pub receipt_from :
    StateRef → RegistryDoc → String → ℕ → Outcome StorageFailure PersistReceipt
receipt_from ref doc etag retention_days = receipt_of ref doc etag retention_days doc.latest

-- The receipt of the latest entry, recorded.
abbrev pub repaired : Settings → StateRef → RegistryDoc → String → ℕ → S3 PersistReceipt
repaired s ref doc etag retention_days = do
  receipt ← from_outcome (receipt_from ref doc etag retention_days)
  recorded ← write_commit_record s ref receipt
  give receipt

abbrev pub present : Option (RegistryDoc × String) → Outcome StorageFailure (RegistryDoc × String)
present none = raises runtime_error
present (some current) = returns current

-- assert_lease_current, and `assert current is not None`
unfoldable pub checked_lease :
    WriterLease → Option (RegistryDoc × String) → Outcome StorageFailure (RegistryDoc × String)
unfolding assert_lease_current
checked_lease lease current = elim (assert_lease_current (doc_of current) lease) [
  | some why ↦ raises (fenced why)
  | none ↦ present current
]
