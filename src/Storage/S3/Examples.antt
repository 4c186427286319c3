-- ===== src/Storage/S3/Examples.antt =====
-- Tests and witnesses of storage/s3.py: a storage without objects, which takes every write.
use ach_agent.Base.{
  Option, ◌≡◌, refl, ℕ, String, true, false, none, some, [], ◌∷◌, ◌==◌, string_eq, if◌then◌else◌,
  arith,
}
use ach_agent.Base.Program.{Outcome, returns, raises, execute, Environment}
use ach_agent.Base.Texts.{is_hex64}
use ach_agent.Channels.Event.{get_field}
use ach_agent.Storage.Capped.{Owned}
use ach_agent.Storage.Fencing.{LatestEntry, RegistryDoc, WriterLease}
use ach_agent.Storage.Refs.{commit_record_key, StateRef, session, registry_key}
use ach_agent.Storage.S3.Documents.{
  Dates, aware, malformed, PersistReceipt, validate_registry_doc, registry_document,
  commit_document,
}
use ach_agent.Storage.S3.Documents.RoundTrip.{
  IsDate, IsDoc, IsReceipt, validate_registry_doc-registry_document,
}
use ach_agent.Storage.S3.Requests.{
  check_object, download_capped, read_staging, get_cached, put_cached, StorageFailure, sdk, Fetched,
  Drained, get_object, put_object, put_snapshot, head_object, create_staging, write_stream,
  hash_staging, unlink_staging, clock, Reply, Settings,
}
use ach_agent.Storage.S3.Registry.{cas_retry_limit, read_commit_record}
use ach_agent.Storage.S3.Registry.ReadBack.{read_commit_record-commit_document}
use ach_agent.Storage.S3.Acquire.{acquire_writer}
use ach_agent.Storage.S3.Acquire.Bounded.{EndsWithin, acquire_writer-Leased}
use ach_agent.Storage.Cache.{Bytes}
use ach_agent.Storage.S3.Restore.{open_snapshot}
use ach_agent.Storage.S3.Restore.Verified.{Opened, open_snapshot-Opened}
use ach_agent.Storage.S3.Commit.{persist}
use ach_agent.Storage.S3.Commit.Persisted.{Persisted, persist-Persisted}

abbrev new_year : String
new_year = "2026-01-01T00:00:00Z"

abbrev one_date : Dates
one_date = record {
  parse = λ s. if s == new_year then aware 0 else malformed;
  format = λ n. new_year;
}

new_year-IsDate : IsDate one_date new_year
new_year-IsDate = record { there = refl; time = 0; parses = refl; formats = refl }

abbrev a_digest : String
a_digest = "0123456789abcdef0123456789abcdef0123456789abcdef0123456789abcdef"

abbrev an_entry : LatestEntry
an_entry = record {
  snapshot_id = "snap-1";
  checksum = a_digest;
  size = 512;
  version = 3;
  committed_at = some new_year;
  expires_at = none;
}

abbrev a_doc : RegistryDoc
a_doc = record {
  writer_epoch = 4;
  writer_instance_id = "pod-b";
  generation = 9;
  latest = some an_entry;
}

a_doc-IsDoc : IsDoc one_date a_doc
unfolding is_hex64
a_doc-IsDoc = record {
  epoch = omega arith;
  writer = refl;
  generation = omega arith;
  latest = record {
    named = refl;
    hashed = refl;
    versioned = omega arith;
    retention = new_year-IsDate;
  };
}

validate_registry_doc-registry_document_example :
    validate_registry_doc one_date (registry_document a_doc) ≡ some a_doc
validate_registry_doc-registry_document_example =
    validate_registry_doc-registry_document one_date a_doc a_doc-IsDoc

abbrev a_ref : StateRef
a_ref = record {
  agent = record { name = "a"; namespace = "ns"; uid = "u" };
  workspace_ref = a_digest;
  domain = session;
  session_ref = some a_digest;
}

abbrev a_receipt : PersistReceipt
a_receipt = record {
  ref = a_ref;
  snapshot_id = "snap-1";
  writer_epoch = 4;
  generation = 9;
  etag = "e9";
  checksum = a_digest;
  size = 512;
  version = 3;
  committed_at = none;
  expires_at = none;
}

a_receipt-IsReceipt : IsReceipt one_date a_receipt
unfolding is_hex64
a_receipt-IsReceipt = record {
  named = refl;
  epoch = omega arith;
  generation = omega arith;
  version = omega arith;
  tagged = refl;
  hashed = refl;
  retention = tt;
}

abbrev undisturbed : Owned
undisturbed = record { was_cancelled = false; raised = false }

abbrev drained : {A : Type 0} → A → Drained A
drained a = record { was_cancelled = false; outcome = returns a }

abbrev not_found : StorageFailure
not_found = sdk (record { code = "NoSuchKey"; type_name = "ClientError"; is_timeout = false })

-- The registry is as given, and there is no other object.
abbrev stored : Outcome StorageFailure Fetched → Environment Reply
stored registry t (get_object (registry_key ref)) = registry
stored registry t (get_object _) = raises not_found
stored registry t (put_object key document condition) = returns "e1"
stored registry t (put_snapshot key checksum owner) = drained tt
stored registry t (head_object key) = record { was_cancelled = false; outcome = raises not_found }
stored registry t create_staging = drained tt
stored registry t write_stream = record {
  opens = undisturbed;
  chunks = (5, undisturbed) ∷ [];
  stream_raises = false;
  closes = undisturbed;
  unlinks = undisturbed;
  error = not_found;
}
stored registry t hash_staging = drained a_digest
stored registry t unlink_staging = drained tt
stored registry t clock = 0
stored registry t (check_object key) = returns (record {
  content_length = some 512;
  sha256 = none;
  writer_epoch = none;
  writer_instance_id = none;
  base_generation = none;
})
stored registry t (download_capped key) = drained 512
stored registry t read_staging = drained (7 ∷ [])
stored registry t (get_cached key version checksum) = drained none
stored registry t (put_cached key version content) = drained tt

abbrev settings : Settings
settings = record { dates = one_date; configured = true; max_snapshot_bytes = 1024 }

abbrev recorded_object : Fetched
recorded_object = record { size = 400; json = some (commit_document a_receipt); etag = "c1" }

abbrev with_record : Environment Reply
with_record t (get_object (commit_record_key ref snapshot_id)) = returns recorded_object
with_record t r = stored (raises not_found) t r

read_commit_record-commit_document_example :
    (execute with_record [] (read_commit_record settings a_ref "snap-1" 0)).1
    ≡ returns (some a_receipt)
read_commit_record-commit_document_example =
    read_commit_record-commit_document settings a_receipt 0 recorded_object with_record refl
      a_receipt-IsReceipt refl (record { written = refl; small = omega arith }) refl

abbrev new_lease : WriterLease
new_lease = record { ref = a_ref; writer_instance_id = "pod-a"; epoch = 1; base_etag = none }

first_lease :
    (execute (stored (raises not_found)) [] (acquire_writer settings a_ref "pod-a")).1
    ≡ returns new_lease
unfolding acquire_writer
first_lease = refl

acquire_writer-Leased_example :
    EndsWithin settings a_ref "pod-a" cas_retry_limit
      (execute (stored (raises not_found)) [] (acquire_writer settings a_ref "pod-a"))
acquire_writer-Leased_example =
    acquire_writer-Leased settings a_ref "pod-a" (stored (raises not_found))

abbrev a_lease : WriterLease
a_lease = record { ref = a_ref; writer_instance_id = "pod-b"; epoch = 4; base_etag = some "e0" }

abbrev kept_doc : Environment Reply
kept_doc =
    stored (returns (record { size = 300; json = some (registry_document a_doc); etag = "e0" }))

persist-Persisted_example :
    let end = execute kept_doc [] (persist settings a_ref "snap-2" a_lease (some "e0") 30) in
    Persisted settings a_ref "snap-2" a_lease (some "e0") 30 end.0 end.1
persist-Persisted_example =
    persist-Persisted settings a_ref "snap-2" a_lease (some "e0") 30 kept_doc

-- The commit is version 4 and generation 10.
abbrev versioned : Outcome StorageFailure PersistReceipt → ℕ × ℕ
versioned (returns r) = (r.version, r.generation)
versioned (raises e) = (0, 0)

persist_next :
    versioned (execute kept_doc [] (persist settings a_ref "snap-2" a_lease (some "e0") 30)).1
    ≡ (4, 10)
unfolding persist get_field is_hex64
persist_next = refl

open_snapshot-Opened_example :
    Opened settings true a_ref an_entry none
      (execute kept_doc [] (open_snapshot settings true a_ref an_entry none)).0
      (execute kept_doc [] (open_snapshot settings true a_ref an_entry none)).1
open_snapshot-Opened_example = open_snapshot-Opened settings true a_ref an_entry none kept_doc

abbrev content_of : Outcome StorageFailure Bytes → Option Bytes
content_of (returns b) = some b
content_of (raises e) = none

-- The digest and the size match, so the content is yielded.
open_downloaded :
    content_of (execute kept_doc [] (open_snapshot settings true a_ref an_entry none)).1
    ≡ some (7 ∷ [])
unfolding open_snapshot
open_downloaded = refl
