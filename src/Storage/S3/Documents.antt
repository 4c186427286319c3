-- ===== src/Storage/S3/Documents.antt =====
-- storage/s3.py: the JSON documents of the registry and of a commit, written and checked. A check that
-- raises RestoreFailed gives `none`; the messages are left out.
pub mod RoundTrip
use ach_agent.Base.{
  ℕ, String, Bool, true, false, not, ◌&&◌, ◌||◌, Option, none, some, ltb, ◌==◌, nat_eq, string_eq,
  if◌then◌else◌,
}
use ach_agent.Base.Options.{◌>>=◌, ◌>>◌}
use ach_agent.Base.Texts.{is_hex64}
use ach_agent.Channels.Event.{Value, null, nonneg, str, object, Fields, end, field, get_field}
use ach_agent.Storage.Refs.{StateRef}
use ach_agent.Storage.Fencing.{LatestEntry, RegistryDoc}

-- datetime.fromisoformat, with "Z" for "+00:00": a ValueError, a date without a zone, or an instant.
pub data Parsed : Type 0 where
  malformed naive : Parsed
  aware : ℕ → Parsed

-- What the standard library's `datetime` computes.
pub record Dates : Type 0 where
  pub parse : String → Parsed
  -- an aware date in UTC, with "Z"
  pub format : ℕ → String

abbrev require : Bool → Option (Unit {0})
require true = some tt
require false = none

abbrev non_empty : Value → Option String
non_empty (str s) = if s == "" then none else some s
non_empty v = none

-- isinstance(value, int) and not isinstance(value, bool) and value > 0, or >= 0
abbrev positive : Value → Option ℕ
positive (nonneg n) = if ltb 0 n then some n else none
positive v = none

abbrev non_negative : Value → Option ℕ
non_negative (nonneg n) = some n
non_negative v = none

-- a checksum: _SHA256_HEX
abbrev checksum_of : Value → Option String
checksum_of (str s) = if is_hex64 s then some s else none
checksum_of v = none

abbrev formatted : Dates → Parsed → Option String
formatted d (aware t) = some (d.format t)
formatted d _ = none

-- _parse_retention_date
unfoldable pub parse_retention_date : Dates → Value → Option String
parse_retention_date d (str s) = if s == "" then none else formatted d (d.parse s)
parse_retention_date d v = none

-- the same with nullable=True
unfoldable pub parse_nullable_date : Dates → Value → Option (Option String)
unfolding parse_retention_date
parse_nullable_date d null = some none
parse_nullable_date d v = elim (parse_retention_date d v) [ none ↦ none | some s ↦ some (some s) ]

-- datetime.fromisoformat of a date that `_format_retention_date` wrote
abbrev pub instant : Dates → String → ℕ
instant d s = elim (d.parse s) [ aware t ↦ t | _ ↦ 0 ]

pub record Retention : Type 0 where
  pub committed_at : Option String
  pub expires_at : Option String

abbrev pub in_order : Dates → String → Option String → Bool
in_order d committed none = true
in_order d committed (some expires) = not (ltb (instant d expires) (instant d committed))

-- _validate_retention_metadata
unfoldable pub validate_retention : Dates → Option Value → Option Value → Option Retention
unfolding parse_retention_date parse_nullable_date
validate_retention d none none = some (record { committed_at = none; expires_at = none })
validate_retention d (some c) (some e) = do
  committed ← parse_retention_date d c
  expires ← parse_nullable_date d e
  require (in_order d committed expires)
  some (record { committed_at = some committed; expires_at = expires })
validate_retention d _ _ = none

-- _validate_latest_entry
unfoldable pub validate_latest : Dates → Value → Option LatestEntry
unfolding validate_retention
validate_latest d (object fs) = do
  snapshot_id ← get_field "snapshot_id" fs >>= non_empty
  checksum ← get_field "checksum" fs >>= checksum_of
  size ← get_field "size" fs >>= non_negative
  version ← get_field "version" fs >>= positive
  r ← validate_retention d (get_field "committed_at" fs) (get_field "expires_at" fs)
  some (record {
    snapshot_id = snapshot_id;
    checksum = checksum;
    size = size;
    version = version;
    committed_at = r.committed_at;
    expires_at = r.expires_at;
  })
validate_latest d v = none

-- an explicit null is "no commit yet"
unfoldable pub validate_latest_or_null : Dates → Value → Option (Option LatestEntry)
unfolding validate_latest
validate_latest_or_null d null = some none
validate_latest_or_null d v = elim (validate_latest d v) [
  | none ↦ none
  | some entry ↦ some (some entry)
]

-- _validate_registry_doc
unfoldable pub validate_registry_doc : Dates → Value → Option RegistryDoc
unfolding validate_latest_or_null
validate_registry_doc d (object fs) = do
  writer_epoch ← get_field "writer_epoch" fs >>= positive
  writer ← get_field "writer_instance_id" fs >>= non_empty
  generation ← get_field "generation" fs >>= positive
  latest ← get_field "latest" fs >>= validate_latest_or_null d
  some (record {
    writer_epoch = writer_epoch;
    writer_instance_id = writer;
    generation = generation;
    latest = latest;
  })
validate_registry_doc d v = none

pub record PersistReceipt : Type 0 where
  pub ref : StateRef
  pub snapshot_id : String
  pub writer_epoch : ℕ
  pub generation : ℕ
  pub etag : String
  pub checksum : String
  pub size : ℕ
  pub version : ℕ
  pub committed_at : Option String
  pub expires_at : Option String

-- The fields of a commit record, which _validate_commit_record leaves as they are.
pub record CommitRecord : Type 0 where
  pub snapshot_id : String
  pub writer_epoch : ℕ
  pub generation : ℕ
  pub version : ℕ
  pub size : ℕ
  pub etag : String
  pub checksum : String
  pub retention : Retention

unfoldable pub validate_commit_record : Dates → Value → Option CommitRecord
unfolding validate_retention
validate_commit_record d (object fs) = do
  snapshot_id ← get_field "snapshot_id" fs >>= non_empty
  writer_epoch ← get_field "writer_epoch" fs >>= positive
  generation ← get_field "generation" fs >>= positive
  version ← get_field "version" fs >>= positive
  size ← get_field "size" fs >>= non_negative
  etag ← get_field "etag" fs >>= non_empty
  checksum ← get_field "checksum" fs >>= checksum_of
  r ← validate_retention d (get_field "committed_at" fs) (get_field "expires_at" fs)
  some (record {
    snapshot_id = snapshot_id;
    writer_epoch = writer_epoch;
    generation = generation;
    version = version;
    size = size;
    etag = etag;
    checksum = checksum;
    retention = r;
  })
validate_commit_record d v = none

-- the receipt that _read_commit_record builds
abbrev pub receipt_of_record : StateRef → CommitRecord → PersistReceipt
receipt_of_record ref q = record {
  ref = ref;
  snapshot_id = q.snapshot_id;
  writer_epoch = q.writer_epoch;
  generation = q.generation;
  etag = q.etag;
  checksum = q.checksum;
  size = q.size;
  version = q.version;
  committed_at = q.retention.committed_at;
  expires_at = q.retention.expires_at;
}

abbrev nullable : Option String → Value
nullable none = null
nullable (some s) = str s

-- `expires_at` and `committed_at` are left out where there is no `committed_at`.
abbrev pub retention_fields : Option String → Option String → Fields → Fields
retention_fields none expires rest = rest
retention_fields (some committed) expires rest =
    field "committed_at" (str committed) (field "expires_at" (nullable expires) rest)

abbrev pub latest_document : Option LatestEntry → Value
latest_document none = null
latest_document (some entry) = object (
    field "snapshot_id" (str entry.snapshot_id) (
      field "checksum" (str entry.checksum) (
        field "size" (nonneg entry.size) (
          field "version" (nonneg entry.version)
            (retention_fields entry.committed_at entry.expires_at end)))))

-- the document of _cas_write_registry
unfoldable pub registry_document : RegistryDoc → Value
registry_document doc = object (
    field "writer_epoch" (nonneg doc.writer_epoch) (
      field "writer_instance_id" (str doc.writer_instance_id) (
        field "generation" (nonneg doc.generation)
          (field "latest" (latest_document doc.latest) end))))

-- the document of _write_commit_record
unfoldable pub commit_document : PersistReceipt → Value
commit_document r = object (
    field "snapshot_id" (str r.snapshot_id) (
      field "writer_epoch" (nonneg r.writer_epoch) (
        field "generation" (nonneg r.generation) (
          field "etag" (str r.etag) (
            field "checksum" (str r.checksum) (
              field "size" (nonneg r.size) (
                field "version" (nonneg r.version)
                  (retention_fields r.committed_at r.expires_at end))))))))
