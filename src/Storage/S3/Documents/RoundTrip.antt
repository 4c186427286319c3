-- ===== src/Storage/S3/Documents/RoundTrip.antt =====
-- storage/s3.py: a document that is written is read back.
use ach_agent.Base.{
  ℕ, ◌<◌, String, true, false, Option, none, some, ◌≡◌, refl, arith, ◌==◌, string_eq, ltb,
}
use ach_agent.Base.Texts.{is_hex64}
use ach_agent.Channels.Event.{str, end, get_field}
use ach_agent.Storage.Fencing.{LatestEntry, RegistryDoc}
use ach_agent.Base.Options.{◌>>=◌}
use ach_agent.Storage.S3.Documents.{
  Dates, aware, in_order, parse_retention_date, parse_nullable_date, validate_retention,
  validate_latest, validate_latest_or_null, validate_registry_doc, PersistReceipt,
  validate_commit_record, receipt_of_record, retention_fields, latest_document, registry_document,
  commit_document,
}

-- A date as `_format_retention_date` writes it, which `fromisoformat` reads back.
pub record IsDate (d : Dates) (s : String) : Type 0 where
  pub there : (s == "") ≡ false
  pub time : ℕ
  pub parses : d.parse s ≡ aware time
  pub formats : d.format time ≡ s

-- The retention of a snapshot: none, or a commit date, and an expiry that is not before it.
abbrev pub IsRetention : Dates → Option String → Option String → Type 0
IsRetention d none none = Unit
IsRetention d none (some e) = ⊥
IsRetention d (some c) none = IsDate d c
IsRetention d (some c) (some e) = IsDate d c × IsDate d e × (in_order d c (some e) ≡ true)

pub record IsEntry (d : Dates) (entry : LatestEntry) : Type 0 where
  pub named : (entry.snapshot_id == "") ≡ false
  pub hashed : is_hex64 entry.checksum ≡ true
  pub versioned : 0 < entry.version
  pub retention : IsRetention d entry.committed_at entry.expires_at

abbrev pub IsLatest : Dates → Option LatestEntry → Type 0
IsLatest d none = Unit
IsLatest d (some entry) = IsEntry d entry

pub record IsDoc (d : Dates) (doc : RegistryDoc) : Type 0 where
  pub epoch : 0 < doc.writer_epoch
  pub writer : (doc.writer_instance_id == "") ≡ false
  pub generation : 0 < doc.generation
  pub latest : IsLatest d doc.latest

parse_retention_date-IsDate :
    (d : Dates) (s : String) → IsDate d s → parse_retention_date d (str s) ≡ some s
unfolding parse_retention_date
parse_retention_date-IsDate d s h = rw (h.there, h.parses, h.formats) refl

ltb-positive : (n : ℕ) → 0 < n → ltb 0 n ≡ true
ltb-positive n h = ground (arith, h)

parse_nullable_date-IsDate :
    (d : Dates) (s : String) → IsDate d s → parse_nullable_date d (str s) ≡ some (some s)
unfolding parse_nullable_date
parse_nullable_date-IsDate d s h = rw (parse_nullable_date, parse_retention_date-IsDate d s h) refl

retention-IsRetention :
    (d : Dates) (c e : Option String)
    → IsRetention d c e
    → validate_retention d
        (get_field "committed_at" (retention_fields c e end))
        (get_field "expires_at" (retention_fields c e end))
      ≡ some (record { committed_at = c; expires_at = e })
unfolding validate_retention get_field parse_nullable_date
retention-IsRetention d none none h = refl
retention-IsRetention d none (some e) h = absurd h
retention-IsRetention d (some c) none h = rw (parse_retention_date-IsDate d c h) refl
retention-IsRetention d (some c) (some e) h =
    rw (parse_retention_date-IsDate d c h.0, parse_nullable_date-IsDate d e h.1, h.2) refl

validate_latest-IsEntry :
    (d : Dates) (entry : LatestEntry)
    → IsEntry d entry
    → validate_latest d (latest_document (some entry)) ≡ some entry
unfolding validate_latest get_field
validate_latest-IsEntry d entry h =
    rw
      (
        h.named,
        h.hashed,
        ltb-positive entry.version h.versioned,
        retention-IsRetention d entry.committed_at entry.expires_at h.retention,
      )
      refl

validate_latest_or_null-IsLatest :
    (d : Dates) (latest : Option LatestEntry)
    → IsLatest d latest
    → validate_latest_or_null d (latest_document latest) ≡ some latest
unfolding validate_latest_or_null
validate_latest_or_null-IsLatest d none h = refl
validate_latest_or_null-IsLatest d (some entry) h =
    rw (validate_latest_or_null, validate_latest-IsEntry d entry h) refl

-- A well-formed registry document, written by `_cas_write_registry`, is accepted by
-- `_validate_registry_doc` and read back unchanged.
pub validate_registry_doc-registry_document :
    (d : Dates) (doc : RegistryDoc)
    → IsDoc d doc
    → validate_registry_doc d (registry_document doc) ≡ some doc
unfolding validate_registry_doc registry_document get_field
validate_registry_doc-registry_document d doc h =
    rw
      (
        ltb-positive doc.writer_epoch h.epoch,
        h.writer,
        ltb-positive doc.generation h.generation,
        validate_latest_or_null-IsLatest d doc.latest h.latest,
      )
      refl

-- A receipt whose fields pass the checks of a commit record.
pub record IsReceipt (d : Dates) (r : PersistReceipt) : Type 0 where
  pub named : (r.snapshot_id == "") ≡ false
  pub epoch : 0 < r.writer_epoch
  pub generation : 0 < r.generation
  pub version : 0 < r.version
  pub tagged : (r.etag == "") ≡ false
  pub hashed : is_hex64 r.checksum ≡ true
  pub retention : IsRetention d r.committed_at r.expires_at

-- The document of a well-formed receipt passes `_validate_commit_record`, and the receipt that is built
-- from it is the same.
pub validate_commit_record-commit_document :
    (d : Dates) (r : PersistReceipt)
    → IsReceipt d r
    → (validate_commit_record d (commit_document r) >>= λ q. some (receipt_of_record r.ref q))
      ≡ some r
unfolding validate_commit_record commit_document get_field
validate_commit_record-commit_document d r h =
    rw
      (
        h.named,
        ltb-positive r.writer_epoch h.epoch,
        ltb-positive r.generation h.generation,
        ltb-positive r.version h.version,
        h.tagged,
        h.hashed,
        retention-IsRetention d r.committed_at r.expires_at h.retention,
      )
      refl
