-- ===== src/Storage/S3/Registry/ReadBack.antt =====
-- storage/s3.py: reading a commit record that was written.
use ach_agent.Base.{
  if_cases, ◌≡◌, refl, ap, ◌∙◌, ℕ, ◌≤◌, true, false, not, ◌||◌, Option, none, some, [], ltb, ◌==◌,
  ==_refl, string_eq, arith,
}
use ach_agent.Base.Program.{
  Outcome, returns, raises, and_then, from_outcome, Trace, Environment, execute, give, raise, call,
  ◌>>=◌ as ◌then_go◌,
}
use ach_agent.Base.Options.{◌>>=◌}
use ach_agent.Storage.Refs.{commit_record_key}
use ach_agent.Storage.S3.Documents.{
  PersistReceipt, CommitRecord, receipt_of_record, validate_commit_record, commit_document,
}
use ach_agent.Storage.S3.Documents.RoundTrip.{IsReceipt, validate_commit_record-commit_document}
use ach_agent.Storage.S3.Requests.{
  S3, StorageRequest, restore_failed, StorageFailure, storage_unavailable, Fetched, get_object,
  Reply, Settings,
}
use ach_agent.Storage.S3.Registry.{
  max_registry_bytes, bounded, checked, legacy, accepted, decode_commit_record, read_commit_record,
}

accepted_lem :
    (r : PersistReceipt) (days : ℕ) (q : CommitRecord)
    → legacy days r.committed_at ≡ false
    → receipt_of_record r.ref q ≡ r
    → accepted r.ref r.snapshot_id days q ≡ returns (some r)
accepted_lem r days q dated same =
    let named : q.snapshot_id ≡ r.snapshot_id = ap (λ (r : PersistReceipt). r.snapshot_id) same in
    let kept : q.retention.committed_at ≡ r.committed_at =
      ap (λ (r : PersistReceipt). r.committed_at) same in
    let passes : (not (q.snapshot_id == r.snapshot_id) || legacy days q.retention.committed_at)
        ≡ false =
      rw (named, ==_refl r.snapshot_id, kept, dated) refl in
    if_cases (λ o. o ≡ returns (some r))
      (not (q.snapshot_id == r.snapshot_id) || legacy days q.retention.committed_at)
      (raises restore_failed) (returns (some (receipt_of_record r.ref q)))
      (λ fails. absurd (ground (arith, passes, fails))) (λ _. ap (λ r. returns (some r)) same)

checked-accepted :
    (r : PersistReceipt) (days : ℕ) (o : Option CommitRecord)
    → legacy days r.committed_at ≡ false
    → (o >>= λ q. some (receipt_of_record r.ref q)) ≡ some r
    → and_then (checked o) (accepted r.ref r.snapshot_id days) ≡ returns (some r)
checked-accepted r days none dated h = absurd (ground (arith, h))
checked-accepted r days (some q) dated h = accepted_lem r days q dated (ground (arith, h))

-- The object is the document of the receipt, and not too large.
pub record Holds (f : Fetched) (r : PersistReceipt) : Type 0 where
  pub written : f.json ≡ some (commit_document r)
  pub small : f.size ≤ max_registry_bytes

decode_commit_record-commit_document :
    (s : Settings) (r : PersistReceipt) (days : ℕ) (f : Fetched)
    → IsReceipt s.dates r
    → legacy days r.committed_at ≡ false
    → Holds f r
    → decode_commit_record s r.ref r.snapshot_id days (bounded (returns f)) ≡ returns (some r)
unfolding decode_commit_record
decode_commit_record-commit_document s r days f h dated holds =
    let small : ltb max_registry_bytes f.size ≡ false = ground (arith, holds.small) in
    rw (small, holds.written)
      (checked-accepted r days (validate_commit_record s.dates (commit_document r)) dated
        (validate_commit_record-commit_document s.dates r h))

executed :
    {A : Type 0} (env : Environment Reply) (t : Trace Reply) (o : Outcome StorageFailure A) (a : A)
    → o ≡ returns a
    → (execute env t (from_outcome o)).1 ≡ returns a
executed env t (returns b) a h = h
executed env t (raises e) a h = h

-- The document that `_write_commit_record` writes for a well-formed receipt, served to
-- `_read_commit_record`, gives the same receipt: where storage is configured, the object is within the
-- size that is read, and the receipt has a commit date if `retention_days` asks for one.
pub read_commit_record-commit_document :
    (s : Settings) (r : PersistReceipt) (days : ℕ) (f : Fetched) (env : Environment Reply)
    → s.configured ≡ true
    → IsReceipt s.dates r
    → legacy days r.committed_at ≡ false
    → Holds f r
    → env [] (get_object (commit_record_key r.ref r.snapshot_id)) ≡ returns f
    → (execute env [] (read_commit_record s r.ref r.snapshot_id days)).1 ≡ returns (some r)
unfolding read_commit_record
read_commit_record-commit_document s r days f env on h dated holds served =
    if_cases (λ p. (execute env [] (p then_go λ client. call asked answer)).1 ≡ returns (some r))
      s.configured (give tt) (raise storage_unavailable)
      (λ _. executed env _ _ (some r) (
        ap (λ x. decode_commit_record s r.ref r.snapshot_id days (bounded x)) served
        ∙ decode_commit_record-commit_document s r days f h dated holds))
      (λ off. absurd (ground (arith, on, off)))
  where
    asked : StorageRequest
    asked = get_object (commit_record_key r.ref r.snapshot_id)

    answer : Outcome StorageFailure Fetched → S3 (Option PersistReceipt)
    answer x = from_outcome (decode_commit_record s r.ref r.snapshot_id days (bounded x))
