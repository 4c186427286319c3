-- ===== src/Storage/S3/Commit/Receipts.antt =====
-- storage/s3.py: the receipts that `_commit` gives, and what it writes to the registry.
use ach_agent.Base.{
  ◌≡◌, refl, sym, ℕ, String, true, Option, none, some, string_eq, nat_eq, ==_iff, if_cases, arith,
}
use ach_agent.Base.Equality.{option_eq}
use ach_agent.Base.Program.{
  give, raise, Outcome, returns, raises, from_outcome, ◌>>=◌, Trace, Ensures, Ensures-bind,
}
use ach_agent.Storage.Fencing.{LatestEntry, RegistryDoc}
use ach_agent.Storage.Refs.{StateRef}
use ach_agent.Storage.S3.Documents.{PersistReceipt}
use ach_agent.Storage.S3.Requests.{StorageFailure, lost_race, Reply, S3, Settings, registry_writes}
use ach_agent.Storage.S3.Registry.{latest_eq, read_registry, write_commit_record}
use ach_agent.Storage.S3.Registry.Reads.{read_registry-Always}
use ach_agent.Storage.S3.Registry.Records.{
  Writes, Recorded, IsWritten, write_commit_record-IsWritten,
}
use ach_agent.Storage.S3.Persist.{is_snapshot, receipt_from, receipt_of, repaired, checked_lease}
use ach_agent.Storage.S3.Commit.{
  Commit, reconciled, reconciled_receipt_if_applied, or_conflict, or_failure, new_receipt, conclude,
  is_cancelled,
}

-- A receipt for the snapshot that was asked for, with its checksum and its size.
pub record IsReceiptOf (ref : StateRef) (snapshot_id checksum : String) (size : ℕ)
    (r : PersistReceipt) : Type 0 where
  pub ref_is : r.ref ≡ ref
  pub id_is : r.snapshot_id ≡ snapshot_id
  pub checksum_is : r.checksum ≡ checksum
  pub size_is : r.size ≡ size

receipt_of-IsReceiptOf :
    (ref : StateRef) (doc : RegistryDoc) (etag : String) (days : ℕ) (snapshot_id checksum : String)
    (size : ℕ) (r : PersistReceipt) (latest : Option LatestEntry)
    → is_snapshot snapshot_id checksum size latest ≡ true
    → receipt_of ref doc etag days latest ≡ returns r
    → IsReceiptOf ref snapshot_id checksum size r
receipt_of-IsReceiptOf ref doc etag days snapshot_id checksum size r none same h =
    absurd (ground (arith, same))
receipt_of-IsReceiptOf ref doc etag days snapshot_id checksum size r (some e) same h =
    let all : (ref ≡ r.ref)
        × (r.snapshot_id ≡ snapshot_id)
        × (r.checksum ≡ checksum)
        × (r.size ≡ size) =
      ground (
        arith,
        h,
        same,
        ==_iff e.snapshot_id snapshot_id,
        ==_iff e.checksum checksum,
        ==_iff e.size size,
      ) in
    record { ref_is = sym all.0; id_is = all.1; checksum_is = all.2; size_is = all.3 }

module _ (s : Settings) (c : Commit) (ws : Writes) where
  abbrev pub Receipt : Trace Reply → PersistReceipt → Type 0
  Receipt t r = IsReceiptOf c.ref c.snapshot_id c.checksum c.size r × Recorded s c.ref r t

  abbrev pub IsDone : Trace Reply → Outcome StorageFailure PersistReceipt → Type 0
  IsDone t (raises e) = registry_writes t ≡ ws
  IsDone t (returns r) = (registry_writes t ≡ ws) × Receipt t r

  record_and_give-IsDone :
      (t : Trace Reply) (r : PersistReceipt)
      → registry_writes t ≡ ws
      → IsReceiptOf c.ref c.snapshot_id c.checksum c.size r
      → Ensures IsDone t (write_commit_record s c.ref r >>= λ _. give r)
  record_and_give-IsDone t r w is =
      Ensures-bind (IsWritten s c.ref ws r) IsDone t (write_commit_record s c.ref r) (λ _. give r)
        (write_commit_record-IsWritten s c.ref ws t r w) (λ t₁ _ h. (h.0, (is, h.1))) (λ t₁ e h. h)

  receipt-IsDone :
      (t : Trace Reply) (o : Outcome StorageFailure PersistReceipt)
      → registry_writes t ≡ ws
      → ((r : PersistReceipt) → o ≡ returns r → IsReceiptOf c.ref c.snapshot_id c.checksum c.size r)
      → Ensures IsDone t (from_outcome o >>= λ r. write_commit_record s c.ref r >>= λ _. give r)
  receipt-IsDone t (raises e) w is = w
  receipt-IsDone t (returns r) w is = record_and_give-IsDone t r w (is r refl)

  pub repaired-IsDone :
      (t : Trace Reply) (doc : RegistryDoc) (etag : String)
      → registry_writes t ≡ ws
      → is_snapshot c.snapshot_id c.checksum c.size doc.latest ≡ true
      → Ensures IsDone t (repaired s c.ref doc etag c.retention_days)
  unfolding receipt_from
  repaired-IsDone t doc etag w same =
      receipt-IsDone t (receipt_from c.ref doc etag c.retention_days) w λ r.
        receipt_of-IsReceiptOf c.ref doc etag c.retention_days c.snapshot_id c.checksum c.size r
          doc.latest same

  abbrev IsReconciled :
      Trace Reply → Outcome StorageFailure (Option PersistReceipt × Option LatestEntry) → Type 0
  IsReconciled t (raises e) = registry_writes t ≡ ws
  IsReconciled t (returns (none, latest)) = registry_writes t ≡ ws
  IsReconciled t (returns (some r, latest)) = (registry_writes t ≡ ws) × Receipt t r

  reconciled-IsReconciled :
      (t : Trace Reply) (current : RegistryDoc × String)
      → registry_writes t ≡ ws
      → Ensures IsReconciled t (reconciled s c current)
  reconciled-IsReconciled t (doc, etag) w =
      if_cases (λ p. Ensures IsReconciled t p)
        (is_snapshot c.snapshot_id c.checksum c.size doc.latest)
        (repaired s c.ref doc etag c.retention_days >>= λ r. give (some r, doc.latest))
        (give (none, doc.latest))
        (λ same.
          Ensures-bind IsDone IsReconciled t (repaired s c.ref doc etag c.retention_days) _
            (repaired-IsDone t doc etag w same) (λ t₁ r h. h) (λ t₁ e h. h))
        (λ _. w)

  checked-IsReconciled :
      (t : Trace Reply) (o : Outcome StorageFailure (RegistryDoc × String))
      → registry_writes t ≡ ws
      → Ensures IsReconciled t (from_outcome o >>= reconciled s c)
  checked-IsReconciled t (raises e) w = w
  checked-IsReconciled t (returns current) w = reconciled-IsReconciled t current w

  reconciled_receipt_if_applied-IsReconciled :
      (t : Trace Reply)
      → registry_writes t ≡ ws
      → Ensures IsReconciled t (reconciled_receipt_if_applied s c)
  unfolding reconciled_receipt_if_applied
  reconciled_receipt_if_applied-IsReconciled t w =
      Ensures-bind (λ t o. registry_writes t ≡ ws) IsReconciled t (read_registry s c.ref) _
        (read_registry-Always (λ t. registry_writes t ≡ ws) (λ t key x h. h) s t c.ref w)
        (λ t₁ current h. checked-IsReconciled t₁ (checked_lease c.lease current) h) (λ t₁ e h. h)

  or_conflict-IsDone :
      (t : Trace Reply) (p : Option PersistReceipt × Option LatestEntry)
      → IsReconciled t (returns p)
      → Ensures IsDone t (or_conflict s c p)
  or_conflict-IsDone t (none, latest) h = h
  or_conflict-IsDone t (some r, latest) h = h

  or_failure-IsDone :
      (t : Trace Reply) (e : StorageFailure) (p : Option PersistReceipt × Option LatestEntry)
      → IsReconciled t (returns p)
      → Ensures IsDone t (or_failure s c e p)
  or_failure-IsDone t e (none, latest) h = h
  or_failure-IsDone t e (some r, latest) h = h

  -- what is done behind a reconciliation
  reconcile-IsDone :
      (t : Trace Reply) (f : Option PersistReceipt × Option LatestEntry → S3 PersistReceipt)
      → registry_writes t ≡ ws
      → ((t : Trace Reply) (p : Option PersistReceipt × Option LatestEntry)
          → IsReconciled t (returns p)
          → Ensures IsDone t (f p))
      → Ensures IsDone t (reconciled_receipt_if_applied s c >>= f)
  reconcile-IsDone t f w k =
      Ensures-bind IsReconciled IsDone t (reconciled_receipt_if_applied s c) f
        (reconciled_receipt_if_applied-IsReconciled t w) k (λ t₁ e h. h)

  pub conclude-IsDone :
      (t : Trace Reply) (entry : LatestEntry) (o : Outcome StorageFailure String)
      → registry_writes t ≡ ws
      → Ensures IsDone t (conclude s c entry o)
  conclude-IsDone t entry (returns etag) w =
      record_and_give-IsDone t (new_receipt s c entry etag) w
        (record { ref_is = refl; id_is = refl; checksum_is = refl; size_is = refl })
  conclude-IsDone t entry (raises e) w =
      if_cases (λ p. Ensures IsDone t p) (lost_race e)
        (reconciled_receipt_if_applied s c >>= or_conflict s c) _
        (λ _. reconcile-IsDone t (or_conflict s c) w or_conflict-IsDone)
        (λ _.
          if_cases (λ p. Ensures IsDone t p) (is_cancelled e) (raise e)
            (reconciled_receipt_if_applied s c >>= or_failure s c e) (λ _. w)
            (λ _. reconcile-IsDone t (or_failure s c e) w (λ t. or_failure-IsDone t e)))
