-- ===== src/Storage/S3/Registry/Records.antt =====
-- storage/s3.py: what it means that a receipt is recorded.
use ach_agent.Base.{
  ◌≡◌, refl, sym, subst, ap, ℕ, String, Option, none, some, List, ◌∷◌, ◌==◌, string_eq, ==_iff,
  if_cases, arith,
}
use ach_agent.Base.Equality.{option_eq}
use ach_agent.Base.Program.{
  give, raise, Outcome, returns, raises, from_outcome, and_then-returns, ◌>>=◌, Trace, Ensures,
  Ensures-bind,
}
use ach_agent.Channels.Event.{Value}
use ach_agent.Storage.Refs.{StateRef, commit_record_key}
use ach_agent.Storage.S3.Documents.{
  CommitRecord, receipt_of_record, PersistReceipt, validate_commit_record, commit_document,
}
use ach_agent.Storage.S3.Requests.{
  StorageFailure, restore_failed, is_precondition_failed, Fetched, Condition, if_none_match,
  get_object, put_object, Reply, Settings, registry_writes,
}
use ach_agent.Storage.S3.Registry.{
  receipt_eq, accepted, bounded, checked, decode_commit_record, read_commit_record, same_receipt,
  recorded, write_commit_record,
}
use ach_agent.Storage.S3.Registry.Reads.{require_client-Ensures}

-- The last request wrote the commit record of the receipt, or read it.
pub data Recorded (s : Settings) (ref : StateRef) (r : PersistReceipt) : Trace Reply → Type 0 where
  put :
      (t : Trace Reply) (etag : String)
      → Recorded s ref r (
          (
            put_object (commit_record_key ref r.snapshot_id) (commit_document r) if_none_match,
            returns etag,
          )
          ∷ t)
  got :
      (t : Trace Reply) (days : ℕ) (x : Outcome StorageFailure Fetched)
      → decode_commit_record s ref r.snapshot_id days (bounded x) ≡ returns (some r)
      → Recorded s ref r ((get_object (commit_record_key ref r.snapshot_id), x) ∷ t)

accepted-returns :
    (ref : StateRef) (snapshot_id : String) (days : ℕ) (q : CommitRecord) (r : PersistReceipt)
    → accepted ref snapshot_id days q ≡ returns (some r)
    → (receipt_of_record ref q ≡ r) × (r.snapshot_id ≡ snapshot_id)
accepted-returns ref snapshot_id days q r h = ground (arith, h, ==_iff q.snapshot_id snapshot_id)

-- A commit record that passes the checks is for the snapshot, in the domain.
decode_commit_record-requested :
    (s : Settings) (ref : StateRef) (snapshot_id : String) (days : ℕ)
    (x : Outcome StorageFailure Fetched) (r : PersistReceipt)
    → decode_commit_record s ref snapshot_id days x ≡ returns (some r)
    → (r.ref ≡ ref) × (r.snapshot_id ≡ snapshot_id)
unfolding decode_commit_record
decode_commit_record-requested s ref snapshot_id days (raises e) r h = absurd (ground (arith, h))
decode_commit_record-requested s ref snapshot_id days (returns f) r h =
    let (v, _, h₁) = and_then-returns (checked f.json) _ (some r) h in
    let (q, _, h₂) =
      and_then-returns (checked (validate_commit_record s.dates v)) (accepted ref snapshot_id days)
        (some r) h₁ in
    let (same, requested) = accepted-returns ref snapshot_id days q r h₂ in
    (ap (λ (r : PersistReceipt). r.ref) (sym same), requested)

abbrev pub Writes : Type 0
Writes = List (Value × Condition)

module _ (s : Settings) (ref : StateRef) (ws : Writes) where
  abbrev pub IsFound : String → Trace Reply → Option PersistReceipt → Type 0
  IsFound snapshot_id t none = Unit
  IsFound snapshot_id t (some r) =
      (r.ref ≡ ref) × (r.snapshot_id ≡ snapshot_id) × Recorded s ref r t

  abbrev pub IsRead : String → Trace Reply → Outcome StorageFailure (Option PersistReceipt) → Type 0
  IsRead snapshot_id t (raises e) = registry_writes t ≡ ws
  IsRead snapshot_id t (returns o) = (registry_writes t ≡ ws) × IsFound snapshot_id t o

  decoded-IsRead :
      (t : Trace Reply) (snapshot_id : String) (days : ℕ) (x : Outcome StorageFailure Fetched)
      (o : Outcome StorageFailure (Option PersistReceipt))
      → registry_writes t ≡ ws
      → decode_commit_record s ref snapshot_id days (bounded x) ≡ o
      → Ensures
          (IsRead snapshot_id)
          ((get_object (commit_record_key ref snapshot_id), x) ∷ t)
          (from_outcome o)
  decoded-IsRead t snapshot_id days x (raises e) w d = w
  decoded-IsRead t snapshot_id days x (returns none) w d = (w, tt)
  decoded-IsRead t snapshot_id days x (returns (some r)) w d =
      let (ref_is, id_is) = decode_commit_record-requested s ref snapshot_id days (bounded x) r d in
      (
        w,
        (
          ref_is,
          id_is,
          subst
              (λ i.
                decode_commit_record s ref i days (bounded x) ≡ returns (some r)
                → Recorded s ref r ((get_object (commit_record_key ref i), x) ∷ t))
              id_is (got t days x) d,
        ),
      )

  pub read_commit_record-IsRead :
      (t : Trace Reply) (snapshot_id : String) (days : ℕ)
      → registry_writes t ≡ ws
      → Ensures (IsRead snapshot_id) t (read_commit_record s ref snapshot_id days)
  unfolding read_commit_record
  read_commit_record-IsRead t snapshot_id days w =
      require_client-Ensures (IsRead snapshot_id) s t _
        (λ x. decoded-IsRead t snapshot_id days x _ w refl) w

  abbrev pub IsWritten : PersistReceipt → Trace Reply → Outcome StorageFailure (Unit {0}) → Type 0
  IsWritten r t (raises e) = registry_writes t ≡ ws
  IsWritten r t (returns u) = (registry_writes t ≡ ws) × Recorded s ref r t

  same_receipt-IsWritten :
      (t : Trace Reply) (r : PersistReceipt) (o : Option PersistReceipt)
      → registry_writes t ≡ ws
      → IsFound r.snapshot_id t o
      → Ensures (IsWritten r) t (same_receipt r o)
  same_receipt-IsWritten t r none w found = w
  same_receipt-IsWritten t r (some q) w found =
      if_cases (λ p. Ensures (IsWritten r) t p) (some q == some r) (give tt) (raise restore_failed)
        (λ same. (w, subst (λ p. Recorded s ref p t) ((receipt_eq.beq_iff q r).0 same) found.2))
        (λ _. w)

  recorded-IsWritten :
      (t : Trace Reply) (r : PersistReceipt) (x : Outcome StorageFailure String)
      → registry_writes t ≡ ws
      → Ensures
          (IsWritten r)
          ((put_object (commit_record_key ref r.snapshot_id) (commit_document r) if_none_match, x)
            ∷ t)
          (recorded s ref r x)
  recorded-IsWritten t r (returns etag) w = (w, put t etag)
  recorded-IsWritten t r (raises e) w =
      let t₁ : Trace Reply =
        (
          put_object (commit_record_key ref r.snapshot_id) (commit_document r) if_none_match,
          raises e,
        )
        ∷ t in
      if_cases (λ p. Ensures (IsWritten r) t₁ p) (is_precondition_failed e)
        (read_commit_record s ref r.snapshot_id 0 >>= same_receipt r) (raise e)
        (λ _.
          Ensures-bind (IsRead r.snapshot_id) (IsWritten r) t₁
            (read_commit_record s ref r.snapshot_id 0) (same_receipt r)
            (read_commit_record-IsRead t₁ r.snapshot_id 0 w)
            (λ t₂ o h. same_receipt-IsWritten t₂ r o h.0 h.1) (λ t₂ e h. h))
        (λ _. w)

  pub write_commit_record-IsWritten :
      (t : Trace Reply) (r : PersistReceipt)
      → registry_writes t ≡ ws
      → Ensures (IsWritten r) t (write_commit_record s ref r)
  unfolding write_commit_record
  write_commit_record-IsWritten t r w =
      require_client-Ensures (IsWritten r) s t _ (λ x. recorded-IsWritten t r x w) w
