-- ===== src/Storage/S3/Registry/Reads.antt =====
-- storage/s3.py: what reading the registry and writing a commit record does to the trace.
use ach_agent.Base.{if_cases, ℕ, String, some, ◌==◌, string_eq, ◌∷◌}
use ach_agent.Base.Equality.{option_eq}
use ach_agent.Base.Program.{Program, give, raise, Outcome, returns, raises, ◌>>=◌, Ensures, Trace}
use ach_agent.Base.Program.Always.{Always, Always-bind, Always-if, Always-from_outcome}
use ach_agent.Channels.Event.{Value}
use ach_agent.Storage.Refs.{StateRef, ObjectKey, registry_key, commit_record_key}
use ach_agent.Storage.S3.Documents.{PersistReceipt}
use ach_agent.Storage.S3.Requests.{
  StorageFailure, storage_unavailable, restore_failed, Fetched, is_precondition_failed, Condition,
  get_object, put_object, Reply, Settings,
}
use ach_agent.Storage.S3.Registry.{
  receipt_eq, require_client, bounded, decode_registry, decode_commit_record, read_registry,
  read_commit_record, write_commit_record, recorded, same_receipt,
}

pub require_client-Ensures {ℓ κ} :
    {B : Type ℓ} (Q : Trace Reply → Outcome StorageFailure B → Type κ) (s : Settings)
    (t : Trace Reply) (f : Unit {0} → Program Reply StorageFailure B)
    → Ensures Q t (f tt)
    → Q t (raises storage_unavailable)
    → Ensures Q t (require_client s >>= f)
require_client-Ensures Q s t f h e =
    if_cases (λ p. Ensures Q t (p >>= f)) s.configured (give tt) (raise storage_unavailable)
      (λ _. h) (λ _. e)

module _ (P : Trace Reply → Type 0)
    (reads : (t : Trace Reply) (key : ObjectKey) (x : Outcome StorageFailure Fetched)
      → P t
      → P ((get_object key, x) ∷ t))
    (s : Settings) where
  pub read_registry-Always :
      (t : Trace Reply) (ref : StateRef) → P t → Always P t (read_registry s ref)
  unfolding read_registry
  read_registry-Always t ref p =
      require_client-Ensures (λ t o. P t) s t _
        (λ x.
          Always-from_outcome P _ (decode_registry s (bounded x)) (reads t (registry_key ref) x p))
        p

  pub read_commit_record-Always :
      (t : Trace Reply) (ref : StateRef) (snapshot_id : String) (days : ℕ)
      → P t
      → Always P t (read_commit_record s ref snapshot_id days)
  unfolding read_commit_record
  read_commit_record-Always t ref snapshot_id days p =
      require_client-Ensures (λ t o. P t) s t _
        (λ x.
          Always-from_outcome P _ (decode_commit_record s ref snapshot_id days (bounded x))
            (reads t (commit_record_key ref snapshot_id) x p))
        p

  module _
      (records : (t : Trace Reply) (ref : StateRef) (snapshot_id : String) (v : Value)
          (c : Condition) (x : Outcome StorageFailure String)
        → P t
        → P ((put_object (commit_record_key ref snapshot_id) v c, x) ∷ t)) where
    recorded-Always :
        (t : Trace Reply) (ref : StateRef) (r : PersistReceipt) (x : Outcome StorageFailure String)
        → P t
        → Always P t (recorded s ref r x)
    recorded-Always t ref r (returns etag) p = p
    recorded-Always t ref r (raises e) p =
        Always-if P t (is_precondition_failed e)
          (read_commit_record s ref r.snapshot_id 0 >>= same_receipt r) (raise e)
          (Always-bind P t (read_commit_record s ref r.snapshot_id 0) (same_receipt r)
            (read_commit_record-Always t ref r.snapshot_id 0 p)
            λ t existing p. Always-if P t (existing == some r) (give tt) (raise restore_failed) p p)
          p

    pub write_commit_record-Always :
        (t : Trace Reply) (ref : StateRef) (r : PersistReceipt)
        → P t
        → Always P t (write_commit_record s ref r)
    unfolding write_commit_record
    write_commit_record-Always t ref r p =
        require_client-Ensures (λ t o. P t) s t _
          (λ x. recorded-Always _ ref r x (records t ref r.snapshot_id _ _ x p)) p
