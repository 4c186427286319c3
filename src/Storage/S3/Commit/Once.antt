-- ===== src/Storage/S3/Commit/Once.antt =====
-- storage/s3.py: what `_commit` writes to the registry, and what its receipt says.
use ach_agent.Base.{
  ◌≡◌, refl, ap, ℕ, String, Bool, true, false, not, ◌&&◌, ◌||◌, Option, none, some, ◌∷◌, ◌==◌,
  string_eq, nat_eq, arith, ==_iff, if_cases, ◌⊎◌, inl, inr,
}
use ach_agent.Base.Equality.{option_eq}
use ach_agent.Base.Program.{
  give, raise, call, Outcome, returns, raises, ◌>>=◌, Trace, Ensures, Ensures-bind, Ensures-try,
  Ensures-weaken,
}
use ach_agent.Base.Program.Always.{Always, Always-if}
use ach_agent.Channels.Event.{Value}
use ach_agent.Storage.Refs.{StateRef, snapshot_key}
use ach_agent.Storage.S3.Documents.{PersistReceipt, registry_document}
use ach_agent.Storage.S3.Requests.{
  StorageFailure, precondition_failed, snapshot_conflict, concurrent_modification,
  is_precondition_failed, Condition, if_match, Owner, Head, head_object, Reply, Settings,
  registry_writes,
}
use ach_agent.Storage.S3.Registry.{replaced, cas_write_registry, read_commit_record}
use ach_agent.Storage.S3.Registry.Reads.{require_client-Ensures}
use ach_agent.Storage.S3.Registry.Records.{Writes, IsFound, IsRead, read_commit_record-IsRead}
use ach_agent.Storage.S3.Persist.{
  is_snapshot, repaired, existing, uploaded, upload_snapshot_immutable,
}
use ach_agent.Storage.S3.Commit.{
  Commit, new_entry, new_doc, conclude, base, publish_over, publish_new, owner, commit_new,
  commit_again, commit,
}
use ach_agent.Storage.S3.Commit.Receipts.{IsReceiptOf, IsDone, repaired-IsDone, conclude-IsDone}

replaced-Always :
    (P : Trace Reply → Type 0) (t : Trace Reply) (x : Outcome StorageFailure String)
    → P t
    → Always P t (replaced x)
replaced-Always P t (returns etag) p = p
replaced-Always P t (raises e) p =
    Always-if P t (is_precondition_failed e) (raise precondition_failed) (raise e) p p

-- Uploading writes no registry.
module _ (s : Settings) (ws : Writes) where
  abbrev Quiet : Trace Reply → Type 0
  Quiet t = registry_writes t ≡ ws

  existing-Quiet :
      (t : Trace Reply) (checksum : String) (size : ℕ) (o : Owner) (b : Bool)
      (h : Outcome StorageFailure Head)
      → Quiet t
      → Always Quiet t (existing checksum size o b h)
  existing-Quiet t checksum size o true h w = w
  existing-Quiet t checksum size o false (raises e) w = w
  existing-Quiet t checksum size o false (returns h) w =
      if_cases (λ p. Always Quiet t p)
        (not (h.sha256 == some checksum) || not (h.content_length == some size))
        (raise snapshot_conflict) (give _) (λ _. w) (λ _. w)

  uploaded-Quiet :
      (t : Trace Reply) (ref : StateRef) (snapshot_id checksum : String) (size : ℕ) (o : Owner)
      (b : Bool) (x : Outcome StorageFailure (Unit {0}))
      → Quiet t
      → Always Quiet t (uploaded ref snapshot_id checksum size o b x)
  uploaded-Quiet t ref snapshot_id checksum size o true x w = w
  uploaded-Quiet t ref snapshot_id checksum size o false (returns u) w = w
  uploaded-Quiet t ref snapshot_id checksum size o false (raises e) w =
      if_cases (λ p. Always Quiet t p) (not (is_precondition_failed e)) (raise e)
        (call (head_object (snapshot_key ref snapshot_id))
          λ h. existing checksum size o h.was_cancelled h.outcome)
        (λ _. w) (λ _ h. existing-Quiet _ checksum size o h.was_cancelled h.outcome w)

  upload-Quiet :
      (t : Trace Reply) (ref : StateRef) (snapshot_id checksum : String) (size : ℕ) (o : Owner)
      → Quiet t
      → Always Quiet t (upload_snapshot_immutable s ref snapshot_id checksum size o)
  unfolding upload_snapshot_immutable
  upload-Quiet t ref snapshot_id checksum size o w =
      require_client-Ensures (λ t o. Quiet t) s t _
        (λ x. uploaded-Quiet _ ref snapshot_id checksum size o x.was_cancelled x.outcome w) w

module _ (s : Settings) (c : Commit) (ws : Writes) where
  -- the one write, on the condition that the registry is still what the lease was checked against
  abbrev pub write_at : ℕ → String → Value × Condition
  write_at now etag = (registry_document (new_doc s c (new_entry s c now)), if_match etag)

  pub data OneWrite : Writes → Type 0 where
    no_write : OneWrite ws
    one_write :
        (now : ℕ) (etag : String)
        → base s c c.expected_base c.current.latest ≡ some etag
        → OneWrite (write_at now etag ∷ ws)

  abbrev pub IsCommitted : Trace Reply → Outcome StorageFailure PersistReceipt → Type 0
  IsCommitted t o = (ws' : Writes) × OneWrite ws' × IsDone s c ws' t o

  published-IsCommitted :
      (t : Trace Reply) (now : ℕ) (etag : String) (o : Outcome StorageFailure String)
      → base s c c.expected_base c.current.latest ≡ some etag
      → (registry_writes t ≡ ws) ⊎ (registry_writes t ≡ (write_at now etag ∷ ws))
      → Ensures IsCommitted t (conclude s c (new_entry s c now) o)
  published-IsCommitted t now etag o b (inl w) =
      Ensures-weaken (IsDone s c ws) IsCommitted t _
        (conclude-IsDone s c ws t (new_entry s c now) o w) λ t₁ o₁ h. (ws, no_write, h)
  published-IsCommitted t now etag o b (inr w) =
      let ws' : Writes = write_at now etag ∷ ws in
      Ensures-weaken (IsDone s c ws') IsCommitted t _
        (conclude-IsDone s c ws' t (new_entry s c now) o w)
        λ t₁ o₁ h. (ws', one_write now etag b, h)

  abbrev AtMost : ℕ → String → Trace Reply → Type 0
  AtMost now etag t = (registry_writes t ≡ ws) ⊎ (registry_writes t ≡ (write_at now etag ∷ ws))

  cas-AtMost :
      (t : Trace Reply) (now : ℕ) (etag : String)
      → registry_writes t ≡ ws
      → Always
          (AtMost now etag)
          t
          (cas_write_registry s c.ref (new_doc s c (new_entry s c now)) (some etag))
  unfolding cas_write_registry
  cas-AtMost t now etag w =
      require_client-Ensures (λ t o. AtMost now etag t) s t _
        (λ x.
          replaced-Always (AtMost now etag) _ x
            (inr (ap (λ (l : Writes). write_at now etag ∷ l) w)))
        (inl w)

  publish_over-IsCommitted :
      (t : Trace Reply) (o : Option String)
      → base s c c.expected_base c.current.latest ≡ o
      → registry_writes t ≡ ws
      → Ensures IsCommitted t (publish_over s c o)
  publish_over-IsCommitted t none b w = (ws, no_write, w)
  publish_over-IsCommitted t (some etag) b w = λ now.
      Ensures-try (λ t o. AtMost now etag t) IsCommitted _
        (cas_write_registry s c.ref (new_doc s c (new_entry s c now)) (some etag))
        (conclude s c (new_entry s c now)) (cas-AtMost _ now etag w)
        (λ t₁ o h. published-IsCommitted t₁ now etag o b h)

  publish_new-IsCommitted :
      (t : Trace Reply) (b : Bool)
      → registry_writes t ≡ ws
      → Ensures IsCommitted t (publish_new s c b)
  publish_new-IsCommitted t b w =
      if_cases (λ p. Ensures IsCommitted t p) b
        (publish_over s c (base s c c.expected_base c.current.latest))
        (raise concurrent_modification)
        (λ _. publish_over-IsCommitted t (base s c c.expected_base c.current.latest) refl w)
        (λ _. (ws, no_write, w))

  commit_new-IsCommitted :
      (t : Trace Reply) → registry_writes t ≡ ws → Ensures IsCommitted t (commit_new s c)
  commit_new-IsCommitted t w =
      if_cases (λ p. Ensures IsCommitted t p)
        (is_snapshot c.snapshot_id c.checksum c.size c.current.latest)
        (repaired s c.ref c.current c.current_etag c.retention_days)
        (upload_snapshot_immutable s c.ref c.snapshot_id c.checksum c.size (owner s c)
          >>= publish_new s c)
        (λ same.
          Ensures-weaken (IsDone s c ws) IsCommitted t _
            (repaired-IsDone s c ws t c.current c.current_etag w same) λ t₁ o h. (ws, no_write, h))
        (λ _.
          Ensures-bind (λ t o. registry_writes t ≡ ws) IsCommitted t
            (upload_snapshot_immutable s c.ref c.snapshot_id c.checksum c.size (owner s c))
            (publish_new s c)
            (upload-Quiet s ws t c.ref c.snapshot_id c.checksum c.size (owner s c) w)
            (λ t₁ b h. publish_new-IsCommitted t₁ b h) (λ t₁ e h. (ws, no_write, h)))

  found-IsReceiptOf :
      (t : Trace Reply) (r : PersistReceipt)
      → IsFound s c.ref ws c.snapshot_id t (some r)
      → ((r.checksum == c.checksum) && (r.size == c.size)) ≡ true
      → IsReceiptOf c.ref c.snapshot_id c.checksum c.size r
  found-IsReceiptOf t r found same =
      let both : (r.checksum ≡ c.checksum) × (r.size ≡ c.size) =
        ground (arith, same, ==_iff r.checksum c.checksum, ==_iff r.size c.size) in
      record { ref_is = found.0; id_is = found.1; checksum_is = both.0; size_is = both.1 }

  commit_again-IsCommitted :
      (t : Trace Reply) (o : Option PersistReceipt)
      → registry_writes t ≡ ws
      → IsFound s c.ref ws c.snapshot_id t o
      → Ensures IsCommitted t (commit_again s c o)
  commit_again-IsCommitted t none w found = commit_new-IsCommitted t w
  commit_again-IsCommitted t (some r) w found =
      if_cases (λ p. Ensures IsCommitted t p) ((r.checksum == c.checksum) && (r.size == c.size))
        (give r) (raise snapshot_conflict)
        (λ same. (ws, no_write, (w, (found-IsReceiptOf t r found same, found.2))))
        (λ _. (ws, no_write, w))

  pub commit-IsCommitted :
      (t : Trace Reply) → registry_writes t ≡ ws → Ensures IsCommitted t (commit s c)
  unfolding commit
  commit-IsCommitted t w =
      Ensures-bind (IsRead s c.ref ws c.snapshot_id) IsCommitted t
        (read_commit_record s c.ref c.snapshot_id c.retention_days) (commit_again s c)
        (read_commit_record-IsRead s c.ref ws t c.snapshot_id c.retention_days w)
        (λ t₁ o h. commit_again-IsCommitted t₁ o h.0 h.1) (λ t₁ e h. (ws, no_write, h))
