-- ===== src/Storage/S3/Commit/Prepared.antt =====
-- storage/s3.py: what `persist` has read and received when it starts to commit.
use ach_agent.Base.{◌≡◌, refl, ℕ, String, Bool, true, false, Option, [], ◌∷◌}
use ach_agent.Base.Program.{Outcome, returns, raises, from_outcome, Trace, Ensures}
use ach_agent.Storage.Fencing.{RegistryDoc}
use ach_agent.Storage.Refs.{StateRef, registry_key}
use ach_agent.Storage.S3.Requests.{
  StorageFailure, done, Fetched, Writing, get_object, create_staging, write_stream, hash_staging,
  Reply, Settings, registry_writes,
}
use ach_agent.Storage.S3.Registry.{bounded, decode_registry, read_registry}
use ach_agent.Storage.S3.Registry.Reads.{require_client-Ensures}
use ach_agent.Storage.S3.Persist.{
  checksum_and_size, hash_of_size, staged, received_size, receive_bounded,
}

module _ (s : Settings) (ref : StateRef) where
  -- The only request was a read of the registry, whose reply is the document.
  pub record IsRead (t : Trace Reply) (read : Option (RegistryDoc × String)) : Type 0 where
    pub reply : Outcome StorageFailure Fetched
    pub asked : t ≡ ((get_object (registry_key ref), reply) ∷ [])
    pub decoded : decode_registry s (bounded reply) ≡ returns read

  abbrev pub ReadsFirst :
      Trace Reply → Outcome StorageFailure (Option (RegistryDoc × String)) → Type 0
  ReadsFirst t (raises e) = registry_writes t ≡ []
  ReadsFirst t (returns read) = IsRead t read

  decoded-ReadsFirst :
      (reply : Outcome StorageFailure Fetched)
      (o : Outcome StorageFailure (Option (RegistryDoc × String)))
      → decode_registry s (bounded reply) ≡ o
      → Ensures ReadsFirst ((get_object (registry_key ref), reply) ∷ []) (from_outcome o)
  decoded-ReadsFirst reply (raises e) d = refl
  decoded-ReadsFirst reply (returns read) d = record { reply = reply; asked = refl; decoded = d }

  pub read_registry-ReadsFirst : Ensures ReadsFirst [] (read_registry s ref)
  unfolding read_registry
  read_registry-ReadsFirst =
      require_client-Ensures ReadsFirst s [] _ (λ x. decoded-ReadsFirst x _ refl) refl

-- Behind `start`, a staging file was made, the stream was written to it in `received.1` bytes, and
-- `received.0` is its hash.
pub record IsReceived (s : Settings) (start t : Trace Reply) (received : String × ℕ) : Type 0 where
  pub written : Writing
  pub asked : t ≡ (
      (hash_staging, done received.0)
      ∷ ((write_stream, written) ∷ ((create_staging, done tt) ∷ start)))
  pub sized : received_size s written ≡ returns received.1

module _ (s : Settings) (start : Trace Reply) (quiet : registry_writes start ≡ []) where
  abbrev pub Receives : Trace Reply → Outcome StorageFailure (String × ℕ) → Type 0
  Receives t (raises e) = registry_writes t ≡ []
  Receives t (returns received) = IsReceived s start t received

  abbrev writing : Writing → Trace Reply
  writing w = (write_stream, w) ∷ ((create_staging, done tt) ∷ start)

  hashed-Receives :
      (w : Writing) (size : ℕ)
      → received_size s w ≡ returns size
      → (b : Bool) (o : Outcome StorageFailure String)
      → Ensures Receives
          ((hash_staging, record { was_cancelled = b; outcome = o }) ∷ writing w)
          (checksum_and_size size b o)
  hashed-Receives w size sized b (raises e) = λ _. quiet
  hashed-Receives w size sized true (returns checksum) = λ _. quiet
  hashed-Receives w size sized false (returns checksum) = record {
    written = w;
    asked = refl;
    sized = sized;
  }

  sized-Receives :
      (w : Writing) (o : Outcome StorageFailure ℕ)
      → received_size s w ≡ o
      → Ensures Receives (writing w) (hash_of_size o)
  sized-Receives w (raises e) sized = quiet
  sized-Receives w (returns size) sized =
      λ h. hashed-Receives w size sized h.was_cancelled h.outcome

  staged-Receives :
      (b : Bool) (o : Outcome StorageFailure (Unit {0}))
      → Ensures Receives
          ((create_staging, record { was_cancelled = b; outcome = o }) ∷ start)
          (staged s b o)
  staged-Receives b (raises e) = quiet
  staged-Receives true (returns u) = λ _. quiet
  staged-Receives false (returns u) = λ w. sized-Receives w (received_size s w) refl

  pub receive_bounded-Receives : Ensures Receives start (receive_bounded s)
  unfolding receive_bounded
  receive_bounded-Receives = λ c. staged-Receives c.was_cancelled c.outcome
