-- ===== src/Storage/S3/Acquire.antt =====
-- storage/s3.py: `acquire_writer`, which retries a conditional write of the registry.
pub mod Bounded
use ach_agent.Base.{
  ◌≡◌, refl, ℕ, zero, suc, String, Bool, true, false, not, ◌&&◌, ◌||◌, Option, none, some, List, [],
  ◌∷◌, ltb, ◌==◌, nat_eq, string_eq, if◌then◌else◌,
}
use ach_agent.Base.Equality.{option_eq}
use ach_agent.Base.Program.{Program, give, raise, call, Outcome, returns, raises, ◌>>=◌, attempt}
use ach_agent.Storage.Fencing.{RegistryDoc, WriterLease, acquired, lease_on}
use ach_agent.Storage.Refs.{StateRef}
use ach_agent.Storage.S3.Requests.{
  StorageFailure, snapshot_transient, precondition_failed, runtime_error, is_snapshot_transient,
  lost_race, as_transient, S3, Settings,
}
use ach_agent.Storage.S3.Registry.{
  cas_retry_limit, require_client, read_registry, cas_write_registry,
}

abbrev pub etag_of : Option (RegistryDoc × String) → Option String
etag_of none = none
etag_of (some (doc, etag)) = some etag

abbrev pub doc_of : Option (RegistryDoc × String) → Option RegistryDoc
doc_of none = none
doc_of (some (doc, etag)) = some doc

abbrev pub served_again : Option String → Option String → Bool
served_again none rejected = false
served_again (some etag) rejected = some etag == rejected

-- The turns of the loop, each with the turns behind it, which get the ETag that was rejected. A
-- PreconditionFailed of either call goes on to the next turn.
module _ (s : Settings) (ref : StateRef) (writer : String)
    (next : Option String → S3 WriterLease) where
  abbrev pub replied : RegistryDoc → Option String → Outcome StorageFailure String → S3 WriterLease
  replied doc etag (returns new_etag) = give (lease_on ref writer new_etag doc)
  replied doc etag (raises e) = if lost_race e then next etag else raise (as_transient e)

  abbrev pub write_over : Option (RegistryDoc × String) → S3 WriterLease
  write_over current =
      let doc = acquired writer (doc_of current) in
      attempt (cas_write_registry s ref doc (etag_of current)) >>= replied doc (etag_of current)

  abbrev pub turn :
      Option String
      → Option String
      → Outcome StorageFailure (Option (RegistryDoc × String))
      → S3 WriterLease
  turn etag rejected (raises e) = if lost_race e then next etag else raise (as_transient e)
  turn etag rejected (returns current) =
      if served_again (etag_of current) rejected then raise runtime_error else write_over current

-- The loop with the turns that are left; `rejected` is also the ETag of the turn before.
unfoldable pub acquire_loop : Settings → StateRef → String → ℕ → Option String → S3 WriterLease
unfolding read_registry cas_write_registry acquired is_snapshot_transient
acquire_loop s ref writer zero rejected = raise runtime_error
acquire_loop s ref writer (suc n) rejected =
    attempt (read_registry s ref)
    >>= turn s ref writer (acquire_loop s ref writer n) rejected rejected

unfoldable pub acquire_writer : Settings → StateRef → String → S3 WriterLease
unfolding acquire_loop
acquire_writer s ref writer = do
  client ← require_client s
  acquire_loop s ref writer cas_retry_limit none
