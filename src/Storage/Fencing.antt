-- ===== src/Storage/Fencing.antt =====
-- storage/fencing.py: the document of the registry, and when a lease is refused. storage/s3.py: the
-- document that `acquire_writer` and `persist` write next. A conditional write replaces the document
-- that was read or fails, so a domain's history is the list of the writes that succeeded.
mod Examples
pub mod History
use ach_agent.Storage.Refs.{StateRef}
use ach_agent.Base.{
  ℕ, ◌+◌, String, Bool, not, Option, none, some, List, [], ◌∷◌, ◌==◌, nat_eq, string_eq,
  if◌then◌else◌,
}

pub record LatestEntry : Type 0 where
  pub snapshot_id : String
  pub checksum : String
  pub size : ℕ
  pub version : ℕ
  pub committed_at : Option String
  pub expires_at : Option String

pub record RegistryDoc : Type 0 where
  pub writer_epoch : ℕ
  pub writer_instance_id : String
  pub generation : ℕ
  pub latest : Option LatestEntry

-- RegistryDoc.empty
abbrev pub empty_doc : String → RegistryDoc
empty_doc writer = record {
  writer_epoch = 1;
  writer_instance_id = writer;
  generation = 1;
  latest = none;
}

unfoldable pub with_new_writer : String → RegistryDoc → RegistryDoc
with_new_writer writer doc = record doc {
  writer_epoch = doc.writer_epoch + 1;
  writer_instance_id = writer;
  generation = doc.generation + 1;
}

unfoldable pub with_committed_snapshot : ℕ → String → LatestEntry → RegistryDoc → RegistryDoc
with_committed_snapshot epoch writer entry doc = record doc {
  writer_epoch = epoch;
  writer_instance_id = writer;
  generation = doc.generation + 1;
  latest = some entry;
}

pub record WriterLease : Type 0 where
  pub ref : StateRef
  pub writer_instance_id : String
  pub epoch : ℕ
  pub base_etag : Option String

-- Why a lease is refused.
pub data Fenced : Type 0 where
  never_acquired superseded wrong_writer : Fenced

-- assert_lease_current
unfoldable pub assert_lease_current : Option RegistryDoc → WriterLease → Option Fenced
assert_lease_current none lease = some never_acquired
assert_lease_current (some doc) lease =
    if not (doc.writer_epoch == lease.epoch)
    then some superseded
    else if not (doc.writer_instance_id == lease.writer_instance_id)
    then some wrong_writer
    else none

-- the document that acquire_writer writes over the one that it read
unfoldable pub acquired : String → Option RegistryDoc → RegistryDoc
unfolding with_new_writer
acquired writer none = empty_doc writer
acquired writer (some doc) = with_new_writer writer doc

-- the lease that it returns, behind a write that was given the ETag
abbrev pub lease_on : StateRef → String → String → RegistryDoc → WriterLease
lease_on ref writer etag doc = record {
  ref = ref;
  writer_instance_id = writer;
  epoch = doc.writer_epoch;
  base_etag = elim doc.latest [ none ↦ none | some entry ↦ some etag ];
}

-- the document that persist writes over the one that it read, if the lease is current in that one
unfoldable pub committed : WriterLease → LatestEntry → RegistryDoc → RegistryDoc
unfolding assert_lease_current with_committed_snapshot
committed lease entry doc = elim (assert_lease_current (some doc) lease) [
  | none ↦ with_committed_snapshot lease.epoch lease.writer_instance_id entry doc
  | some fenced ↦ doc
]

-- One write to the registry of a domain.
pub data RegistryWrite : Type 0 where
  acquires : String → RegistryWrite
  persists : WriterLease → LatestEntry → RegistryWrite

unfoldable pub write : RegistryWrite → RegistryDoc → RegistryDoc
unfolding acquired committed
write (acquires writer) doc = acquired writer (some doc)
write (persists lease entry) doc = committed lease entry doc

unfoldable pub write_all : List RegistryWrite → RegistryDoc → RegistryDoc
unfolding write
write_all [] doc = doc
write_all (w ∷ later) doc = write_all later (write w doc)
