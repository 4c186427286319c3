-- ===== src/Storage/Fencing/History.antt =====
-- storage/fencing.py: for how long a lease is current.
use ach_agent.Base.{
  ℕ, ◌+◌, String, Option, none, some, List, [], ◌∷◌, ◌≡◌, ◌↔◌, refl, arith, ==_iff, nat_eq,
  string_eq, ◌∙◌,
}
use ach_agent.Storage.Refs.{StateRef}
use ach_agent.Storage.Fencing.{
  LatestEntry, RegistryDoc, with_new_writer, with_committed_snapshot, WriterLease,
  assert_lease_current, acquired, lease_on, committed, RegistryWrite, acquires, persists, write,
  write_all,
}

abbrev pub acquisitions : List RegistryWrite → ℕ
acquisitions [] = 0
acquisitions (acquires writer ∷ later) = 1 + acquisitions later
acquisitions (persists lease entry ∷ later) = acquisitions later

-- A commit leaves the writer of the document as it is.
record SameWriter (doc doc' : RegistryDoc) : Type 0 where
  epoch : doc'.writer_epoch ≡ doc.writer_epoch
  writer : doc'.writer_instance_id ≡ doc.writer_instance_id

committed-SameWriter :
    (lease : WriterLease) (entry : LatestEntry) (doc : RegistryDoc)
    → SameWriter doc (committed lease entry doc)
unfolding committed assert_lease_current with_committed_snapshot
committed-SameWriter lease entry doc = ground (
  arith,
  ==_iff doc.writer_epoch lease.epoch,
  ==_iff doc.writer_instance_id lease.writer_instance_id,
)

epoch-write_all :
    (writes : List RegistryWrite) (doc : RegistryDoc)
    → (write_all writes doc).writer_epoch ≡ doc.writer_epoch + acquisitions writes
unfolding write_all write acquired with_new_writer
epoch-write_all [] doc = omega arith
epoch-write_all (acquires writer ∷ later) doc =
    omega (arith, epoch-write_all later (with_new_writer writer doc))
epoch-write_all (persists lease entry ∷ later) doc = omega (
  arith,
  epoch-write_all later (committed lease entry doc),
  (committed-SameWriter lease entry doc).epoch,
)

writer-write_all :
    (writes : List RegistryWrite) (doc : RegistryDoc)
    → acquisitions writes ≡ 0
    → (write_all writes doc).writer_instance_id ≡ doc.writer_instance_id
unfolding write_all write
writer-write_all [] doc none_since = refl
writer-write_all (acquires writer ∷ later) doc none_since = absurd (omega (arith, none_since))
writer-write_all (persists lease entry ∷ later) doc none_since =
    writer-write_all later (committed lease entry doc) none_since
    ∙ (committed-SameWriter lease entry doc).writer

-- A lease that a writer acquires is current exactly until the next acquisition, by any writer:
-- commits in between, by whatever leases, neither end it nor bring an older one back.
pub lease_current-acquisitions :
    (ref : StateRef) (writer etag : String) (before : Option RegistryDoc)
    (writes : List RegistryWrite)
    → let doc = acquired writer before in
      (assert_lease_current (some (write_all writes doc)) (lease_on ref writer etag doc) ≡ none)
      ↔ (acquisitions writes ≡ 0)
unfolding assert_lease_current
lease_current-acquisitions ref writer etag before writes =
    let doc = acquired writer before in
    let last = write_all writes doc in
    (
      (λ e.
          ground (arith, e, epoch-write_all writes doc, ==_iff last.writer_epoch doc.writer_epoch)),
      (λ none_since. ground (
        arith,
        none_since,
        epoch-write_all writes doc,
        writer-write_all writes doc none_since,
        writer_of before,
        ==_iff last.writer_epoch doc.writer_epoch,
        ==_iff last.writer_instance_id writer,
      )),
    )
  where
    writer_of : (before : Option RegistryDoc) → (acquired writer before).writer_instance_id ≡ writer
    writer_of none = unfold acquired in refl
    writer_of (some doc) = unfold acquired with_new_writer in refl
