-- ===== src/Storage/Fencing/Examples.antt =====
-- storage/fencing.py: a writer that commits until another one takes over.
use ach_agent.Base.{none, some, List, [], ◌∷◌, ◌≡◌, ◌↔◌, refl}
use ach_agent.Storage.Refs.{StateRef, workspace}
use ach_agent.Storage.Fencing.{
  WriterLease, LatestEntry, superseded, assert_lease_current, acquired, lease_on, RegistryWrite,
  acquires, persists, write_all,
}
use ach_agent.Storage.Fencing.History.{acquisitions, lease_current-acquisitions}

abbrev first_snapshot : LatestEntry
first_snapshot = record {
  snapshot_id = "s1";
  checksum = "c1";
  size = 10;
  version = 1;
  committed_at = none;
  expires_at = none;
}

abbrev domain : StateRef
domain = record {
  agent = record { name = "agent"; namespace = "prod"; uid = "u" };
  workspace_ref = "w";
  domain = workspace;
  session_ref = none;
}

abbrev lease_a : WriterLease
lease_a = record { ref = domain; writer_instance_id = "pod-a"; epoch = 1; base_etag = none }

abbrev taken_over : List RegistryWrite
taken_over =
    persists lease_a first_snapshot ∷ acquires "pod-b" ∷ persists lease_a first_snapshot ∷ []

test_fenced :
    assert_lease_current
      (some (write_all taken_over (acquired "pod-a" none)))
      (lease_on domain "pod-a" "e1" (acquired "pod-a" none))
    ≡ some superseded
unfolding write_all
test_fenced = refl

lease_current-acquisitions_example :
    (assert_lease_current
        (some (write_all taken_over (acquired "pod-a" none)))
        (lease_on domain "pod-a" "e1" (acquired "pod-a" none))
      ≡ none)
    ↔ (acquisitions taken_over ≡ 0)
lease_current-acquisitions_example = lease_current-acquisitions domain "pod-a" "e1" none taken_over
