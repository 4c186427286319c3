-- ===== src/Storage/S3/Commit/Persisted.antt =====
-- storage/s3.py: what `persist` comes to.
use ach_agent.Base.{
  ap, ◌∙◌, ◌≡◌, refl, subst, ℕ, String, not, Option, none, some, [], ◌∷◌, ◌==◌, string_eq, nat_eq,
  if_cases, arith,
}
use ach_agent.Base.Program.{
  raise, call, attempt, Outcome, returns, raises, from_outcome, ◌>>=◌, Trace, Ensures, Ensures-bind,
  Ensures-try, Ensures-execute, Environment, execute,
}
use ach_agent.Base.Program.Extends.{Extends, as_it_was, Ensures-Extends}
use ach_agent.Storage.S3.Commit.Prepared.{
  IsRead, ReadsFirst, read_registry-ReadsFirst, IsReceived, Receives, receive_bounded-Receives,
}
use ach_agent.Storage.Fencing.{Fenced, RegistryDoc, WriterLease, assert_lease_current}
use ach_agent.Storage.Refs.{StateRef, ref_eq}
use ach_agent.Storage.S3.Documents.{PersistReceipt}
use ach_agent.Storage.S3.Requests.{
  StorageFailure, fenced, other_ref, Drained, Reply, Settings, registry_writes, unlink_staging,
}
use ach_agent.Storage.S3.Registry.{read_registry}
use ach_agent.Storage.S3.Persist.{receive_bounded, checked_lease}
use ach_agent.Storage.S3.Commit.{
  commit, commit_of, finish_persist, transient_or, persist_over, persist,
}
use ach_agent.Storage.S3.Commit.Once.{IsCommitted, commit-IsCommitted}

leased-current :
    (why : Option Fenced) (read current : RegistryDoc × String)
    → elim why [ some f ↦ raises (fenced f) | none ↦ returns read ] ≡ returns current
    → (why ≡ none) × (read ≡ current)
leased-current none read current h = (refl, ground (arith, h))
leased-current (some f) read current h = absurd (ground (arith, h))

checked_lease-current :
    (lease : WriterLease) (read : Option (RegistryDoc × String)) (current : RegistryDoc × String)
    → checked_lease lease read ≡ returns current
    → (assert_lease_current (some current.0) lease ≡ none) × (read ≡ some current)
unfolding checked_lease assert_lease_current
checked_lease-current lease none current h = absurd (ground (arith, h))
checked_lease-current lease (some read) current h =
    let (fresh, same) = leased-current (assert_lease_current (some read.0) lease) read current h in
    (
      subst (λ (c : RegistryDoc × String). assert_lease_current (some c.0) lease ≡ none) same fresh,
      ap some same,
    )

module _ (s : Settings) (ref : StateRef) (snapshot_id : String) (lease : WriterLease)
    (expected_base : Option String) (retention_days : ℕ) where
  -- Either nothing is committed, or a commit of what was received is made under a lease that is current
  -- in the document that the first request read, the staging file is removed behind it, and its outcome
  -- is passed on.
  pub data Persisted : Trace Reply → Outcome StorageFailure PersistReceipt → Type 0 where
    not_committed :
        (t : Trace Reply) (e : StorageFailure) → registry_writes t ≡ [] → Persisted t (raises e)
    committed :
        (received : String × ℕ) (current : RegistryDoc × String) (first start t : Trace Reply)
        (result : Outcome StorageFailure PersistReceipt) (u : Drained (Unit {0}))
        → IsRead s ref first (some current)
        → assert_lease_current (some current.0) lease ≡ none
        → IsReceived s first start received
        → Extends start t
        → IsCommitted s
            (commit_of ref snapshot_id lease expected_base retention_days received current)
            []
            t
            result
        → Persisted ((unlink_staging, u) ∷ t) (finish_persist result u)

  finished-Persisted :
      (t : Trace Reply) (o o' : Outcome StorageFailure PersistReceipt)
      → o ≡ o'
      → Persisted t o
      → Ensures Persisted t (from_outcome o')
  finished-Persisted t o (returns r) same h = subst (Persisted t) same h
  finished-Persisted t o (raises e) same h = subst (Persisted t) same h

  received-Persisted :
      (first start : Trace Reply) (received : String × ℕ) (current : RegistryDoc × String)
      → IsRead s ref first (some current)
      → assert_lease_current (some current.0) lease ≡ none
      → registry_writes first ≡ []
      → IsReceived s first start received
      → let c = commit_of ref snapshot_id lease expected_base retention_days received current in
        Ensures Persisted start (
          attempt (commit s c) >>= λ result.
          call unlink_staging λ u. from_outcome (finish_persist result u))
  received-Persisted first start received current read fresh w got =
      let c = commit_of ref snapshot_id lease expected_base retention_days received current in
      Ensures-try (λ t o. IsCommitted s c [] t o × Extends start t) Persisted start (commit s c) _
        (Ensures-Extends (IsCommitted s c []) start start (commit s c) as_it_was
          (commit-IsCommitted s c [] start (ap registry_writes got.asked ∙ w)))
        λ t result h u.
          finished-Persisted _ (finish_persist result u) (finish_persist result u) refl
            (committed received current first start t result u read fresh got h.1 h.0)

  persist_over-Persisted :
      (t : Trace Reply) (current : RegistryDoc × String)
      → IsRead s ref t (some current)
      → assert_lease_current (some current.0) lease ≡ none
      → registry_writes t ≡ []
      → Ensures Persisted t
          (persist_over s ref snapshot_id lease expected_base retention_days current)
  persist_over-Persisted t current read fresh w =
      Ensures-bind (Receives s t w) Persisted t (receive_bounded s) _
        (receive_bounded-Receives s t w)
        (λ t₁ received got. received-Persisted t t₁ received current read fresh w got)
        (λ t₁ e h. not_committed t₁ e h)

  leased-Persisted :
      (t : Trace Reply) (read : Option (RegistryDoc × String))
      (o : Outcome StorageFailure (RegistryDoc × String))
      → checked_lease lease read ≡ o
      → IsRead s ref t read
      → registry_writes t ≡ []
      → Ensures Persisted t
          (from_outcome o >>= persist_over s ref snapshot_id lease expected_base retention_days)
  leased-Persisted t read (raises e) h r w = not_committed t e w
  leased-Persisted t read (returns current) h r w =
      let (fresh, same) = checked_lease-current lease read current h in
      persist_over-Persisted t current (subst (IsRead s ref t) same r) fresh w

  read-Persisted :
      (t : Trace Reply) (o : Outcome StorageFailure (Option (RegistryDoc × String)))
      → ReadsFirst s ref t o
      → Ensures Persisted t (
          from_outcome (transient_or o) >>= λ read.
          from_outcome (checked_lease lease read)
          >>= persist_over s ref snapshot_id lease expected_base retention_days)
  read-Persisted t (raises e) w = not_committed t _ w
  read-Persisted t (returns read) r =
      leased-Persisted t read (checked_lease lease read) refl r (ap registry_writes r.asked)

-- Whatever the storage answers, `persist` writes the registry at most once: the next document of the
-- lease's epoch, under a lease that was current in the document that its first request read, and on the
-- condition that the registry still has the expected ETag. Where it comes to a commit, the requests
-- before it were that read, the making of the staging file, the writing of the stream to it, and its
-- hash; a receipt that is returned is for the snapshot, with that hash and the size that was written,
-- and the last request before the staging file was removed wrote the receipt's commit record, or read
-- it.
pub persist-Persisted :
    (s : Settings) (ref : StateRef) (snapshot_id : String) (lease : WriterLease)
    (expected_base : Option String) (retention_days : ℕ) (env : Environment Reply)
    → let end = execute env [] (persist s ref snapshot_id lease expected_base retention_days) in
      Persisted s ref snapshot_id lease expected_base retention_days end.0 end.1
unfolding persist
persist-Persisted s ref snapshot_id lease expected_base retention_days env =
    let Q = Persisted s ref snapshot_id lease expected_base retention_days in
    Ensures-execute Q env [] (persist s ref snapshot_id lease expected_base retention_days) (
      if_cases (λ p. Ensures Q [] p) (not (lease.ref == ref)) (raise other_ref) _
        (λ _. not_committed [] other_ref refl)
        (λ _.
          Ensures-try (ReadsFirst s ref) Q [] (read_registry s ref) _
            (read_registry-ReadsFirst s ref)
            (λ t o w. read-Persisted s ref snapshot_id lease expected_base retention_days t o w)))
