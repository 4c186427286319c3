-- ===== src/Storage/Capped/Outcomes.antt =====
-- storage/archive.py: when `write_capped` returns.
use ach_agent.Base.{
  refl, sym, ◌∙◌, ◌⊎◌, inl, inr, if_cases, ap, ℕ, ◌+◌, ◌≤◌, Bool, true, false, List, [], ◌∷◌, ◌≡◌,
  ◌↔◌, arith,
}
use ach_agent.Base.Lists.{sum_of}
use ach_agent.Storage.Capped.{
  Owned, Progress, copy, WriteOutcome, returned, finish_write, close_file, write_capped,
}

-- A call that was neither cancelled nor raised.
pub record Clean (o : Owned) : Type 0 where
  pub kept_on : o.was_cancelled ≡ false
  pub worked : o.raised ≡ false

abbrev pub AllClean : List (ℕ × Owned) → Type 0
AllClean [] = Unit
AllClean ((n, o) ∷ chunks) = Clean o × AllClean chunks

abbrev pub bytes_of : List (ℕ × Owned) → ℕ
bytes_of chunks = sum_of (λ (c : ℕ × Owned). c.0) chunks

-- What the loop needs to come to its end.
pub record Copied (max_bytes : ℕ) (chunks : List (ℕ × Owned)) (stream_raises : Bool) (total : ℕ)
    : Type 0 where
  pub fits : total + bytes_of chunks ≤ max_bytes
  pub all_clean : AllClean chunks
  pub stream_ends : stream_raises ≡ false

record Ended (total : ℕ) (p : Progress) : Type 0 where
  all : p.total ≡ total
  going_on : p.cancelled ≡ false
  fine : p.failed ≡ false

copy-Ended :
    (max_bytes : ℕ) (chunks : List (ℕ × Owned)) (stream_raises : Bool) (total : ℕ)
    → Copied max_bytes chunks stream_raises total
    → Ended (total + bytes_of chunks) (copy max_bytes chunks stream_raises total)
unfolding copy
copy-Ended max_bytes [] stream_raises total h = ground (arith, h.stream_ends)
copy-Ended max_bytes ((n, o) ∷ chunks) stream_raises total h =
    let later = copy-Ended max_bytes chunks stream_raises (total + n) (record {
      fits = omega (arith, h.fits);
      all_clean = h.all_clean.1;
      stream_ends = h.stream_ends;
    }) in
    ground (
      arith, h.fits, h.all_clean.0.kept_on, h.all_clean.0.worked, later.all, later.going_on,
      later.fine,
    )

copy-Copied :
    (max_bytes : ℕ) (chunks : List (ℕ × Owned)) (stream_raises : Bool) (total : ℕ)
    → total ≤ max_bytes
    → (copy max_bytes chunks stream_raises total).cancelled ≡ false
    → (copy max_bytes chunks stream_raises total).failed ≡ false
    → Copied max_bytes chunks stream_raises total
unfolding copy
copy-Copied max_bytes [] stream_raises total small c f = record {
  fits = omega (arith, small);
  all_clean = tt;
  stream_ends = f;
}
copy-Copied max_bytes ((n, o) ∷ chunks) stream_raises total small c f =
    let later =
      copy-Copied max_bytes chunks stream_raises (total + n) (ground (arith, c, f))
        (ground (arith, c, f)) (ground (arith, c, f)) in
    record {
      fits = omega (arith, later.fits);
      all_clean = (ground (arith, c, f), later.all_clean);
      stream_ends = later.stream_ends;
    }

-- What a return of `write_capped` needs.
pub record Undisturbed (max_bytes : ℕ) (opens : Owned) (chunks : List (ℕ × Owned))
    (stream_raises : Bool) (closes : Owned) : Type 0 where
  pub opened : Clean opens
  pub copied : Copied max_bytes chunks stream_raises 0
  pub closed : Clean closes

returned_same : (n m : ℕ) → returned n ≡ returned m → n ≡ m
returned_same n m h = ground (arith, h)

module _ (max_bytes : ℕ) (opens : Owned) (chunks : List (ℕ × Owned)) (stream_raises : Bool)
    (closes unlinks : Owned) where
  returned-Undisturbed :
      (n : ℕ)
      → (write_capped max_bytes opens chunks stream_raises closes unlinks).0 ≡ returned n
      → Undisturbed max_bytes opens chunks stream_raises closes
  unfolding write_capped finish_write close_file
  returned-Undisturbed n h = record {
    opened = ground (arith, h);
    copied =
        copy-Copied max_bytes chunks stream_raises 0 (omega arith) (ground (arith, h))
          (ground (arith, h));
    closed = ground (arith, h);
  }

  Undisturbed-returned :
      Undisturbed max_bytes opens chunks stream_raises closes
      → write_capped max_bytes opens chunks stream_raises closes unlinks
        ≡ (returned (bytes_of chunks), true)
  unfolding write_capped finish_write close_file
  Undisturbed-returned h =
      let e = copy-Ended max_bytes chunks stream_raises 0 h.copied in
      ground (
        arith, e.all, e.going_on, e.fine, h.opened.kept_on, h.opened.worked, h.closed.kept_on,
        h.closed.worked,
      )

  -- It is left because it was returned for, or because the unlink raised.
  left-returned :
      (write_capped max_bytes opens chunks stream_raises closes unlinks).1 ≡ true
      → ((n : ℕ) × ((write_capped max_bytes opens chunks stream_raises closes unlinks).0
            ≡ returned n))
        ⊎ (unlinks.raised ≡ true)
  unfolding write_capped finish_write close_file
  left-returned h =
      let opened : Progress = record {
        total = 0;
        cancelled = opens.was_cancelled;
        failed = opens.raised;
      } in
      if_cases Left opens.raised (finish_write unlinks opened) _ (λ _. finished opened)
        (λ _. finished _) h
    where
      Left : WriteOutcome × Bool → Type 0
      Left r = r.1 ≡ true → ((n : ℕ) × (r.0 ≡ returned n)) ⊎ (unlinks.raised ≡ true)

      finished : (p : Progress) → Left (finish_write unlinks p)
      finished p =
          if_cases Left p.cancelled _ _ (λ _ e. inr e)
            (λ _. if_cases Left p.failed _ _ (λ _ e. inr e) (λ _ e. inl (p.total, refl)))

  unremoved :
      unlinks.raised ≡ true
      → (write_capped max_bytes opens chunks stream_raises closes unlinks).1 ≡ true
  unfolding write_capped finish_write close_file
  unremoved h = ground (arith, h)

-- What `write_capped` comes to: it returns exactly if nothing disturbs it, and then the number of the
-- bytes; and `dest` is not removed exactly if nothing disturbs it or the unlink raises.
pub record IsWritten (max_bytes : ℕ) (opens : Owned) (chunks : List (ℕ × Owned))
    (stream_raises : Bool) (closes unlinks : Owned) (r : WriteOutcome × Bool) : Type 0 where
  pub returns :
      (n : ℕ)
      → (r.0 ≡ returned n)
        ↔ ((n ≡ bytes_of chunks) × Undisturbed max_bytes opens chunks stream_raises closes)
  pub left :
      (r.1 ≡ true)
      ↔ (Undisturbed max_bytes opens chunks stream_raises closes ⊎ (unlinks.raised ≡ true))

-- `write_capped` returns exactly if no step of it before the unlink was cancelled or raised and the
-- chunks fit the cap, and then the number of their bytes. It leaves `dest` unremoved exactly if it
-- returns or the unlink, whose failure it does not look at, raised.
pub write_capped-Undisturbed :
    (max_bytes : ℕ) (opens : Owned) (chunks : List (ℕ × Owned)) (stream_raises : Bool)
    (closes unlinks : Owned)
    → IsWritten max_bytes opens chunks stream_raises closes unlinks
        (write_capped max_bytes opens chunks stream_raises closes unlinks)
write_capped-Undisturbed max_bytes opens chunks stream_raises closes unlinks =
    let back = Undisturbed-returned max_bytes opens chunks stream_raises closes unlinks in
    let there = returned-Undisturbed max_bytes opens chunks stream_raises closes unlinks in
    let left = left-returned max_bytes opens chunks stream_raises closes unlinks in
    record {
      returns = λ n. (
        (λ e. (
          returned_same n (bytes_of chunks)
              (sym e ∙ ap (λ (r : WriteOutcome × Bool). r.0) (back (there n e))),
          there n e,
        )),
        (λ (same, u). ap (λ (r : WriteOutcome × Bool). r.0) (back u) ∙ ap returned (sym same)),
      );
      left = (
        (λ h. elim (left h) [ inl (n, e) ↦ inl (there n e) | inr e ↦ inr e ]),
        (λ h. elim h [
          | inl u ↦ ap (λ (r : WriteOutcome × Bool). r.1) (back u)
          | inr e ↦ unremoved max_bytes opens chunks stream_raises closes unlinks e
        ]),
      );
    }
