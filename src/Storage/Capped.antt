-- ===== src/Storage/Capped.antt =====
-- storage/archive.py: `write_capped`, which streams chunks into a file up to a cap. What a call of
-- `_run_owned` comes to is an argument: whether the caller was cancelled meanwhile, and whether the
-- worker raised. A chunk is its length. A cancellation while the stream itself is awaited counts as
-- raised by the stream.
mod Examples
pub mod Outcomes
use ach_agent.Base.{ℕ, ◌+◌, Bool, true, false, ◌||◌, List, [], ◌∷◌, ltb, if◌then◌else◌}

pub record Owned : Type 0 where
  pub was_cancelled : Bool
  pub raised : Bool

-- `total`, `cancelled` and whether `exc` is set
pub record Progress : Type 0 where
  pub total : ℕ
  pub cancelled : Bool
  pub failed : Bool

-- the `async for`; the stream raises at its end or not
unfoldable pub copy : ℕ → List (ℕ × Owned) → Bool → ℕ → Progress
copy max_bytes [] stream_raises total = record {
  total = total;
  cancelled = false;
  failed = stream_raises;
}
copy max_bytes ((n, o) ∷ chunks) stream_raises total =
    let later = copy max_bytes chunks stream_raises (total + n) in
    if ltb max_bytes (total + n)
    then record { total = total + n; cancelled = false; failed = true }
    else if o.raised || o.was_cancelled
    then record { total = total + n; cancelled = o.was_cancelled; failed = o.raised }
    else later

pub data WriteOutcome : Type 0 where
  returned : ℕ → WriteOutcome
  raises_cancelled raises_error : WriteOutcome

-- Behind the close: the outcome, and whether `dest` was not removed. What comes of the unlink is not
-- looked at.
unfoldable pub finish_write : Owned → Progress → WriteOutcome × Bool
finish_write unlinks p =
    if p.cancelled
    then (raises_cancelled, unlinks.raised)
    else if p.failed
    then (raises_error, unlinks.raised)
    else (returned p.total, true)

-- The close counts only where nothing ended the writing before it.
unfoldable pub close_file : Owned → Progress → Progress
close_file closes p =
    if p.cancelled || p.failed
    then p
    else record { total = p.total; cancelled = closes.was_cancelled; failed = closes.raised }

-- write_capped
unfoldable pub write_capped :
    ℕ → Owned → List (ℕ × Owned) → Bool → Owned → Owned → WriteOutcome × Bool
unfolding copy finish_write close_file
write_capped max_bytes opens chunks stream_raises closes unlinks =
    let opened : Progress = record {
      total = 0;
      cancelled = opens.was_cancelled;
      failed = opens.raised;
    } in
    let copied = copy max_bytes chunks stream_raises 0 in
    if opens.raised
    then finish_write unlinks opened
    else finish_write unlinks (close_file closes (if opens.was_cancelled then opened else copied))
