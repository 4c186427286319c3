-- ===== src/Storage/Capped/Examples.antt =====
-- storage/archive.py: two chunks under a cap of five bytes.
use ach_agent.Base.{ℕ, true, false, List, [], ◌∷◌, ◌≡◌, refl}
use ach_agent.Storage.Capped.{Owned, returned, raises_error, write_capped}
use ach_agent.Storage.Capped.Outcomes.{IsWritten, write_capped-Undisturbed}

abbrev fine : Owned
fine = record { was_cancelled = false; raised = false }

abbrev two_chunks : List (ℕ × Owned)
two_chunks = (3, fine) ∷ (2, fine) ∷ []

test_fits : write_capped 5 fine two_chunks false fine fine ≡ (returned 5, true)
unfolding write_capped
test_fits = refl

test_too_large : write_capped 4 fine two_chunks false fine fine ≡ (raises_error, false)
unfolding write_capped
test_too_large = refl

-- The unlink raises: what was written stays.
abbrev refused : Owned
refused = record { was_cancelled = false; raised = true }

test_left : write_capped 4 fine two_chunks false fine refused ≡ (raises_error, true)
unfolding write_capped
test_left = refl

write_capped-Undisturbed_example :
    IsWritten 5 fine two_chunks false fine refused
      (write_capped 5 fine two_chunks false fine refused)
write_capped-Undisturbed_example = write_capped-Undisturbed 5 fine two_chunks false fine refused
