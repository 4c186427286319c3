-- ===== src/Storage/Archive/Examples.antt =====
-- storage/archive.py: an archive of a file and a link to it.
use ach_agent.Base.{List, [], ◌∷◌, ◌≡◌, ◌↔◌, refl, none, some, arith}
use ach_agent.Base.Integers.{pos, negsuc}
use ach_agent.Storage.Archive.{
  directory, Member, regular, symlink, new_check, check_all, escaping_link,
}
use ach_agent.Storage.Archive.Whole.{check_all-Fits, Fits}

-- "a/b", and "a/l" which points to "../a/b"
abbrev file_and_link : List Member
file_and_link =
    record { name = 97 ∷ 47 ∷ 98 ∷ []; type = regular; linkname = []; size = pos 5 }
    ∷ record {
      name = 97 ∷ 47 ∷ 108 ∷ [];
      type = symlink;
      linkname = 46 ∷ 46 ∷ 47 ∷ 97 ∷ 47 ∷ 98 ∷ [];
      size = pos 0;
    }
    ∷ []

-- "l" which points to ".."
abbrev escape : List Member
escape = record { name = 108 ∷ []; type = symlink; linkname = 46 ∷ 46 ∷ []; size = pos 0 } ∷ []

test_accepts : (check_all file_and_link (new_check 100 10)).1 ≡ none
unfolding check_all
test_accepts = refl

test_refuses : (check_all escape (new_check 100 10)).1 ≡ some escaping_link
unfolding check_all
test_refuses = refl

-- A directory of -2 bytes makes room for a file of 6 under a cap of 5.
abbrev lowered : List Member
lowered =
    record { name = 97 ∷ []; type = directory; linkname = []; size = negsuc 1 }
    ∷ record { name = 98 ∷ []; type = regular; linkname = []; size = pos 6 }
    ∷ []

test_lowered : (check_all lowered (new_check 5 10)).1 ≡ none
unfolding check_all
test_lowered = refl

check_all-Fits_example :
    ((check_all file_and_link (new_check 100 10)).1 ≡ none) ↔ Fits file_and_link (new_check 100 10)
check_all-Fits_example = check_all-Fits file_and_link (new_check 100 10) (omega arith) refl
