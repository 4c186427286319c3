-- ===== src/Base/Texts.antt =====
-- Tests on texts.
use Prim.Native.Char.{code}
use Prim.Native.Nat.{ℕ}
use Prim.Native.String.{String}
use mathlib.Core.Bool.{Bool, ◌&&◌, ◌||◌}
use mathlib.Core.List.{List, [], ◌∷◌}
use ach_agent.Base.Tests.{leb, ◌==◌, nat_eq}
use ach_agent.Base.Lists.{length}

-- The code points of a text.
abbrev pub codes : String → List ℕ
codes String.[] = []
codes (String.◌∷◌ c s) = code c ∷ codes s

abbrev pub is_lower_hex : ℕ → Bool
is_lower_hex c = (leb b'0' c && leb c b'9') || (leb b'a' c && leb c b'f')

abbrev pub all_of : (ℕ → Bool) → List ℕ → Bool
all_of p [] = Bool.true
all_of p (c ∷ cs) = p c && all_of p cs

-- [0-9a-f]{64}
unfoldable pub is_hex64 : String → Bool
is_hex64 s = length (codes s) == 64 && all_of is_lower_hex (codes s)

abbrev hex_then_newline : List ℕ → Bool
hex_then_newline [] = Bool.false
hex_then_newline (c ∷ []) = c == 10
hex_then_newline (c ∷ cs) = is_lower_hex c && hex_then_newline cs

-- `match` of ^[0-9a-f]{64}$, whose `$` stands before a newline at the end as well
unfoldable pub is_hex64_line : String → Bool
unfolding is_hex64
is_hex64_line s = is_hex64 s || (length (codes s) == 65 && hex_then_newline (codes s))
