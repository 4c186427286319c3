-- ===== src/Templating/Render/Pieces.antt =====
-- templating/render.py: what a template of given chunks is scanned to.
use Prim.Native.Char.{Char}
use Prim.Native.String.{◌++◌}
use text.Mathlib.TextLemmas.{cons-append, nil-append}
use ach_agent.Base.{
  ◌≡◌, refl, ap, ◌∙◌, String, Bool, true, false, not, ◌&&◌, Option, none, some, List, [], ◌∷◌,
  string_eq, arith,
}
use ach_agent.Templating.Render.{brace, mark, is_char, Chunks, begun, extended, scan}
use ach_agent.Templating.Render.Lossless.{join}

-- Without braces.
abbrev pub is_plain : String → Bool
is_plain String.[] = true
is_plain (String.◌∷◌ c t) = not (is_char c "{") && not (is_char c "}") && is_plain t

abbrev pub are_plain : List String → Bool
are_plain [] = true
are_plain (t ∷ ts) = is_plain t && are_plain ts

abbrev prefixed : String → Option Chunks → Option Chunks
prefixed t none = none
prefixed t (some (chunk, chunks)) = some (t, chunk ∷ chunks)

not_brace :
    (b : Bool) (c : Char) (t : String)
    → is_plain (String.◌∷◌ c t) ≡ true
    → is_char c (String.◌∷◌ (brace b) String.[]) ≡ false
not_brace false c t h = ground (arith, h)
not_brace true c t h = ground (arith, h)

plain_rest : (c : Char) (t : String) → is_plain (String.◌∷◌ c t) ≡ true → is_plain t ≡ true
plain_rest c t h = ground (arith, h)

scan-plain_char :
    (b : Bool) (c : Char) (t : String)
    → is_char c (String.◌∷◌ (brace b) String.[]) ≡ false
    → scan b (String.◌∷◌ c t) ≡ extended c (scan b t)
unfolding scan
scan-plain_char false c String.[] h = refl
scan-plain_char true c String.[] h = refl
scan-plain_char false c (String.◌∷◌ d t) h = rw h refl
scan-plain_char true c (String.◌∷◌ d t) h = rw h refl

scan-mark : (b : Bool) (rest : String) → scan b (mark b ++ rest) ≡ begun (scan (not b) rest)
unfolding scan
scan-mark false rest =
    rw (cons-append "{" "{" rest, cons-append "{" String.[] rest, nil-append rest) refl
scan-mark true rest =
    rw (cons-append "}" "}" rest, cons-append "}" String.[] rest, nil-append rest) refl

extended-prefixed :
    (c : Char) (t : String) (o : Option Chunks)
    → extended c (prefixed t o) ≡ prefixed (String.◌∷◌ c t) o
extended-prefixed c t none = refl
extended-prefixed c t (some chunks) = refl

begun-prefixed : (o : Option Chunks) → begun o ≡ prefixed String.[] o
begun-prefixed none = refl
begun-prefixed (some chunks) = refl

scan-plain :
    (b : Bool) (t rest : String)
    → is_plain t ≡ true
    → scan b (t ++ (mark b ++ rest)) ≡ prefixed t (scan (not b) rest)
scan-plain b String.[] rest h =
    ap (scan b) (nil-append (mark b ++ rest))
    ∙ scan-mark b rest
    ∙ begun-prefixed (scan (not b) rest)
scan-plain b (String.◌∷◌ c t) rest h =
    ap (scan b) (cons-append c t (mark b ++ rest))
    ∙ scan-plain_char b c (t ++ (mark b ++ rest)) (not_brace b c t h)
    ∙ ap (extended c) (scan-plain b t rest (plain_rest c t h))
    ∙ extended-prefixed c t (scan (not b) rest)

-- The last chunk is a literal.
abbrev pub ended : Bool → String → List String → Option Chunks
ended false chunk chunks = some (chunk, chunks)
ended true chunk chunks = none

abbrev pub ends_open : Bool → List String → Bool
ends_open b [] = b
ends_open b (chunk ∷ chunks) = ends_open (not b) chunks

scan-last : (b : Bool) (t : String) → is_plain t ≡ true → scan b t ≡ ended b t []
unfolding scan
scan-last false String.[] h = refl
scan-last true String.[] h = refl
scan-last false (String.◌∷◌ c t) h =
    scan-plain_char false c t (not_brace false c t h)
    ∙ ap (extended c) (scan-last false t (plain_rest c t h))
scan-last true (String.◌∷◌ c t) h =
    scan-plain_char true c t (not_brace true c t h)
    ∙ ap (extended c) (scan-last true t (plain_rest c t h))

prefixed-ended :
    (b : Bool) (t next : String) (chunks : List String)
    → prefixed t (ended b next chunks) ≡ ended b t (next ∷ chunks)
prefixed-ended false t next chunks = refl
prefixed-ended true t next chunks = refl

-- A template of literals and tokens without braces is scanned to exactly these, if the last is a literal;
-- one that ends within a token is refused.
pub scan-pieces :
    (b : Bool) (chunk : String) (chunks : List String)
    → are_plain (chunk ∷ chunks) ≡ true
    → scan b (join b chunk chunks) ≡ ended (ends_open b chunks) chunk chunks
scan-pieces b chunk [] h = scan-last b chunk (ground (arith, h))
scan-pieces b chunk (next ∷ chunks) h =
    scan-plain b chunk (join (not b) next chunks) (ground (arith, h))
    ∙ ap (prefixed chunk) (scan-pieces (not b) next chunks (ground (arith, h)))
    ∙ prefixed-ended (ends_open (not b) chunks) chunk next chunks
