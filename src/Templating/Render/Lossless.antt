-- ===== src/Templating/Render/Lossless.antt =====
-- templating/render.py: a template is made of its chunks.
use Prim.Native.Char.{Char}
use Prim.Native.String.{◌++◌}
use text.Mathlib.TextLemmas.{cons-append, nil-append, head-eq_of_cons-eq}
use ach_agent.Base.{
  ◌≡◌, refl, sym, subst, ap, ◌∙◌, String, Bool, true, false, not, Option, none, some, List, [], ◌∷◌,
  ==_iff, string_eq, if_cases, arith,
}
use ach_agent.Templating.Render.{brace, mark, is_mark, Chunks, begun, extended, scan}

-- The chunks with the delimiters between them.
abbrev pub join : Bool → String → List String → String
join b chunk [] = chunk
join b chunk (next ∷ chunks) = chunk ++ (mark b ++ join (not b) next chunks)

abbrev pub Rejoins : Bool → String → Option Chunks → Type 0
Rejoins b template none = Unit
Rejoins b template (some (chunk, chunks)) = join b chunk chunks ≡ template

begun-Rejoins :
    (b : Bool) (rest : String) (o : Option Chunks)
    → Rejoins (not b) rest o
    → Rejoins b (mark b ++ rest) (begun o)
begun-Rejoins b rest none h = tt
begun-Rejoins b rest (some (chunk, chunks)) h = nil-append _ ∙ ap (λ t. mark b ++ t) h

extended-Rejoins :
    (b : Bool) (c : Char) (rest : String) (o : Option Chunks)
    → Rejoins b rest o
    → Rejoins b (String.◌∷◌ c rest) (extended c o)
extended-Rejoins b c rest none h = tt
extended-Rejoins b c rest (some (chunk, [])) h = ap (String.◌∷◌ c) h
extended-Rejoins b c rest (some (chunk, next ∷ chunks)) h =
    cons-append c chunk _ ∙ ap (String.◌∷◌ c) h

char-mark :
    (b : Bool) (c d : Char) (rest : String)
    → is_mark b c d ≡ true
    → mark b ++ rest ≡ String.◌∷◌ c (String.◌∷◌ d rest)
char-mark b c d rest h =
    let m = brace b in
    let one : Char → String = λ x. String.◌∷◌ x String.[] in
    let both : (one c ≡ one m) × (one d ≡ one m) =
      ground (arith, h, ==_iff (one c) (one m), ==_iff (one d) (one m)) in
    let first = head-eq_of_cons-eq both.0 in
    let next = head-eq_of_cons-eq both.1 in
    cons-append m (one m) rest
    ∙ ap (String.◌∷◌ m) (cons-append m String.[] rest ∙ ap (String.◌∷◌ m) (nil-append rest))
    ∙ sym (ap (λ x. String.◌∷◌ x (String.◌∷◌ m rest)) first)
    ∙ sym (ap (λ x. String.◌∷◌ c (String.◌∷◌ x rest)) next)

-- Scanning a template loses nothing: its literals and its tokens, with the delimiters between them, are
-- the template.
pub scan-join : (b : Bool) (template : String) → Rejoins b template (scan b template)
unfolding scan
scan-join false String.[] = refl
scan-join true String.[] = tt
scan-join false (String.◌∷◌ c String.[]) = refl
scan-join true (String.◌∷◌ c String.[]) = tt
scan-join b (String.◌∷◌ c (String.◌∷◌ d rest)) =
    if_cases (Rejoins b (String.◌∷◌ c (String.◌∷◌ d rest))) (is_mark b c d)
      (begun (scan (not b) rest)) (extended c (scan b (String.◌∷◌ d rest)))
      (λ same.
        subst (λ t. Rejoins b t (begun (scan (not b) rest))) (char-mark b c d rest same)
          (begun-Rejoins b rest (scan (not b) rest) (scan-join (not b) rest)))
      (λ _.
        extended-Rejoins b c (String.◌∷◌ d rest) (scan b (String.◌∷◌ d rest))
          (scan-join b (String.◌∷◌ d rest)))
