-- ===== src/Templating/Render.antt =====
-- templating/render.py: the templates of `channels[].routing`. A character class and the text of a value
-- are Python's: `strip`, `isdigit` with `int`, and `str`.
pub mod Lossless
pub mod Pieces
mod Examples
use Prim.Native.Char.{Char}
use Prim.Native.String.{◌++◌, ◌∷◌ as ◌then◌}
use ach_agent.Base.{
  ℕ, zero, suc, String, Bool, true, false, not, ◌&&◌, ◌||◌, Option, none, some, List, [], ◌∷◌, leb,
  ◌==◌, nat_eq, string_eq, if◌then◌else◌, elem,
}
use ach_agent.Base.Texts.{codes, all_of}
use ach_agent.Channels.Event.{Value, null, array, object, Values, nil, cons, Fields, get_field}
use ach_agent.Base.Options.{◌>>=◌}

pub record Python : Type 0 where
  pub str_value : Value → String
  pub strip : String → String
  -- int(seg) if seg.isdigit()
  pub index_of : String → Option ℕ
  -- path.split(".")
  pub split_dots : String → List String

abbrev pub is_char : Char → String → Bool
is_char c t = (String.◌∷◌ c String.[]) == t

-- the delimiter that ends a literal, or a token
abbrev pub brace : Bool → Char
brace false = "{"
brace true = "}"

abbrev pub mark : Bool → String
mark b = String.◌∷◌ (brace b) (String.◌∷◌ (brace b) String.[])

abbrev pub is_mark : Bool → Char → Char → Bool
is_mark b c d =
    is_char c (String.◌∷◌ (brace b) String.[]) && is_char d (String.◌∷◌ (brace b) String.[])

-- The chunks of a template, literals and tokens by turns: the one at hand, and those behind it.
abbrev pub Chunks : Type 0
Chunks = String × List String

abbrev pub begun : Option Chunks → Option Chunks
begun none = none
begun (some (chunk, chunks)) = some (String.[], chunk ∷ chunks)

abbrev pub extended : Char → Option Chunks → Option Chunks
extended c none = none
extended c (some (chunk, chunks)) = some (String.◌∷◌ c chunk, chunks)

-- _ANY_BRACE_RE.finditer: `b` is whether a token is open. A token that is never closed leaves its "{{" in
-- the trailing literal, which is refused.
unfoldable pub scan : Bool → String → Option Chunks
scan false String.[] = some (String.[], [])
scan true String.[] = none
scan b (String.◌∷◌ c String.[]) = extended c (scan b String.[])
scan b (String.◌∷◌ c (String.◌∷◌ d rest)) =
    let closed = scan (not b) rest in
    let open_still = scan b (String.◌∷◌ d rest) in
    if is_mark b c d then begun closed else extended c open_still

-- [A-Za-z0-9_.\-]+
abbrev pub is_path_char : ℕ → Bool
is_path_char c =
    (leb b'A' c && leb c b'Z')
    || (leb b'a' c && leb c b'z')
    || (leb b'0' c && leb c b'9')
    || elem c (b'_' ∷ b'.' ∷ b'-' ∷ [])

unfoldable pub is_valid_path : String → Bool
is_valid_path path = not (path == "") && all_of is_path_char (codes path)

abbrev pub nth : Values → ℕ → Option Value
nth nil n = none
nth (cons v vs) zero = some v
nth (cons v vs) (suc n) = nth vs n

-- resolve_path; a missing value is `none`
unfoldable pub resolve_path : Python → Value → List String → Option Value
unfolding get_field
resolve_path py v [] = some v
resolve_path py (object fs) (seg ∷ segs) = get_field seg fs >>= λ w. resolve_path py w segs
resolve_path py (array vs) (seg ∷ segs) = py.index_of seg >>= nth vs >>= λ w. resolve_path py w segs
resolve_path py v (seg ∷ segs) = none

abbrev pub scalar_text : Python → Value → Option String
scalar_text py null = none
scalar_text py (array vs) = none
scalar_text py (object fs) = none
scalar_text py v = some (py.str_value v)

-- "{{" in literal or "}}" in literal
abbrev pub has_delimiter : String → Bool
has_delimiter String.[] = false
has_delimiter (String.◌∷◌ c String.[]) = false
has_delimiter (String.◌∷◌ c (String.◌∷◌ d rest)) =
    is_mark false c d || is_mark true c d || has_delimiter (String.◌∷◌ d rest)

abbrev pub token_text : Python → Value → String → Option String
token_text py context path =
    if is_valid_path path
    then resolve_path py context (py.split_dots path) >>= scalar_text py
    else none

unfoldable pub render_chunk : Python → Value → Bool → String → Option String
unfolding is_valid_path resolve_path
render_chunk py context false literal = if has_delimiter literal then none else some literal
render_chunk py context true token = token_text py context (py.strip token)

unfoldable pub render_chunks : Python → Value → Bool → String → List String → Option String
unfolding render_chunk
render_chunks py context b chunk [] = render_chunk py context b chunk
render_chunks py context b chunk (next ∷ chunks) = do
  text ← render_chunk py context b chunk
  later ← render_chunks py context (not b) next chunks
  some (text ++ later)

abbrev pub render_scanned : Python → Value → Option Chunks → Option String
render_scanned py context none = none
render_scanned py context (some (chunk, chunks)) = render_chunks py context false chunk chunks

-- an UnresolvedTemplateError is `none`
unfoldable pub render_routing_template : Python → String → Value → Option String
unfolding scan render_chunks
render_routing_template py template context = render_scanned py context (scan false template)
