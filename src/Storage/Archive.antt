-- ===== src/Storage/Archive.antt =====
-- storage/archive.py: `_MemberCheck`, which looks at each member of an archive before it is written.
-- A path is the list of its characters' codes.
mod Examples
pub mod Safe
pub mod Whole
use ach_agent.Base.{
  ℕ, ◌+◌, Bool, true, false, ◌&&◌, ◌||◌, Option, none, some, List, [], ◌∷◌, map, ltb, ◌==◌, nat_eq,
  if◌then◌else◌,
}
use ach_agent.Base.Integers.{ℤ, pos, ◌+ℤ◌, exceeds}
use ach_agent.Base.Lists.{length}

abbrev pub PathName : Type 0
PathName = List ℕ

-- path_name.replace("\\", "/")
abbrev slashes : PathName → PathName
slashes name = map (λ (c : ℕ). if c == 92 then 47 else c) name

abbrev onto_first : ℕ → List PathName → List PathName
onto_first c [] = (c ∷ []) ∷ []
onto_first c (part ∷ parts) = (c ∷ part) ∷ parts

-- text.split("/")
unfoldable pub split_slash : PathName → List PathName
split_slash [] = [] ∷ []
split_slash (c ∷ cs) =
    let parts = split_slash cs in if c == 47 then [] ∷ parts else onto_first c parts

-- _split
unfoldable pub split : PathName → List PathName
unfolding split_slash
split name = split_slash (slashes name)

-- What a component does to a path: "" and "." nothing, ".." leads to the parent.
pub data Part : Type 0 where
  nothing parent child : Part

unfoldable pub part_of : PathName → Part
part_of [] = nothing
part_of (c ∷ []) = if c == 46 then nothing else child
part_of (c ∷ d ∷ []) = if c == 46 && d == 46 then parent else child
part_of (c ∷ d ∷ e ∷ rest) = child

-- one turn of the loop of _resolve_link_target; the stack is listed from its top
unfoldable pub resolve_part : PathName → Part → List PathName → Option (List PathName)
resolve_part part nothing stack = some stack
resolve_part part parent [] = none
resolve_part part parent (top ∷ stack) = some stack
resolve_part part child stack = some (part ∷ stack)

-- _resolve_link_target, over the parts of the link
unfoldable pub resolve : List PathName → List PathName → Option (List PathName)
unfolding resolve_part part_of
resolve stack [] = some stack
resolve stack (part ∷ parts) = elim (resolve_part part (part_of part) stack) [
  | none ↦ none
  | some stack' ↦ resolve stack' parts
]

-- The directory of a member, from its last component up: _normalize_parent(_split(name)[:-1]).
unfoldable pub parent_stack : List PathName → List PathName → List PathName
unfolding part_of
parent_stack stack [] = stack
parent_stack stack (part ∷ []) = stack
parent_stack stack (part ∷ next ∷ parts) =
    parent_stack (elim (part_of part) [ nothing ↦ stack | _ ↦ part ∷ stack ]) (next ∷ parts)

-- the member types, those outside _ALLOWED_TYPES as `other`
pub data MemberType : Type 0 where
  regular directory symlink hardlink other : MemberType

pub record Member : Type 0 where
  pub name : PathName
  pub type : MemberType
  pub linkname : PathName
  -- tarfile reads a negative one from a base-256 field
  pub size : ℤ

-- Why a member is refused.
pub data Refusal : Type 0 where
  too_many_members name_too_long absolute_path path_traversal unsupported_type : Refusal
  link_too_long absolute_link escaping_link expands_past_cap : Refusal

-- _MAX_MEMBER_NAME_LEN
abbrev pub max_member_name_len : ℕ
max_member_name_len = 4096

-- name.startswith("/") or name.startswith("\\")
abbrev pub is_absolute : PathName → Bool
is_absolute [] = false
is_absolute (c ∷ cs) = c == 47 || c == 92

-- ".." in parts
unfoldable pub has_parent : List PathName → Bool
unfolding part_of
has_parent [] = false
has_parent (part ∷ parts) = elim (part_of part) [ parent ↦ true | _ ↦ has_parent parts ]

unfoldable pub name_refusal : PathName → Option Refusal
unfolding split has_parent
name_refusal name =
    if ltb max_member_name_len (length name)
    then some name_too_long
    else if is_absolute name
    then some absolute_path
    else if has_parent (split name)
    then some path_traversal
    else none

unfoldable pub target_refusal : List PathName → PathName → Option Refusal
unfolding split resolve
target_refusal base link =
    if ltb max_member_name_len (length link)
    then some link_too_long
    else if is_absolute link
    then some absolute_link
    else elim (resolve base (split link)) [ none ↦ some escaping_link | some stack ↦ none ]

-- Hard links resolve against the archive's root, symbolic ones against the member's directory.
unfoldable pub type_refusal : MemberType → PathName → PathName → Option Refusal
unfolding target_refusal parent_stack
type_refusal regular name link = none
type_refusal directory name link = none
type_refusal symlink name link = target_refusal (parent_stack [] (split name)) link
type_refusal hardlink name link = target_refusal [] link
type_refusal other name link = some unsupported_type

abbrev pub or_else : Option Refusal → Option Refusal → Option Refusal
or_else none next = next
or_else (some refusal) next = some refusal

-- _MemberCheck
pub record MemberCheck : Type 0 where
  pub max_expanded_bytes : ℕ
  pub max_members : ℕ
  pub count : ℕ
  pub total_size : ℤ

abbrev pub new_check : ℕ → ℕ → MemberCheck
new_check max_expanded_bytes max_members = record {
  max_expanded_bytes = max_expanded_bytes;
  max_members = max_members;
  count = 0;
  total_size = pos 0;
}

-- behind the checks of the member itself
unfoldable pub expand : ℤ → Option Refusal → MemberCheck → MemberCheck × Option Refusal
unfolding ◌+ℤ◌
expand size (some refusal) c = (c, some refusal)
expand size none c =
    let grown : MemberCheck = record c { total_size = c.total_size +ℤ size } in
    if exceeds c.max_expanded_bytes grown.total_size
    then (grown, some expands_past_cap)
    else (grown, none)

-- _MemberCheck.__call__: the state after it, and why the member is refused
unfoldable pub check : Member → MemberCheck → MemberCheck × Option Refusal
unfolding expand name_refusal type_refusal
check m c =
    let counted : MemberCheck = record c { count = c.count + 1 } in
    if ltb c.max_members counted.count
    then (counted, some too_many_members)
    else expand m.size (or_else (name_refusal m.name) (type_refusal m.type m.name m.linkname))
        counted

abbrev pub stop_at :
    MemberCheck × Option Refusal → MemberCheck × Option Refusal → MemberCheck × Option Refusal
stop_at (c, some refusal) later = (c, some refusal)
stop_at (c, none) later = later

-- the generator of `extract`, and the filter of `pack`: the first refusal ends the archive
unfoldable pub check_all : List Member → MemberCheck → MemberCheck × Option Refusal
unfolding check
check_all [] c = (c, none)
check_all (m ∷ ms) c = let later = check_all ms (check m c).0 in stop_at (check m c) later
