-- ===== src/Storage/Archive/Safe.antt =====
-- storage/archive.py: the members that `_MemberCheck` accepts.
use ach_agent.Base.{
  ℕ, zero, suc, ◌+◌, ◌≤◌, true, false, Option, none, some, List, [], ◌∷◌, ◌≡◌, ◌↔◌, refl, arith,
  nat_eq, Option-cases, inl, inr,
}
use ach_agent.Base.Lists.{length, take, sum_of}
use ach_agent.Storage.Archive.{
  PathName, split, Part, nothing, parent, child, part_of, resolve_part, resolve, parent_stack,
  MemberType, regular, directory, symlink, hardlink, other, Member, Refusal, max_member_name_len,
  is_absolute, has_parent, name_refusal, target_refusal, type_refusal, or_else,
}

-- Steps up and steps down.
abbrev up : Part → ℕ
up parent = 1
up _ = 0

abbrev down : Part → ℕ
down child = 1
down _ = 0

abbrev pub ups : List PathName → ℕ
ups parts = sum_of (λ part. up (part_of part)) parts

abbrev pub downs : List PathName → ℕ
downs parts = sum_of (λ part. down (part_of part)) parts

-- From `depth` directories below the root, no prefix of the parts leads above it.
abbrev pub StaysInside : ℕ → List PathName → Type 0
StaysInside depth parts = (i : ℕ) → ups (take i parts) ≤ depth + downs (take i parts)

-- A part of the given kind, with what the rest of the link comes to.
walk : Part → PathName → List PathName → List PathName → Option (List PathName)
walk kind part parts stack = elim (resolve_part part kind stack) [
  | none ↦ none
  | some s ↦ resolve s parts
]

walk-ups :
    (part : PathName) (parts stack' : List PathName) (i : ℕ) (kind : Part) (stack : List PathName)
    → ((s : List PathName)
        → resolve s parts ≡ some stack'
        → ups (take i parts) ≤ length s + downs (take i parts))
    → walk kind part parts stack ≡ some stack'
    → up kind + ups (take i parts) ≤ length stack + (down kind + downs (take i parts))
unfolding walk resolve_part
walk-ups part parts stack' i nothing stack later h = ground (arith, later stack h)
walk-ups part parts stack' i parent [] later h = absurd (ground (arith, h))
walk-ups part parts stack' i parent (top ∷ stack) later h = ground (arith, later stack h)
walk-ups part parts stack' i child stack later h = ground (arith, later (part ∷ stack) h)

resolve-StaysInside :
    (stack parts stack' : List PathName)
    → resolve stack parts ≡ some stack'
    → StaysInside (length stack) parts
unfolding resolve walk
resolve-StaysInside stack parts stack' h zero = omega arith
resolve-StaysInside stack [] stack' h (suc i) = omega arith
resolve-StaysInside stack (part ∷ parts) stack' h (suc i) =
    walk-ups part parts stack' i (part_of part) stack
      (λ s e. resolve-StaysInside s parts stack' e i) h

StaysInside-walk :
    (part : PathName) (parts : List PathName) (kind : Part) (stack : List PathName)
    → ((s : List PathName)
        → StaysInside (length s) parts
        → (stack' : List PathName) × (resolve s parts ≡ some stack'))
    → ((i : ℕ) → up kind + ups (take i parts) ≤ length stack + (down kind + downs (take i parts)))
    → (stack' : List PathName) × (walk kind part parts stack ≡ some stack')
unfolding walk resolve_part
StaysInside-walk part parts nothing stack later h = later stack (λ i. omega (arith, h i))
StaysInside-walk part parts parent [] later h = absurd (omega (arith, h 0))
StaysInside-walk part parts parent (top ∷ stack) later h = later stack (λ i. omega (arith, h i))
StaysInside-walk part parts child stack later h = later (part ∷ stack) (λ i. omega (arith, h i))

StaysInside-resolve :
    (stack parts : List PathName)
    → StaysInside (length stack) parts
    → (stack' : List PathName) × (resolve stack parts ≡ some stack')
unfolding resolve walk
StaysInside-resolve stack [] h = (stack, refl)
StaysInside-resolve stack (part ∷ parts) h =
    StaysInside-walk part parts (part_of part) stack
      (λ s inside. StaysInside-resolve s parts inside) (λ i. h (suc i))

-- A link's target: short, relative, and never above the directory that it starts from.
pub record TargetSafe (base : List PathName) (link : PathName) : Type 0 where
  pub short : length link ≤ max_member_name_len
  pub relative : is_absolute link ≡ false
  pub inside : StaysInside (length base) (split link)

target_refusal-TargetSafe :
    (base : List PathName) (link : PathName)
    → (target_refusal base link ≡ none) ↔ TargetSafe base link
unfolding target_refusal
target_refusal-TargetSafe base link = (sound, complete)
  where
    sound : target_refusal base link ≡ none → TargetSafe base link
    sound h = elim (Option-cases (resolve base (split link))) [
      | inl e ↦ absurd (ground (arith, h, e))
      | inr (stack, e) ↦ record {
        short = ground (arith, h);
        relative = ground (arith, h);
        inside = resolve-StaysInside base (split link) stack e;
      }
    ]

    complete : TargetSafe base link → target_refusal base link ≡ none
    complete safe =
        let (stack, e) = StaysInside-resolve base (split link) safe.inside in
        ground (arith, safe.short, safe.relative, e)

-- What the type of a member asks of its link.
abbrev pub LinkSafe : MemberType → PathName → PathName → Type 0
LinkSafe regular name link = Unit
LinkSafe directory name link = Unit
LinkSafe symlink name link = TargetSafe (parent_stack [] (split name)) link
LinkSafe hardlink name link = TargetSafe [] link
LinkSafe other name link = ⊥

pub record Safe (m : Member) : Type 0 where
  pub short : length m.name ≤ max_member_name_len
  pub relative : is_absolute m.name ≡ false
  pub no_parent : ups (split m.name) ≡ 0
  pub link : LinkSafe m.type m.name m.linkname

has_parent-ups : (parts : List PathName) → (has_parent parts ≡ false) ↔ (ups parts ≡ 0)
unfolding has_parent
has_parent-ups [] = ground arith
has_parent-ups (part ∷ parts) = by_part (part_of part) (has_parent-ups parts)
  where
    by_part :
        (kind : Part)
        → ((has_parent parts ≡ false) ↔ (ups parts ≡ 0))
        → ((elim kind [ parent ↦ true | _ ↦ has_parent parts ]) ≡ false) ↔ (up kind + ups parts ≡ 0)
    by_part nothing later = ground (arith, later)
    by_part parent later = ground arith
    by_part child later = ground (arith, later)

type_refusal-LinkSafe :
    (t : MemberType) (name link : PathName)
    → (type_refusal t name link ≡ none) ↔ LinkSafe t name link
unfolding type_refusal
type_refusal-LinkSafe regular name link = ((λ _. tt), (λ _. refl))
type_refusal-LinkSafe directory name link = ((λ _. tt), (λ _. refl))
type_refusal-LinkSafe symlink name link =
    target_refusal-TargetSafe (parent_stack [] (split name)) link
type_refusal-LinkSafe hardlink name link = target_refusal-TargetSafe [] link
type_refusal-LinkSafe other name link = ((λ h. absurd (ground (arith, h))), (λ h. absurd h))

-- Why a member is refused for what it is.
unfoldable pub refusal_of : Member → Option Refusal
refusal_of m = or_else (name_refusal m.name) (type_refusal m.type m.name m.linkname)

pub refusal_of-Safe : (m : Member) → (refusal_of m ≡ none) ↔ Safe m
unfolding refusal_of name_refusal
refusal_of-Safe m = (sound, complete)
  where
    sound : refusal_of m ≡ none → Safe m
    sound h = record {
      short = ground (arith, h);
      relative = ground (arith, h);
      no_parent = ground (arith, h, has_parent-ups (split m.name));
      link = (type_refusal-LinkSafe m.type m.name m.linkname).0 (ground (arith, h));
    }

    complete : Safe m → refusal_of m ≡ none
    complete safe = ground (
      arith,
      safe.short,
      safe.relative,
      safe.no_parent,
      has_parent-ups (split m.name),
      (type_refusal-LinkSafe m.type m.name m.linkname).1 safe.link,
    )
