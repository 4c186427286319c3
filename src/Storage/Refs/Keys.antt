-- ===== src/Storage/Refs/Keys.antt =====
-- storage/refs.py: the objects of a domain have different keys.
use Prim.Native.String.{◌++◌}
use Prim.Native.Char.{Char, code}
use text.Mathlib.TextLemmas.{cons-append, append_cancel_left, append_cancel_right}
use ach_agent.Base.{◌≡◌, refl, ap, sym, ◌∙◌, arith, ◌∷◌, List, ℕ, String}
use ach_agent.Base.Texts.{codes}
use ach_agent.Storage.Refs.{
  StateRef, base_key, ObjectKey, registry_key, snapshot_key, commit_record_key, key_text,
}

-- the second character
abbrev second : List ℕ → ℕ
second (c ∷ d ∷ cs) = d
second _ = 0

between : (p q a b : String) → p ++ a ++ q ≡ p ++ b ++ q → a ≡ b
between p q a b h = append_cancel_right a b q (append_cancel_left p (a ++ q) (b ++ q) h)

-- The objects of a domain: its registry, and what a snapshot has.
pub data Part : Type 0 where
  registry : Part
  snapshot record_of : String → Part

abbrev pub object : StateRef → Part → ObjectKey
object ref registry = registry_key ref
object ref (snapshot id) = snapshot_key ref id
object ref (record_of id) = commit_record_key ref id

abbrev suffix : Part → String
suffix registry = "/registry.json"
suffix (snapshot id) = "/snapshots/" ++ id ++ ".tar.gz"
suffix (record_of id) = "/commits/" ++ id ++ ".json"

key_text-suffix :
    (ref : StateRef) (prefix : String) (p : Part)
    → key_text prefix (object ref p) ≡ base_key ref prefix ++ suffix p
unfolding key_text
key_text-suffix ref prefix registry = refl
key_text-suffix ref prefix (snapshot id) = refl
key_text-suffix ref prefix (record_of id) = refl

second-append :
    (c d : Char) (r t : String) → second (codes ((String.◌∷◌ c (String.◌∷◌ d r)) ++ t)) ≡ code d
second-append c d r t = rw (cons-append c (String.◌∷◌ d r) t, cons-append d r t) refl

letter-snapshot : (id : String) → second (codes (suffix (snapshot id))) ≡ 115
letter-snapshot id = second-append "/" "s" "napshots/" (id ++ ".tar.gz")

letter-record_of : (id : String) → second (codes (suffix (record_of id))) ≡ 99
letter-record_of id = second-append "/" "c" "ommits/" (id ++ ".json")

abbrev letter : Part → ℕ
letter registry = 114
letter (snapshot id) = 115
letter (record_of id) = 99

second-suffix : (p : Part) → second (codes (suffix p)) ≡ letter p
second-suffix registry = refl
second-suffix (snapshot id) = letter-snapshot id
second-suffix (record_of id) = letter-record_of id

same-letter : (p q : Part) → suffix p ≡ suffix q → letter p ≡ letter q
same-letter p q h = sym (second-suffix p) ∙ ap (λ t. second (codes t)) h ∙ second-suffix q

apart : (p q : Part) → suffix p ≡ suffix q → p ≡ q
apart registry registry h = refl
apart registry (snapshot id) h = absurd (omega (arith, same-letter registry (snapshot id) h))
apart registry (record_of id) h = absurd (omega (arith, same-letter registry (record_of id) h))
apart (snapshot id) registry h = absurd (omega (arith, same-letter (snapshot id) registry h))
apart (snapshot id) (snapshot id') h = ap snapshot (between "/snapshots/" ".tar.gz" id id' h)
apart (snapshot id) (record_of id') h =
    absurd (omega (arith, same-letter (snapshot id) (record_of id') h))
apart (record_of id) registry h = absurd (omega (arith, same-letter (record_of id) registry h))
apart (record_of id) (snapshot id') h =
    absurd (omega (arith, same-letter (record_of id) (snapshot id') h))
apart (record_of id) (record_of id') h = ap record_of (between "/commits/" ".json" id id' h)

-- Two objects of a domain with the same key are the same object, whatever the snapshot ids are.
pub key_text-injective :
    (ref : StateRef) (prefix : String) (p q : Part)
    → key_text prefix (object ref p) ≡ key_text prefix (object ref q)
    → p ≡ q
key_text-injective ref prefix p q h = apart p q (
    append_cancel_left (base_key ref prefix) (suffix p) (suffix q)
      (sym (key_text-suffix ref prefix p) ∙ h ∙ key_text-suffix ref prefix q))
