-- ===== src/Storage/Refs.antt =====
-- storage/refs.py: `StateRef`, which names a domain of the storage, and the keys of its objects. The
-- agent's identity is checked by config/schema.py.
mod Examples
pub mod Keys
use Prim.Native.String.{◌++◌}
use ach_agent.Base.{
  Eq, nat_eq, ℕ, zero, suc, ◌≡◌, refl, String, Bool, true, not, ◌&&◌, Option, none, some, ◌==◌,
  string_eq, if◌then◌else◌,
}
use ach_agent.Base.Equality.{eq_view, pair_eq, option_eq}
use ach_agent.Base.Texts.{is_hex64_line}

-- FrozenAgentIdentity
pub record AgentIdentity : Type 0 where
  pub name : String
  pub namespace : String
  pub uid : String

-- DOMAIN_WORKSPACE, DOMAIN_SESSION
pub data Domain : Type 0 where
  workspace session : Domain

pub record StateRef : Type 0 where
  pub agent : AgentIdentity
  pub workspace_ref : String
  pub domain : Domain
  pub session_ref : Option String

abbrev domain_number : Domain → ℕ
domain_number workspace = 0
domain_number session = 1

abbrev nth_domain : ℕ → Domain
nth_domain zero = workspace
nth_domain (suc n) = session

pub nth_domain-domain_number : (d : Domain) → nth_domain (domain_number d) ≡ d
nth_domain-domain_number workspace = refl
nth_domain-domain_number session = refl

instance abbrev pub domain_eq : Eq Domain
domain_eq = eq_view domain_number nth_domain nth_domain-domain_number

instance abbrev pub identity_eq : Eq AgentIdentity
identity_eq =
    eq_view {B = (String × String) × String} (λ a. ((a.name, a.namespace), a.uid))
      (λ p. record { name = p.0.0; namespace = p.0.1; uid = p.1 }) (λ a. refl)

instance abbrev pub ref_eq : Eq StateRef
ref_eq =
    eq_view {B = (AgentIdentity × String) × (Domain × Option String)}
      (λ r. ((r.agent, r.workspace_ref), (r.domain, r.session_ref)))
      (λ p. record { agent = p.0.0; workspace_ref = p.0.1; domain = p.1.0; session_ref = p.1.1 })
      (λ r. refl)

-- _known_domain
unfoldable pub known_domain : String → Option Domain
known_domain text =
    if text == "workspace" then some workspace else if text == "session" then some session else none

-- _session_ref_matches_domain
abbrev pub session_ref_matches : Domain → Option String → Bool
session_ref_matches session none = Bool.false
session_ref_matches workspace (some r) = Bool.false
session_ref_matches _ _ = true

-- _hex64 for a ref that may be missing
abbrev pub hex64_or_none : Option String → Bool
hex64_or_none none = true
hex64_or_none (some r) = is_hex64_line r

abbrev with_domain : AgentIdentity → String → Option String → Option Domain → Option StateRef
with_domain agent w r none = none
with_domain agent w r (some d) =
    if is_hex64_line w && hex64_or_none r && session_ref_matches d r
    then some (record { agent = agent; workspace_ref = w; domain = d; session_ref = r })
    else none

-- the validators of StateRef
unfoldable pub state_ref : AgentIdentity → String → String → Option String → Option StateRef
unfolding known_domain is_hex64_line
state_ref agent w domain r = with_domain agent w r (known_domain domain)

-- An f-string writes a missing ref as "None".
abbrev ref_text : Option String → String
ref_text none = "None"
ref_text (some r) = r

-- _base_key; the prefix is stripped of slashes before
unfoldable pub base_key : StateRef → String → String
base_key ref prefix =
    let base =
      prefix ++ "/" ++ ref.agent.namespace ++ "/" ++ ref.agent.uid ++ "/" ++ ref.workspace_ref in
    elim ref.domain [
      | session ↦ base ++ "/sessions/" ++ ref_text ref.session_ref
      | workspace ↦ base
    ]

-- The objects of a domain.
pub data ObjectKey : Type 0 where
  registry_key : StateRef → ObjectKey
  snapshot_key commit_record_key : StateRef → String → ObjectKey

-- registry_key, snapshot_key and commit_record_key
unfoldable pub key_text : String → ObjectKey → String
unfolding base_key
key_text prefix (registry_key ref) = base_key ref prefix ++ "/registry.json"
key_text prefix (snapshot_key ref snapshot_id) =
    base_key ref prefix ++ "/snapshots/" ++ snapshot_id ++ ".tar.gz"
key_text prefix (commit_record_key ref snapshot_id) =
    base_key ref prefix ++ "/commits/" ++ snapshot_id ++ ".json"
