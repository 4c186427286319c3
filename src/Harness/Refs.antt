-- ===== src/Harness/Refs.antt =====
-- harness/refs.py: digests over workspace and session identity. SHA-256 and the JSON encoding of a
-- list of strings, and the text of a Python value, are the standard library's, and stand as the fields of `Hashing`.
use ach_agent.Base.{String, List, [], ◌∷◌}
use ach_agent.Channels.Event.{Value}

pub record Hashing : Type 0 where
  -- json.dumps(list(parts), ensure_ascii=False, separators=(",", ":")).encode("utf-8")
  pub dumps : List String → String
  -- hashlib.sha256(encoded).hexdigest()
  pub sha256_hex : String → String
  -- str(value)
  pub py_str : Value → String

unfoldable pub digest : Hashing → List String → String
digest h parts = h.sha256_hex (h.dumps parts)

unfoldable pub workspace_ref : Hashing → String → String → String → String
unfolding digest
workspace_ref h namespace agent_uid workspace_key =
    digest h (namespace ∷ agent_uid ∷ workspace_key ∷ [])

unfoldable pub session_ref : Hashing → String → String → String
unfolding digest
session_ref h workspace_ref_hex session_key = digest h (workspace_ref_hex ∷ session_key ∷ [])

unfoldable pub invocation_digest : Hashing → String → String → String → String
unfolding digest
invocation_digest h agent_uid channel event_id = digest h (agent_uid ∷ channel ∷ event_id ∷ [])
