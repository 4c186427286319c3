-- ===== src/Storage/Refs/Examples.antt =====
-- Tests and witnesses of storage/refs.py.
use ach_agent.Base.{Bool, ◌≡◌, refl, String, none}
use ach_agent.Base.Texts.{is_hex64_line}
use ach_agent.Storage.Refs.{StateRef, AgentIdentity, workspace}
use ach_agent.Storage.Refs.Keys.{snapshot, key_text-injective}

abbrev a_digest : String
a_digest = "00112233445566778899aabbccddeeff00112233445566778899aabbccddeeff"

abbrev an_agent : AgentIdentity
an_agent = record { name = "a"; namespace = "team"; uid = "u-1" }

abbrev a_domain : StateRef
a_domain = record {
  agent = an_agent;
  workspace_ref = a_digest;
  domain = workspace;
  session_ref = none;
}

key_text-injective_example : snapshot "snap-7" ≡ snapshot "snap-7"
key_text-injective_example =
    key_text-injective a_domain "agents" (snapshot "snap-7") (snapshot "snap-7") refl

-- A newline at the end of a ref passes the pattern.
newline_passes :
    is_hex64_line "00112233445566778899aabbccddeeff00112233445566778899aabbccddeeff\n" ≡ Bool.true
unfolding is_hex64_line
newline_passes = refl
