-- ===== src/Channels/Routing.antt =====
-- channels/routing.py: the keys of an event. Any exception gives `none`; `dumps` is `json.dumps` of a list
-- of two texts. What the adapters put in the context under "scheduledTick", "taskId" and "contextId" is a
-- text or missing.
pub mod Sessions
mod Examples
use Prim.Native.String.{◌++◌}
use ach_agent.Base.{
  ℕ, String, Bool, true, false, Option, none, some, List, [], ◌∷◌, ltb, ◌==◌, string_eq,
  if◌then◌else◌,
}
use ach_agent.Channels.Event.{
  Value, nonneg, str, null, object, Fields, end, field, get_field, Event, RoutedEvent,
}
use ach_agent.Base.Options.{◌>>=◌}
use ach_agent.Templating.Render.{Python, render_routing_template}

pub record Routing : Type 0 where
  pub python : Python
  pub dumps : String → String → String

-- ChannelType
pub data ChannelType : Type 0 where
  webhook webhook_script queue a2a cron : ChannelType

-- the fields of ChannelConfig that routing reads; `per_key` are the keys of rateLimit.perKey
pub record Channel : Type 0 where
  pub name : String
  pub type : ChannelType
  pub workspace_key : Option String
  pub session_key : Option String
  pub per_key : List String

-- {**first, **second}, as far as `get_field` goes
abbrev pub merged : Fields → Fields → Fields
merged first end = first
merged first (field k v rest) = field k v (merged first rest)

-- _routing_context
unfoldable pub routing_context : Event → Value
routing_context e = object (
    field "event"
      (object (
        merged
          (field "id" (str e.event_id)
            (field "channel" (str e.channel) (field "type" (str e.type) end)))
          e.context))
      (field "payload" (object e.payload) end))

-- e.context.get(name, {}); what is not a dict has no `get`
abbrev pub as_fields : Option Value → Option Fields
as_fields none = some end
as_fields (some (object fs)) = some fs
as_fields (some v) = none

abbrev pub section : String → Event → Option Fields
section name e = as_fields (get_field name e.context)

abbrev pub project_text : Routing → Option Value → Option String
project_text r none = none
project_text r (some null) = none
project_text r (some v) = some (r.python.str_value v)

abbrev pub repo_text : Routing → Option Value → Option String
repo_text r (some (str repo)) = if r.python.strip repo == "" then none else some repo
repo_text r _ = none

-- _DOMAIN
abbrev pub domain_of : ChannelType → Option String
domain_of webhook = some "webhook"
domain_of webhook_script = none
domain_of queue = some "queue"
domain_of a2a = some "a2a"
domain_of cron = some "cron"

unfoldable pub default_workspace_key : Routing → Event → Channel → Option String
unfolding get_field
default_workspace_key r e ch =
    let gitlab = section "gitlab" e >>= λ fields.
    project_text r (get_field "projectId" fields) >>= λ project.
    some ("gitlab:" ++ ch.name ++ ":" ++ project) in
    let github = section "github" e >>= λ fields.
    repo_text r (get_field "repo" fields) >>= λ repo. some ("github:" ++ ch.name ++ ":" ++ repo) in
    if e.source == "gitlab"
    then gitlab
    else if e.source == "github"
    then github
    else domain_of ch.type >>= λ domain. some (domain ++ ":" ++ ch.name)

abbrev pub gitlab_session : Routing → Option Value → Option Value → Option String
gitlab_session r (some iid) issue = some ("mr:" ++ r.python.str_value iid)
gitlab_session r none (some iid) = some ("issue:" ++ r.python.str_value iid)
gitlab_session r none none = none

abbrev pub pull_request : Routing → Option Value → Option String
pull_request r (some (nonneg n)) =
    if ltb 0 n then some ("pr:" ++ r.python.str_value (nonneg n)) else none
pull_request r _ = none

-- a text that is there and not empty
abbrev pub text_or_none : Option Value → Option String
text_or_none (some (str t)) = if t == "" then none else some t
text_or_none _ = none

abbrev pub or_text : Option String → String → String
or_text (some t) other = t
or_text none other = other

abbrev pub channel_session : Event → ChannelType → Option String
channel_session e cron =
    section "cron" e >>= λ fields. text_or_none (get_field "scheduledTick" fields)
channel_session e a2a = section "a2a" e >>= λ fields. some (
    or_text (text_or_none (get_field "contextId" fields))
      (or_text (text_or_none (get_field "taskId" fields)) ""))
channel_session e _ = none

unfoldable pub default_session_key : Routing → Event → Channel → Option String
unfolding get_field
default_session_key r e ch =
    if e.source == "gitlab"
    then (section "gitlab" e >>= λ fields.
        gitlab_session r (get_field "mergeRequestIid" fields) (get_field "issueIid" fields))
    else if e.source == "github"
    then (section "github" e >>= λ fields. pull_request r (get_field "prNumber" fields))
    else channel_session e ch.type

abbrev pub not_empty : String → Option String
not_empty t = if t == "" then none else some t

unfoldable pub render_override : Routing → String → Value → Option String
unfolding render_routing_template
render_override r template context = render_routing_template r.python template context >>= not_empty

abbrev pub routed_session : Routing → Event → Channel → Option String → Option String
routed_session r e ch none = default_session_key r e ch
routed_session r e ch (some template) = render_override r template (routing_context e)

-- "session" is the keyword SESSION_WORKSPACE.
abbrev pub routed_workspace : Routing → Event → Channel → String → Option String → Option String
routed_workspace r e ch session none = default_workspace_key r e ch
routed_workspace r e ch session (some template) =
    let own = default_workspace_key r e ch >>= λ key. some (r.dumps key session) in
    if template == "session" then own else render_override r template (routing_context e)

abbrev pub rate_keys_of : Routing → Value → List String → Option (List String)
rate_keys_of r context [] = some []
rate_keys_of r context (template ∷ templates) = do
  key ← render_override r template context
  keys ← rate_keys_of r context templates
  some (key ∷ keys)

unfoldable pub route : Routing → Event → Channel → Option RoutedEvent
unfolding default_workspace_key default_session_key render_override routing_context
route r e ch = do
  session ← routed_session r e ch ch.session_key
  workspace ← routed_workspace r e ch session ch.workspace_key
  keys ← rate_keys_of r (routing_context e) ch.per_key
  some (record { event = e; workspace_key = workspace; session_key = session; rate_keys = keys })
