-- ===== src/Channels/Routing/Examples.antt =====
-- Tests and witnesses of channels/routing.py, with a code of two texts in place of JSON.
use Prim.Native.Char.{code}
use text.Mathlib.TextLemmas.{head-eq_of_cons-eq, tail-eq_of_cons-eq}
use ach_agent.Base.{◌≡◌, ◌↔◌, refl, ap, ◌∙◌, String, none, some, [], ◌∷◌, arith}
use ach_agent.Channels.Event.{nonneg, object, end, field, get_field, Event, RoutedEvent}
use ach_agent.Channels.Routing.{Routing, Channel, webhook, route, default_workspace_key}
use ach_agent.Channels.Routing.Sessions.{Distinguishes, route-own_workspace}
use ach_agent.Templating.Render.{Python}

-- each character of the first text behind an "x", then "y" and the second text
abbrev paired : String → String → String
paired String.[] b = String.◌∷◌ "y" b
paired (String.◌∷◌ c a) b = String.◌∷◌ "x" (String.◌∷◌ c (paired a b))

paired-Distinguishes : Distinguishes paired
paired-Distinguishes String.[] b String.[] d h = (refl, tail-eq_of_cons-eq h)
paired-Distinguishes String.[] b (String.◌∷◌ c a) d h =
    absurd (omega (arith, ap code (head-eq_of_cons-eq h)))
paired-Distinguishes (String.◌∷◌ c a) b String.[] d h =
    absurd (omega (arith, ap code (head-eq_of_cons-eq h)))
paired-Distinguishes (String.◌∷◌ c a) b (String.◌∷◌ c' a') d h =
    let inner = tail-eq_of_cons-eq h in
    let rest = paired-Distinguishes a b a' d (tail-eq_of_cons-eq inner) in
    (ap (λ x. String.◌∷◌ x a) (head-eq_of_cons-eq inner) ∙ ap (String.◌∷◌ c') rest.0, rest.1)

abbrev python : Python
python = record {
  str_value = λ v. elim v [ nonneg n ↦ "7" | _ ↦ "?" ];
  strip = λ t. t;
  index_of = λ t. none;
  split_dots = λ t. t ∷ [];
}

abbrev routing : Routing
routing = record { python = python; dumps = paired }

abbrev a_channel : Channel
a_channel = record {
  name = "mr";
  type = webhook;
  workspace_key = some "session";
  session_key = none;
  per_key = [];
}

abbrev an_event : String → Event
an_event kind = record {
  event_id = "e-1";
  channel = "mr";
  type = "note";
  source = "gitlab";
  payload = end;
  context = field "gitlab" (object (field "projectId" (nonneg 7) (field kind (nonneg 7) end))) end;
  actor = "";
}

abbrev routed : String → String → String → RoutedEvent
routed kind workspace session = record {
  event = an_event kind;
  workspace_key = workspace;
  session_key = session;
  rate_keys = [];
}

abbrev mr_session : String
mr_session = "mr:7"

abbrev issue_session : String
issue_session = "issue:7"

route_mr :
    route routing (an_event "mergeRequestIid") a_channel
    ≡ some (routed "mergeRequestIid" (paired "gitlab:mr:7" "mr:7") "mr:7")
unfolding route get_field
route_mr = refl

route_issue :
    route routing (an_event "issueIid") a_channel
    ≡ some (routed "issueIid" (paired "gitlab:mr:7" "issue:7") "issue:7")
unfolding route get_field
route_issue = refl

route-own_workspace_example : (paired "gitlab:mr:7" "mr:7" ≡ paired "gitlab:mr:7" "issue:7") ↔ (
    (default_workspace_key routing (an_event "mergeRequestIid") a_channel
      ≡ default_workspace_key routing (an_event "issueIid") a_channel)
    × (mr_session ≡ issue_session))
route-own_workspace_example =
    route-own_workspace routing (an_event "mergeRequestIid") (an_event "issueIid") a_channel
      a_channel (routed "mergeRequestIid" (paired "gitlab:mr:7" "mr:7") "mr:7")
      (routed "issueIid" (paired "gitlab:mr:7" "issue:7") "issue:7") paired-Distinguishes refl refl
      route_mr route_issue
