-- ===== src/Templating/Render/Examples.antt =====
-- Tests and witnesses of templating/render.py.
use ach_agent.Base.{◌≡◌, refl, String, false, none, some, [], ◌∷◌}
use ach_agent.Channels.Event.{str, object, end, field, get_field}
use ach_agent.Templating.Render.{Python, scan, render_routing_template}
use ach_agent.Templating.Render.Lossless.{Rejoins, scan-join, join}
use ach_agent.Templating.Render.Pieces.{scan-pieces}

abbrev a_template : String
a_template = "mr:{{ iid }}!"

scan-join_example : Rejoins false a_template (scan false a_template)
scan-join_example = scan-join false a_template

scanned : scan false a_template ≡ some ("mr:", " iid " ∷ "!" ∷ [])
unfolding scan
scanned = refl

-- A `strip` and a `split` that serve the template.
abbrev a_python : Python
a_python = record {
  str_value = λ v. elim v [ str s ↦ s | _ ↦ "?" ];
  strip = λ t. "iid";
  index_of = λ t. none;
  split_dots = λ t. t ∷ [];
}

rendered :
    render_routing_template a_python a_template (object (field "iid" (str "17") end))
    ≡ some "mr:17!"
unfolding render_routing_template get_field
rendered = refl

unclosed : render_routing_template a_python "mr:{{ iid" (object end) ≡ none
unfolding render_routing_template get_field
unclosed = refl

missing : render_routing_template a_python a_template (object end) ≡ none
unfolding render_routing_template get_field
missing = refl

scan-pieces_example :
    scan false (join false "issue:" ("payload.id" ∷ "" ∷ []))
    ≡ some ("issue:", "payload.id" ∷ "" ∷ [])
scan-pieces_example = scan-pieces false "issue:" ("payload.id" ∷ "" ∷ []) refl
