-- ===== src/Channels/Routing/Sessions.antt =====
-- channels/routing.py: one workspace for each session.
use ach_agent.Base.{◌↔◌, ◌≡◌, refl, sym, ◌∙◌, ap, String, Option, none, some, arith, string_eq}
use ach_agent.Channels.Event.{Event, RoutedEvent}
use ach_agent.Base.Options.{◌>>=◌}
use ach_agent.Channels.Routing.{
  Routing, Channel, default_workspace_key, routed_session, routed_workspace, rate_keys_of,
  routing_context, route,
}

-- json.dumps of two texts: different texts give different documents.
abbrev pub Distinguishes : (String → String → String) → Type 0
Distinguishes dumps = (a b c d : String) → dumps a b ≡ dumps c d → (a ≡ c) × (b ≡ d)

-- What a result is, if there is one, behind each step of a computation.
bind-some :
    {A B : Type 0} (o : Option A) (f : A → Option B) (b : B)
    → (o >>= f) ≡ some b
    → (a : A) × (o ≡ some a) × (f a ≡ some b)
bind-some none f b h = absurd (ground (arith, h))
bind-some (some a) f b h = (a, refl, h)

-- The workspace of a routed event whose channel has the keyword.
record IsOwn (r : Routing) (e : Event) (ch : Channel) (out : RoutedEvent) : Type 0 where
  project : String
  default_is : default_workspace_key r e ch ≡ some project
  workspace_is : out.workspace_key ≡ r.dumps project out.session_key

route-IsOwn :
    (r : Routing) (e : Event) (ch : Channel) (out : RoutedEvent)
    → ch.workspace_key ≡ some "session"
    → route r e ch ≡ some out
    → IsOwn r e ch out
unfolding route
route-IsOwn r e ch out keyword h =
    let (session, _, h₁) = bind-some (routed_session r e ch ch.session_key) _ out h in
    let (workspace, w, h₂) =
      bind-some (routed_workspace r e ch session ch.workspace_key) _ out h₁ in
    let (keys, _, h₃) = bind-some (rate_keys_of r (routing_context e) ch.per_key) _ out h₂ in
    let own : routed_workspace r e ch session (some "session") ≡ some workspace =
      sym (ap (routed_workspace r e ch session) keyword) ∙ w in
    let (project, d, h₄) = bind-some (default_workspace_key r e ch) _ workspace own in
    let parts : (workspace ≡ out.workspace_key)
        × (session ≡ out.session_key)
        × (r.dumps project session ≡ workspace) =
      ground (arith, h₃, h₄) in
    record {
      project = project;
      default_is = d;
      workspace_is = sym parts.0 ∙ sym parts.2 ∙ ap (r.dumps project) parts.1;
    }

-- On channels with `workspaceKey: session`, two events get the same workspace exactly if they have the
-- same default workspace and the same session key.
pub route-own_workspace :
    (r : Routing) (e e' : Event) (ch ch' : Channel) (out out' : RoutedEvent)
    → Distinguishes r.dumps
    → ch.workspace_key ≡ some "session"
    → ch'.workspace_key ≡ some "session"
    → route r e ch ≡ some out
    → route r e' ch' ≡ some out'
    → (out.workspace_key ≡ out'.workspace_key) ↔ (
        (default_workspace_key r e ch ≡ default_workspace_key r e' ch')
        × (out.session_key ≡ out'.session_key))
route-own_workspace r e e' ch ch' out out' dumps k k' h h' =
    let o = route-IsOwn r e ch out k h in
    let o' = route-IsOwn r e' ch' out' k' h' in
    (
      λ same.
          let both =
            dumps o.project out.session_key o'.project out'.session_key
              (sym o.workspace_is ∙ same ∙ o'.workspace_is) in
          (o.default_is ∙ ap some both.0 ∙ sym o'.default_is, both.1),
      λ both.
          let same : o.project ≡ o'.project =
            ground (arith, sym o.default_is ∙ both.0 ∙ o'.default_is) in
          o.workspace_is
          ∙ ap (λ p. r.dumps p out.session_key) same
          ∙ ap (r.dumps o'.project) both.1
          ∙ sym o'.workspace_is,
    )
