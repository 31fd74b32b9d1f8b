-- ===== src/Gateway/Routes.antt =====
-- The routes of cloud-gateway/internal/server/server.go. A path is the list of its segments, as
-- net/http matches them; the encoding of queries and bodies is a parameter.
use cloudeagent.Prelude.{
  Bool, true, false, ◌&&◌, Option, none, some, List, [], ◌∷◌, Text, codes, text_eq, if◌then◌else◌,
}
use cloudeagent.Gateway.Registry.{Registry}
use cloudeagent.Gateway.Forward.{
  Response, AgentOps, handle_register, handle_unregister, proxy_get, proxy_post,
}

pub data Verb : Type 0 where
  get_verb post_verb delete_verb : Verb

pub record Request : Type 0 where
  pub verb : Verb
  pub path : List Text
  pub query : List (Text × Text)
  pub body : Option Text

-- What a route leads to, with the user of the path.
pub data Route : Type 0 where
  registers unregisters : Text → Route
  gets : Text → Bool → Text → Route
  posts : Text → Text → Route

registry_route : Verb → Text → List Text → Option Route
registry_route post_verb u [] = some (registers u)
registry_route delete_verb u [] = some (unregisters u)
registry_route _ u rest = none

agents_route : Verb → Text → List Text → Option Route
agents_route get_verb u (a ∷ []) =
    if text_eq a (codes "health")
    then some (gets (codes "/health") false u)
    else if text_eq a (codes "workspace")
    then some (gets (codes "/v1/workspace") false u)
    else if text_eq a (codes "history")
    then some (gets (codes "/v1/history") true u)
    else none
agents_route get_verb u (a ∷ b ∷ []) =
    if text_eq a (codes "session") && text_eq b (codes "info")
    then some (gets (codes "/v1/session/info") false u)
    else none
agents_route post_verb u (a ∷ []) =
    if text_eq a (codes "chat")
    then some (posts (codes "/v1/chat") u)
    else if text_eq a (codes "sessions")
    then some (posts (codes "/v1/session/new") u)
    else if text_eq a (codes "config")
    then some (posts (codes "/v1/config") u)
    else none
agents_route _ u rest = none

-- The table of `Handler`, but for the list of routes, the health page and the WebSocket relay.
unfoldable pub route : Verb → List Text → Option Route
unfolding registry_route agents_route
route verb (v ∷ kind ∷ u ∷ rest) =
    if text_eq v (codes "v1") && text_eq kind (codes "agents")
    then agents_route verb u rest
    else if text_eq v (codes "v1") && text_eq kind (codes "registry")
    then registry_route verb u rest
    else none
route verb _ = none

module _ {W : Type 0} (agent : AgentOps W) (encode_query : List (Text × Text) → Text)
    (decode_endpoint : Option Text → Option Text) where
  unfoldable pub follow : Route → Request → Registry × W → Response × (Registry × W)
  follow (registers u) req (reg, w) =
      let (r, reg') = handle_register u (decode_endpoint req.body) reg in (r, (reg', w))
  follow (unregisters u) req (reg, w) = let (r, reg') = handle_unregister u reg in (r, (reg', w))
  follow (gets path with_query u) req (reg, w) =
      let (r, w') = proxy_get agent reg path with_query u (encode_query req.query) w in
      (r, (reg, w'))
  follow (posts path u) req (reg, w) =
      let (r, w') = proxy_post agent reg path u req.body w in (r, (reg, w'))

  -- `Handler`; `none` is a path that `route` does not hold.
  unfoldable pub serve : Request → Registry × W → Option Response × (Registry × W)
  unfolding route follow
  serve req s = elim (route req.verb req.path) [
    | none ↦ (none, s)
    | some to ↦ let (r, s') = follow to req s in (some r, s')
  ]
