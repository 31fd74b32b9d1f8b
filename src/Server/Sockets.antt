-- ===== src/Server/Sockets.antt =====
-- `handleSessionWS` of cloud-backend/pkg/apiserver/controlplane/server.go, whole: its checks, the
-- two connections, the relay between them, and the count of open sessions; and where it dials,
-- `GatewayWSURL` of manager.go and `WSUpstreamURL` of gateway.go in
-- cloud-backend/pkg/sandboxruntime. What the upgrade and the dial give, and the events of the two
-- connections, are given; so are `url.PathEscape` and SHA-256.
pub mod Counts
pub mod Through
use cloudeagent.Prelude.{
  Bool, true, false, Option, none, some, List, [], ◌++◌, Text, codes, length, leb, if◌then◌else◌,
}
use cloudeagent.Types.{Err}
use cloudeagent.Api.Bearer.{trim_prefix}
use cloudeagent.Manager.World.{Env, State}
use cloudeagent.Manager.Control.{touch_activity}
use cloudeagent.Relay.{Event, Relay, opened, is_over, relay}
use cloudeagent.Server.Auth.{Authenticator}
use cloudeagent.Server.Connections.{begins, ends, Server, add_ws}
use cloudeagent.Server.Handlers.{Response}
use cloudeagent.Server.Handlers.Reviews.{session_refusal}

-- What becomes of a request: an answer, an upgrade that fails, one of the two messages of errors to
-- the client, or a relay.
pub data Session : Type 0 where
  refused : Response → Session
  not_upgraded : Session
  no_gateway : Session
  not_dialled : Err → Session
  relayed : Relay → Session

-- What the network gives to a session.
pub record Network : Type 0 where
  pub upgrades : Bool
  pub dial : Text → Option Err
  pub events : List Event

unfoldable pub ws_upstream_url : (Text → Text) → Text → Text → Text
unfolding trim_prefix
ws_upstream_url path_escape base user_id =
    codes "ws"
    ++ trim_prefix base (codes "http")
    ++ codes "/v1/agents/"
    ++ path_escape user_id
    ++ codes "/session"

-- `none` is a manager with no gateway.
unfoldable pub gateway_ws_url : (Text → Text) → Option Text → Text → Text
unfolding ws_upstream_url
gateway_ws_url path_escape none user_id = []
gateway_ws_url path_escape (some base) user_id = ws_upstream_url path_escape base user_id

module _ {S W : Type 0} (env : Env S W) where
  unfoldable pub touched : Text → Server S W → Server S W
  touched user_id srv = record srv { state = (touch_activity env user_id srv.state).1 }

  -- The deferred end of the count is reached once the handler returns.
  unfoldable pub settled : Text → Relay × Server S W → Session × Server S W
  unfolding add_ws
  settled user_id (r, srv) = (relayed r, if is_over r then add_ws env user_id ends srv else srv)

  unfoldable pub relay_session : Text → List Event → Server S W → Session × Server S W
  unfolding add_ws touched settled relay
  relay_session user_id events srv =
      settled user_id
        (relay (touched user_id) events (opened, touched user_id (add_ws env user_id begins srv)))

  module _ (sha256_hex path_escape : Text → Text) (a : Authenticator) (base : Option Text) where
    unfoldable pub dial_session : Text → Network → Server S W → Session × Server S W
    unfolding relay_session gateway_ws_url
    dial_session user_id net srv =
        let url = gateway_ws_url path_escape base user_id in
        if leb (length url) 0 then (no_gateway, srv) else elim (net.dial url) [
          | some e ↦ (not_dialled e, srv)
          | none ↦ relay_session user_id net.events srv
        ]

    unfoldable pub upgrade_session :
        Option Response → Text → Network → Server S W → Session × Server S W
    unfolding dial_session
    upgrade_session (some answer) user_id net srv = (refused answer, srv)
    upgrade_session none user_id net srv =
        if net.upgrades then dial_session user_id net srv else (not_upgraded, srv)

    unfoldable pub handle_session_ws : Text → Text → Network → Server S W → Session × Server S W
    unfolding session_refusal upgrade_session
    handle_session_ws user_id token net srv =
        upgrade_session (session_refusal sha256_hex a env user_id token srv.state) user_id net srv
