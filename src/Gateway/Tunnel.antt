-- ===== src/Gateway/Tunnel.antt =====
-- `handleWSRelay` of cloud-gateway/internal/server/server.go, and the addresses that
-- cloud-gateway/internal/agentclient/client.go asks: of a page and of a WebSocket. What the upgrade
-- and the dial give, and the events of the two connections, are given; so is the encoded query.
use cloudeagent.Prelude.{
  Bool, Option, none, some, List, [], ◌++◌, Text, codes, length, leb, trim_slash, if◌then◌else◌,
}
use cloudeagent.Types.{Err}
use cloudeagent.Api.Bearer.{trim_prefix}
use cloudeagent.Gateway.Registry.{Registry, resolve}
use cloudeagent.Relay.{Event, Relay, opened, relay}

pub data Tunnel : Type 0 where
  unregistered not_upgraded : Tunnel
  not_dialled : Err → Tunnel
  relayed : Relay → Tunnel

-- The URL of `Request`
pub request_url : Text → Text → Text → Text
request_url endpoint path query =
    trim_slash endpoint ++ path ++ (if leb (length query) 0 then [] else codes "?" ++ query)

-- The URL of `DialWS`
unfoldable pub ws_url : Text → Text → Text
ws_url endpoint path = codes "ws" ++ trim_prefix (trim_slash endpoint) (codes "http") ++ path

abbrev pub nothing : Unit {0} → Unit {0}
nothing s = s

unfoldable pub dial_tunnel : (Text → Option Err) → List Event → Text → Tunnel
unfolding ws_url relay
dial_tunnel dial events endpoint = elim (dial (ws_url endpoint (codes "/v1/session"))) [
  | some e ↦ not_dialled e
  | none ↦ relayed (relay nothing events (opened, tt)).0
]

unfoldable pub handle_ws_relay : Registry → Bool → (Text → Option Err) → List Event → Text → Tunnel
unfolding resolve dial_tunnel
handle_ws_relay reg upgrades dial events user_id = elim (resolve user_id reg) [
  | none ↦ unregistered
  | some endpoint ↦ if upgrades then dial_tunnel dial events endpoint else not_upgraded
]
