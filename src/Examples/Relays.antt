-- ===== src/Examples/Relays.antt =====
-- Sessions over WebSocket.
use cloudeagent.Prelude.{
  Bool, ℕ, suc, ◌≡◌, refl, ◌&&◌, true, false, none, some, List, [], ◌∷◌, ◌++◌, Text, codes, text_eq,
  lookup, if◌then◌else◌,
}
use cloudeagent.Relay.{
  Event, Relay, client_sends, client_goes, agent_sends, agent_goes, opened, is_over, relay, step,
}
use cloudeagent.Gateway.Registry.{Registry, resolve}
use cloudeagent.Gateway.Tunnel.{dial_tunnel, handle_ws_relay}
use cloudeagent.Server.Sockets.Through.{sockets_deliver}
use cloudeagent.Relay.Chain.{frames, IsPrefix}
use cloudeagent.Relay.Delivery.{client_side, agent_side, delivered, has_ended, relay_delivers}
use cloudeagent.Server.Auth.{Authenticator, authorize_instance}
use cloudeagent.Server.Connections.{Server, count_or_zero}
use cloudeagent.Server.Sockets.{Network, handle_session_ws}
use cloudeagent.Server.Handlers.Reviews.{session_refusal}
use cloudeagent.Server.Sockets.Counts.{is_open, handle_session_ws_count}
use cloudeagent.Db.Memory.{Memory, get_instance}
use cloudeagent.Examples.Setup.{alice, env}
use cloudeagent.Examples.Servers.{peopled}

-- The agent goes first, and the client says one more thing before the loop ends.
abbrev events : List Event
events =
    client_sends (codes "hi") true
    ∷ agent_sends (codes "hello") true
    ∷ agent_goes
    ∷ client_sends (codes "still there?") false
    ∷ client_goes
    ∷ []

relay_delivers_example :
    let r = (relay suc events (opened, 0)).0 in
    (r.to_agent ≡ delivered (client_side events))
    × (r.to_client ≡ delivered (agent_side events))
    × (is_over r ≡ has_ended (client_side events) && has_ended (agent_side events))
relay_delivers_example = relay_delivers suc events 0

-- The agent is gone, and nothing more comes from the client.
silent_open : is_over (relay suc (agent_goes ∷ []) (opened, 0)).0 ≡ false
unfolding relay step
silent_open = refl

-- What the control plane has passed on of `events`, as the gateway meets it.
abbrev inner_events : List Event
inner_events = client_sends (codes "hi") true ∷ agent_sends (codes "hello") true ∷ agent_goes ∷ []

abbrev server : Server Memory ℕ
server = record { ws_manager = []; state = peopled }

abbrev auth : Authenticator
auth = record { namespace = codes "dev"; admin_token = codes "root" }

abbrev mark : Text → Text
mark s = codes "#" ++ s

abbrev network : Network
network = record { upgrades = true; dial = λ url. none; events = events }

handle_session_ws_count_example :
    let (result, after) =
      handle_session_ws env mark mark auth
        (some (codes "http://gw"))
        alice
        (codes "root")
        network
        server in
    count_or_zero (lookup alice after.ws_manager) ≡ (
      if text_eq alice alice && is_open result
      then suc (count_or_zero (lookup alice server.ws_manager))
      else count_or_zero (lookup alice server.ws_manager))
handle_session_ws_count_example =
    handle_session_ws_count env mark mark auth (some (codes "http://gw")) alice (codes "root") alice
      network server

abbrev registry : Registry
registry = (alice, codes "http://gw/agents/alice") ∷ []

abbrev carried : Bool → Relay
carried reads_client = record {
  reads_client = reads_client;
  reads_agent = false;
  to_agent = codes "hi" ∷ [];
  to_client = codes "hello" ∷ [];
  told_agent = false;
}

sockets_deliver_example :
    IsPrefix (carried true).to_agent (frames (client_side events))
    × IsPrefix (carried false).to_client (frames (agent_side inner_events))
unfolding handle_session_ws session_refusal authorize_instance text_eq get_instance lookup
    handle_ws_relay resolve dial_tunnel relay step
sockets_deliver_example =
    sockets_deliver env alice mark mark auth (some (codes "http://gw")) network server
      (carried false) (codes "root") registry true (λ url. none) inner_events (carried true) refl
      refl ([], refl) ([], refl)
