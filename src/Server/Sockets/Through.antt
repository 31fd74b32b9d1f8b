-- ===== src/Server/Sockets/Through.antt =====
-- A session over WebSocket from the client to the agent, through `handleSessionWS` of the control
-- plane and `handleWSRelay` of the gateway.
use cloudeagent.Prelude.{
  ◌≡◌, sym, subst, inl, inr, Bool, Option, List, Text, Option-cases, Bool-cases, leb, length, codes,
}
use cloudeagent.Types.{Err}
use cloudeagent.Manager.World.{Env}
use cloudeagent.Gateway.Registry.{Registry, resolve}
use cloudeagent.Gateway.Tunnel.{Tunnel, dial_tunnel, handle_ws_relay, nothing, ws_url}
use cloudeagent.Relay.{Event, Relay, opened, relay}
use cloudeagent.Relay.Chain.{IsPrefix, frames, chain_delivers}
use cloudeagent.Relay.Delivery.{client_side, agent_side}
use cloudeagent.Server.Auth.{Authenticator}
use cloudeagent.Server.Connections.{begins, Server, add_ws}
use cloudeagent.Server.Handlers.Reviews.{session_refusal}
use cloudeagent.Server.Sockets.{
  relayed, Network, gateway_ws_url, touched, settled, relay_session, dial_session, upgrade_session,
  handle_session_ws,
}

dial_tunnel-relayed :
    (dial : Text → Option Err) (events : List Event) (endpoint : Text) (r : Relay)
    → dial_tunnel dial events endpoint ≡ Tunnel.relayed r
    → (relay nothing events (opened, tt)).0 ≡ r
unfolding dial_tunnel
dial_tunnel-relayed dial events endpoint r h =
    elim (Option-cases (dial (ws_url endpoint (codes "/v1/session")))) [
      | inl e ↦ (let h2 = rw (dial_tunnel, e) at h in cc)
      | inr (x, e) ↦ (let h2 = rw (dial_tunnel, e) at h in cc)
    ]

handle_ws_relay-relayed :
    (reg : Registry) (upgrades : Bool) (dial : Text → Option Err) (events : List Event) (u : Text)
    (r : Relay)
    → handle_ws_relay reg upgrades dial events u ≡ Tunnel.relayed r
    → (relay nothing events (opened, tt)).0 ≡ r
unfolding handle_ws_relay
handle_ws_relay-relayed reg upgrades dial events u r h = elim (Option-cases (resolve u reg)) [
  | inl e ↦ (let h2 = rw (handle_ws_relay, e) at h in cc)
  | inr (endpoint, e) ↦ elim (Bool-cases upgrades) [
    | inl up ↦ dial_tunnel-relayed dial events endpoint r (rw (handle_ws_relay, e, up) at h)
    | inr up ↦ (let h2 = rw (handle_ws_relay, e, up) at h in cc)
  ]
]

module _ {S W : Type 0} (env : Env S W) (user_id : Text) where
  settled-relayed :
      (outcome : Relay × Server S W) (r : Relay)
      → (settled env user_id outcome).0 ≡ relayed r
      → outcome.0 ≡ r
  unfolding settled
  settled-relayed (r', srv) r h = cc

  module _ (sha256_hex path_escape : Text → Text) (a : Authenticator) (base : Option Text)
      (net : Network) (srv : Server S W) (r : Relay) where
    dial_session-relayed :
        (dial_session env sha256_hex path_escape a base user_id net srv).0 ≡ relayed r
        → (relay
            (touched env user_id)
            net.events
            (opened, touched env user_id (add_ws env user_id begins srv))).0
          ≡ r
    unfolding dial_session relay_session
    dial_session-relayed h =
        let url = gateway_ws_url path_escape base user_id in
        elim (Bool-cases (leb (length url) 0)) [
          | inl e ↦ (let h2 = rw (dial_session, e) at h in cc)
          | inr e ↦ elim (Option-cases (net.dial url)) [
            | inl d ↦
                settled-relayed
                  (relay (touched env user_id) net.events
                    (opened, touched env user_id (add_ws env user_id begins srv)))
                  r (rw (dial_session, e, d) at h)
            | inr (x, d) ↦ (let h2 = rw (dial_session, e, d) at h in cc)
          ]
        ]

    handle_session_ws-relayed :
        (token : Text)
        → (handle_session_ws env sha256_hex path_escape a base user_id token net srv).0 ≡ relayed r
        → (relay
            (touched env user_id)
            net.events
            (opened, touched env user_id (add_ws env user_id begins srv))).0
          ≡ r
    unfolding handle_session_ws upgrade_session
    handle_session_ws-relayed token h =
        elim (Option-cases (session_refusal sha256_hex a env user_id token srv.state)) [
          | inl e ↦ elim (Bool-cases net.upgrades) [
            | inl up ↦ dial_session-relayed (rw (handle_session_ws, upgrade_session, e, up) at h)
            | inr up ↦ (let h2 = rw (handle_session_ws, upgrade_session, e, up) at h in cc)
          ]
          | inr (x, e) ↦ (let h2 = rw (handle_session_ws, upgrade_session, e) at h in cc)
        ]

    -- Where a session through the control plane relays, the gateway relays its other half, and the
    -- network between the two loses nothing but an end: the agent gets a beginning of what the
    -- client has sent, in its order and with nothing in between lost or twice, and the client gets
    -- a beginning of what the agent has sent.
    pub sockets_deliver :
        (token : Text) (reg : Registry) (upgrades : Bool) (dial : Text → Option Err)
        (inner : List Event) (far : Relay)
        → (handle_session_ws env sha256_hex path_escape a base user_id token net srv).0 ≡ relayed r
        → handle_ws_relay reg upgrades dial inner user_id ≡ Tunnel.relayed far
        → IsPrefix (frames (client_side inner)) r.to_agent
        → IsPrefix (frames (agent_side net.events)) far.to_client
        → IsPrefix far.to_agent (frames (client_side net.events))
          × IsPrefix r.to_client (frames (agent_side inner))
    sockets_deliver token reg upgrades dial inner far h k there back =
        let s = touched env user_id (add_ws env user_id begins srv) in
        let p = handle_session_ws-relayed token h in
        let q = handle_ws_relay-relayed reg upgrades dial inner user_id far k in
        let (agent, client) =
          chain_delivers (touched env user_id) nothing net.events inner s tt
            (subst (λ x. IsPrefix (frames (client_side inner)) x.to_agent) (sym p) there)
            (subst (λ x. IsPrefix (frames (agent_side net.events)) x.to_client) (sym q) back) in
        (
          subst (λ x. IsPrefix x.to_agent (frames (client_side net.events))) q agent,
          subst (λ x. IsPrefix x.to_client (frames (agent_side inner))) p client,
        )
