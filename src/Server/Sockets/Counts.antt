-- ===== src/Server/Sockets/Counts.antt =====
-- What a session leaves of the counts of open sessions.
use cloudeagent.Prelude.{
  suc, ◌≡◌, refl, inl, inr, Bool, false, not, ◌&&◌, Option, none, some, List, [], ◌∷◌, Text,
  text_eq, lookup, arith, if◌then◌else◌, Bool-cases, Option-cases, leb, length,
}
use cloudeagent.Manager.World.{Env}
use cloudeagent.Relay.{
  Event, client_sends, client_goes, agent_sends, agent_goes, Relay, opened, is_over, step, relay,
}
use cloudeagent.Server.Auth.{Authenticator}
use cloudeagent.Server.Connections.{begins, ends, count_or_zero, Server, add_ws, shift_count}
use cloudeagent.Server.Connections.Agreement.{count-shift}
use cloudeagent.Server.Handlers.{Response}
use cloudeagent.Server.Handlers.Reviews.{session_refusal}
use cloudeagent.Server.Sockets.{
  Session, relayed, Network, gateway_ws_url, touched, settled, relay_session, dial_session,
  upgrade_session, handle_session_ws,
}

-- A relay that has not come to its end.
abbrev pub is_open : Session → Bool
is_open (relayed r) = not (is_over r)
is_open _ = false

module _ {S W : Type 0} (env : Env S W) where
  relay-ws_manager :
      (u : Text) (events : List Event) (r : Relay) (srv : Server S W)
      → (relay (touched env u) events (r, srv)).1.ws_manager ≡ srv.ws_manager
  unfolding relay touched
  relay-ws_manager u [] r srv = refl
  relay-ws_manager u (client_sends message success ∷ events) r srv =
      let c = step (touched env u) (client_sends message success) (r, srv) in
      ground (arith, relay-ws_manager u events c.0 c.1)
  relay-ws_manager u (client_goes ∷ events) r srv =
      let c = step (touched env u) client_goes (r, srv) in
      ground (arith, relay-ws_manager u events c.0 c.1)
  relay-ws_manager u (agent_sends message success ∷ events) r srv =
      let c = step (touched env u) (agent_sends message success) (r, srv) in
      ground (arith, relay-ws_manager u events c.0 c.1)
  relay-ws_manager u (agent_goes ∷ events) r srv =
      let c = step (touched env u) agent_goes (r, srv) in
      ground (arith, relay-ws_manager u events c.0 c.1)

  relay_session-count :
      (u v : Text) (events : List Event) (srv : Server S W)
      → let (result, after) = relay_session env u events srv in
        let n = count_or_zero (lookup v srv.ws_manager) in
        count_or_zero (lookup v after.ws_manager)
        ≡ (if text_eq u v && is_open result then suc n else n)
  unfolding relay_session add_ws touched settled
  relay_session-count u v events srv =
      let begun = touched env u (add_ws env u begins srv) in
      let c = relay (touched env u) events (opened, begun) in
      let kept : c.1.ws_manager ≡ shift_count u begins srv.ws_manager =
        relay-ws_manager u events opened begun in
      ground
        (arith, kept, count-shift u v begins srv.ws_manager, count-shift u v ends c.1.ws_manager)

  module _ (sha256_hex path_escape : Text → Text) (a : Authenticator) (base : Option Text) where
    dial_session-count :
        (u v : Text) (net : Network) (srv : Server S W)
        → let (result, after) = dial_session env sha256_hex path_escape a base u net srv in
          let n = count_or_zero (lookup v srv.ws_manager) in
          count_or_zero (lookup v after.ws_manager)
          ≡ (if text_eq u v && is_open result then suc n else n)
    unfolding dial_session
    dial_session-count u v net srv =
        elim (Bool-cases (leb (length (gateway_ws_url path_escape base u)) 0)) [
          | inl e ↦ rw e (ground arith)
          | inr e ↦ elim (Option-cases (net.dial (gateway_ws_url path_escape base u))) [
            | inl d ↦ rw (e, d) (relay_session-count u v net.events srv)
            | inr (x, d) ↦ rw (e, d) (ground arith)
          ]
        ]

    upgrade_session-count :
        (answer : Option Response) (u v : Text) (net : Network) (srv : Server S W)
        → let (result, after) =
            upgrade_session env sha256_hex path_escape a base answer u net srv in
          let n = count_or_zero (lookup v srv.ws_manager) in
          count_or_zero (lookup v after.ws_manager)
          ≡ (if text_eq u v && is_open result then suc n else n)
    unfolding upgrade_session
    upgrade_session-count (some answer) u v net srv = ground arith
    upgrade_session-count none u v net srv = elim (Bool-cases net.upgrades) [
      | inl up ↦ rw up (dial_session-count u v net srv)
      | inr up ↦ rw up (ground arith)
    ]

    -- Whatever is asked and however the session goes: it counts, for its user, exactly if it came
    -- to a relay that is not over; in every other case, with a request that is refused, a connection
    -- that fails, or a relay whose two sides have ended, the counts of all users are what they were.
    pub handle_session_ws_count :
        (u token v : Text) (net : Network) (srv : Server S W)
        → let (result, after) =
            handle_session_ws env sha256_hex path_escape a base u token net srv in
          let n = count_or_zero (lookup v srv.ws_manager) in
          count_or_zero (lookup v after.ws_manager)
          ≡ (if text_eq u v && is_open result then suc n else n)
    unfolding handle_session_ws
    handle_session_ws_count u token v net srv =
        upgrade_session-count (session_refusal sha256_hex a env u token srv.state) u v net srv
