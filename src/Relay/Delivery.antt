-- ===== src/Relay/Delivery.antt =====
-- What reaches the other side of a relay, and when it is over.
use mathlib.Core.List.{append_assoc, append-nil}
use cloudeagent.Prelude.{
  ◌≡◌, Bool, true, false, not, ◌&&◌, List, [], ◌∷◌, ◌++◌, Text, arith, if◌then◌else◌,
}
use cloudeagent.Relay.{
  Event, client_sends, client_goes, agent_sends, agent_goes, Relay, opened, is_over, step, relay,
}

-- The events of one side.
pub data Side : Type 0 where
  frame : Text → Bool → Side
  gone : Side

abbrev pub client_side : List Event → List Side
client_side [] = []
client_side (client_sends message success ∷ events) = frame message success ∷ client_side events
client_side (client_goes ∷ events) = gone ∷ client_side events
client_side (_ ∷ events) = client_side events

abbrev pub agent_side : List Event → List Side
agent_side [] = []
agent_side (agent_sends message success ∷ events) = frame message success ∷ agent_side events
agent_side (agent_goes ∷ events) = gone ∷ agent_side events
agent_side (_ ∷ events) = agent_side events

-- The messages up to the first that cannot be written, or to the end of the side.
abbrev pub delivered : List Side → List Text
delivered [] = []
delivered (frame message true ∷ sides) = message ∷ delivered sides
delivered (frame message false ∷ sides) = []
delivered (gone ∷ sides) = []

abbrev pub has_ended : List Side → Bool
has_ended [] = false
has_ended (frame message true ∷ sides) = has_ended sides
has_ended (frame message false ∷ sides) = true
has_ended (gone ∷ sides) = true

module _ {S : Type 0} (touch : S → S) where
  relay-client :
      (events : List Event) (r : Relay) (s : S)
      → let r' = (relay touch events (r, s)).0 in
        (r'.to_agent
          ≡ r.to_agent ++ (if r.reads_client then delivered (client_side events) else []))
        × (r'.reads_client ≡ r.reads_client && not (has_ended (client_side events)))
  unfolding relay
  relay-client [] r s = ground (arith, append-nil r.to_agent)
  relay-client (client_sends message true ∷ events) r s =
      let c = step touch (client_sends message true) (r, s) in
      ground (
        arith,
        append_assoc r.to_agent (message ∷ []) (delivered (client_side events)),
        relay-client events c.0 c.1,
      )
  relay-client (client_sends message false ∷ events) r s =
      let c = step touch (client_sends message false) (r, s) in
      ground (arith, append-nil r.to_agent, relay-client events c.0 c.1)
  relay-client (client_goes ∷ events) r s =
      let c = step touch client_goes (r, s) in
      ground (arith, append-nil r.to_agent, relay-client events c.0 c.1)
  relay-client (agent_sends message success ∷ events) r s =
      let c = step touch (agent_sends message success) (r, s) in
      ground (arith, relay-client events c.0 c.1)
  relay-client (agent_goes ∷ events) r s = relay-client events (record r { reads_agent = false }) s

  relay-agent :
      (events : List Event) (r : Relay) (s : S)
      → let r' = (relay touch events (r, s)).0 in
        (r'.to_client
          ≡ r.to_client ++ (if r.reads_agent then delivered (agent_side events) else []))
        × (r'.reads_agent ≡ r.reads_agent && not (has_ended (agent_side events)))
  unfolding relay
  relay-agent [] r s = ground (arith, append-nil r.to_client)
  relay-agent (agent_sends message true ∷ events) r s =
      let c = step touch (agent_sends message true) (r, s) in
      ground (
        arith,
        append_assoc r.to_client (message ∷ []) (delivered (agent_side events)),
        relay-agent events c.0 c.1,
      )
  relay-agent (agent_sends message false ∷ events) r s =
      let c = step touch (agent_sends message false) (r, s) in
      ground (arith, append-nil r.to_client, relay-agent events c.0 c.1)
  relay-agent (agent_goes ∷ events) r s =
      let c = step touch agent_goes (r, s) in
      ground (arith, append-nil r.to_client, relay-agent events c.0 c.1)
  relay-agent (client_sends message success ∷ events) r s =
      let c = step touch (client_sends message success) (r, s) in
      ground (arith, relay-agent events c.0 c.1)
  relay-agent (client_goes ∷ events) r s =
      let c = step touch client_goes (r, s) in ground (arith, relay-agent events c.0 c.1)

  -- Whatever the two sides do, and in whatever order: the agent gets the messages of the client, in
  -- their order, none lost and none twice, up to the first that cannot be written or to the end of
  -- the client, whatever the agent does; the client gets those of the agent in the same way; and
  -- the handler returns exactly once both sides have come to such an end.
  pub relay_delivers :
      (events : List Event) (s : S)
      → let r = (relay touch events (opened, s)).0 in
        (r.to_agent ≡ delivered (client_side events))
        × (r.to_client ≡ delivered (agent_side events))
        × (is_over r ≡ has_ended (client_side events) && has_ended (agent_side events))
  relay_delivers events s = (
    (relay-client events opened s).0,
    (relay-agent events opened s).0,
    ground (arith, (relay-client events opened s).1, (relay-agent events opened s).1),
  )
