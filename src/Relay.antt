-- ===== src/Relay.antt =====
-- How a session over WebSocket is passed on, by `handleSessionWS` of
-- cloud-backend/pkg/apiserver/controlplane/server.go and `handleWSRelay` of
-- cloud-gateway/internal/server/server.go: a loop reads from the client and writes to the agent, a
-- goroutine reads from the agent and writes to the client, and the handler returns once both are
-- over. What each read and write gives is a list of events, in the order in which they come.
pub mod Delivery
pub mod Chain
use cloudeagent.Prelude.{Bool, true, false, not, ◌&&◌, List, [], ◌∷◌, ◌++◌, Text, if◌then◌else◌}

-- A message that is read from one side, and whether its write to the other succeeds; or the error
-- of a read.
pub data Event : Type 0 where
  client_sends : Text → Bool → Event
  client_goes : Event
  agent_sends : Text → Bool → Event
  agent_goes : Event

pub record Relay : Type 0 where
  pub reads_client : Bool
  pub reads_agent : Bool
  pub to_agent : List Text
  pub to_client : List Text
  pub told_agent : Bool

abbrev pub opened : Relay
opened = record {
  reads_client = true;
  reads_agent = true;
  to_agent = [];
  to_client = [];
  told_agent = false;
}

-- The handler returns.
abbrev pub is_over : Relay → Bool
is_over r = not r.reads_client && not r.reads_agent

abbrev written : List Text → Text → Bool → List Text
written sent message true = sent ++ message ∷ []
written sent message false = sent

-- `touch` is what the loop does to the rest of the state for each message of the client; nobody
-- reads from a side whose loop is over.
module _ {S : Type 0} (touch : S → S) where
  unfoldable pub step : Event → Relay × S → Relay × S
  step (client_sends message success) (r, s) =
      if r.reads_client
      then (
        record r { reads_client = success; to_agent = written r.to_agent message success },
        touch s,
      )
      else (r, s)
  step client_goes (r, s) =
      if r.reads_client then (record r { reads_client = false; told_agent = true }, s) else (r, s)
  step (agent_sends message success) (r, s) =
      if r.reads_agent
      then (record r { reads_agent = success; to_client = written r.to_client message success }, s)
      else (r, s)
  step agent_goes (r, s) = (record r { reads_agent = false }, s)

  unfoldable pub relay : List Event → Relay × S → Relay × S
  unfolding step
  relay [] c = c
  relay (e ∷ events) c = relay events (step e c)
