-- ===== src/Engine/Acp/Steps.antt =====
-- The client of cloud-backend/pkg/agentengine/qwenpaw/acp.go under any interleaving: requests begin
-- and are given up, the process answers, exits and is killed, and a new one is started.
use cloudeagent.Prelude.{ℕ, Bool, Option, List, [], ◌∷◌, Text}
use cloudeagent.Engine.Config.{EngineConfig}
use cloudeagent.Engine.Json.{Fields}
use cloudeagent.Engine.Acp.{
  Acp, Printing, RpcMessage, begin_request, give_up, notify, exited, kill_locked, stop, spawned,
  initialized, closed,
}
use cloudeagent.Engine.Acp.Permission.{PermissionRequest, dispatch}

pub data Event : Type 0 where
  begins : Bool → Event
  gives_up : ℕ → Event
  receives : Bool → RpcMessage → Event
  notifies : Bool → Event
  exits : ℕ → Event
  kills stops : Event
  spawns : ℕ → Text → ℕ → Event
  initializes : EngineConfig → Fields → Event
  closes : Text → Event

module _ (sprint : Printing) (policy : Option (PermissionRequest → Text)) (observed : Bool) where
  unfoldable pub step : Event → Acp → Acp
  step (begins wrote) a = (begin_request sprint wrote a).1
  step (gives_up id) a = give_up sprint id a
  step (receives wrote msg) a = (dispatch sprint policy observed wrote msg a).1
  step (notifies wrote) a = (notify wrote a).1
  step (exits p) a = exited p a
  step kills a = kill_locked a
  step stops a = stop a
  step (spawns p dir now) a = spawned p dir now a
  step (initializes cfg resp) a = initialized cfg resp a
  step (closes sid) a = closed sid a

  unfoldable pub run : List Event → Acp → Acp
  run [] a = a
  run (e ∷ events) a = run events (step e a)
