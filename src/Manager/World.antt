-- ===== src/Manager/World.antt =====
-- What the manager of cloud-backend/pkg/sandboxruntime/manager.go calls: the interfaces
-- `AgentGateway` and `SeatService`, the providers, and the state that these share.
use cloudeagent.Prelude.{ℕ, Option, Text}
use cloudeagent.Types.{Err, Outcome, ModelConfig, ChatResponse}
use cloudeagent.Db.Store.{StoreOps}
use cloudeagent.Db.Cache.{MemoryCache}
use cloudeagent.Sandbox.{ProviderOps}
use cloudeagent.Sandbox.Health.{ProbeOps}

-- `AgentGateway`; a JSON body that is passed on is its text; of a
-- health page only the part `kernel` is read.
pub record GatewayOps (W : Type 0) : Type 0 where
  pub register : Text → Text → W → Option Err × W
  pub unregister : Text → W → Option Err × W
  pub chat : Text → Text → Text → W → Outcome ChatResponse × W
  pub workspace : Text → W → Outcome Text × W
  pub history : Text → ℕ → Text → W → Outcome Text × W
  pub new_session : Text → W → Outcome Text × W
  pub session_info : Text → W → Outcome Text × W
  pub health : Text → W → Outcome (Option Text) × W
  pub set_config : Text → ModelConfig → W → Option Err × W

-- The fields of `Manager`. Time passes in the calls of the world: two readings of the clock with no
-- such call between them agree.
pub record Env (S W : Type 0) : Type 0 where
  pub store : StoreOps S
  pub provider : ProviderOps W
  pub gateway : Option (GatewayOps W)
  pub probes : ProbeOps W
  pub resolve_seat : Text → W → Outcome ModelConfig × W

pub record State (S W : Type 0) : Type 0 where
  pub store : S
  pub cache : MemoryCache
  pub world : W
