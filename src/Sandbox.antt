-- ===== src/Sandbox.antt =====
-- cloud-backend/pkg/sandboxprovider: what is common to the sandbox providers.
pub mod UserId
pub mod Polling
pub mod Health
pub mod E2b
pub mod Process
pub mod Docker
use cloudeagent.Prelude.{ℕ, Text, Option}
use cloudeagent.Types.{Err, Outcome}

-- `Info` of provider.go
pub record Info : Type 0 where
  pub user_id : Text
  pub workspace : Text
  pub endpoint : Text
  pub port : ℕ
  pub sandbox_id : Text

-- The interface `Provider` of provider.go, over the state `W` of the world.
pub record ProviderOps (W : Type 0) : Type 0 where
  pub create : Text → W → Outcome Info × W
  pub start : Text → W → Outcome Info × W
  pub stop : Text → W → Option Err × W
  pub delete : Text → W → Option Err × W
