-- ===== src/Manager.antt =====
-- cloud-backend/pkg/sandboxruntime/manager.go: the life cycle of the instances. Each method is an
-- action on the state: the store, the cache of model configurations, and the world, which holds the
-- sandboxes, the gateway, the seat service and the clock. `Create` and `wakeLocked` are cut into the
-- parts that follow each of their early returns. The lock makes each method one action.
pub mod Step
pub mod World
pub mod Control
pub mod Session
pub mod Seats
pub mod Result
pub mod Creation
pub mod Recreation
pub mod Waking
pub mod Vouching
pub mod Lifecycle
pub mod MemoryActivity
use cloudeagent.Prelude.{
  ℕ, ◌*◌, Bool, true, false, Option, none, some, List, [], ◌∷◌, ◌++◌, Text, codes, length, leb,
}
use cloudeagent.Types.{
  Err, not_running, no_gateway, panicked, suspend_failed, hot_load_failed, delete_failed, Outcome,
  ok, err, Status, running, suspended, failed, status_none, is_running, Instance, ModelConfig,
  ChatResponse, masked,
}
use cloudeagent.Db.Cache
use cloudeagent.Sandbox.{Info}
use cloudeagent.Sandbox.UserId.{validate_user_id}
use cloudeagent.Sandbox.Health.{wait_health}
use World.{Env, State, GatewayOps}
use Step.{M, pure, at_store, at_world, get_state, ◌>>=◌, ◌>>◌}

-- `(*db.Instance, error)`
abbrev pub Reply : Type 0
Reply = Option Instance × Option Err

abbrev pub second : ℕ
second = 1_000_000_000

abbrev pub agent_name : Text → Text
agent_name user_id = codes "agent-" ++ user_id

-- `inst.Workspace, inst.Endpoint, inst.Port = info.Workspace, info.Endpoint, info.Port`
abbrev pub with_info : Instance → Info → Instance
with_info inst info = record inst {
  workspace = info.workspace;
  endpoint = info.endpoint;
  port = info.port;
}

-- The instance that `Create` and `Seed` build; the fields that they do not name are zero.
abbrev pub new_instance : Text → ℕ → Instance
new_instance user_id now = record {
  user_id = user_id;
  instance_name = agent_name user_id;
  status = running;
  workspace = [];
  endpoint = [];
  port = 0;
  sandbox_id = [];
  error = none;
  last_active_at = now;
  ws_connections = 0;
  created_at = now;
  updated_at = now;
}

module _ {S W : Type 0} (env : Env S W) where
  abbrev pub clock : M S W ℕ
  clock s = (env.probes.now s.world, s)

  abbrev pub get_instance : Text → M S W (Outcome Instance)
  get_instance user_id s = (env.store.get_instance user_id s.store, s)

  unfoldable pub register_gateway : Text → Text → M S W (Unit {0})
  register_gateway user_id endpoint = elim env.gateway [
    | none ↦ pure tt
    | some gw ↦ do at_world (gw.register user_id endpoint); pure tt
  ]

  -- `m.cache.Get(…)`, with its test for a base URL
  abbrev pub cached : Outcome ModelConfig → Option ModelConfig
  cached (err e) = none
  cached (ok cfg) = elim (leb (length cfg.base_url) 0) [ true ↦ none | false ↦ some cfg ]

  unfoldable pub resolve_config : Text → M S W (Outcome ModelConfig)
  resolve_config user_id s = elim (cached (Cache.get (env.probes.now s.world) user_id s.cache)) [
    | some cfg ↦ (ok cfg, s)
    | none ↦ at_world (env.resolve_seat user_id) s
  ]

  pub get_model_config : Text → M S W (Outcome ModelConfig)
  get_model_config user_id = do
    r ← resolve_config user_id
    elim r [ err e ↦ pure (err e) | ok cfg ↦ pure (ok (masked cfg)) ]

  unfoldable pub set_config_via_gateway : Text → ModelConfig → M S W (Option Err)
  set_config_via_gateway user_id cfg = elim env.gateway [
    | none ↦ pure (some no_gateway)
    | some gw ↦ at_world (gw.set_config user_id cfg)
  ]

  pub fail_instance : Text → Instance → Err → M S W Reply
  fail_instance user_id inst e = do
    now ← clock
    let inst' = record inst { status = failed; error = some e; updated_at = now }
    got ← get_instance user_id
    elim got [
      | ok _ ↦ do at_store (env.store.update_instance inst'); pure (some inst', some e)
      | err _ ↦ do at_store (env.store.create_instance inst'); pure (some inst', some e)
    ]

  -- `_ = m.backend.Delete(…); return m.failInstance(…)`
  pub abandon : Text → Instance → Err → M S W Reply
  unfolding fail_instance
  abandon user_id inst e = do at_world (env.provider.delete user_id); fail_instance user_id inst e

  pub create_record : Text → Instance → M S W Reply
  create_record user_id inst = do
    e ← at_store (env.store.create_instance inst)
    elim e [ some x ↦ abandon user_id inst x | none ↦ pure (some inst, none) ]

  pub create_configured : Text → Instance → M S W Reply
  create_configured user_id inst = do
    r ← resolve_config user_id
    elim r [
      | err e ↦ abandon user_id inst e
      | ok cfg ↦ do set_config_via_gateway user_id cfg; create_record user_id inst
    ]

  pub create_started : Text → Instance → M S W Reply
  create_started user_id inst = do
    e ← at_world (wait_health env.probes inst.endpoint (60 * second))
    elim e [
      | some x ↦ abandon user_id inst x
      | none ↦ do register_gateway user_id inst.endpoint; create_configured user_id inst
    ]

  pub create_sandbox : Text → M S W Reply
  create_sandbox user_id = do
    now ← clock
    r ← at_world (env.provider.create user_id)
    elim r [
      | err e ↦ fail_instance user_id (new_instance user_id now) e
      | ok info ↦ create_started user_id (with_info (new_instance user_id now) info)
    ]

  unfoldable pub wake_record : Instance → M S W Reply
  wake_record inst = do
    now ← clock
    let inst' = record inst {
      status = running;
      error = none;
      updated_at = now;
      last_active_at = now;
    }
    e ← at_store (env.store.update_instance inst')
    elim e [ some x ↦ pure (none, some x) | none ↦ pure (some inst', none) ]

  unfoldable pub wake_configured : Text → Instance → M S W Reply
  wake_configured user_id inst = do
    r ← resolve_config user_id
    elim r [
      | err e ↦ fail_instance user_id inst e
      | ok cfg ↦ do set_config_via_gateway user_id cfg; wake_record inst
    ]

  unfoldable pub wake_started : Text → Instance → M S W Reply
  wake_started user_id inst = do
    e ← at_world (wait_health env.probes inst.endpoint (60 * second))
    elim e [
      | some x ↦ fail_instance user_id inst x
      | none ↦ do register_gateway user_id inst.endpoint; wake_configured user_id inst
    ]

  unfoldable pub wake_sandbox : Text → Instance → M S W Reply
  wake_sandbox user_id inst = do
    r ← at_world (env.provider.start user_id)
    elim r [
      | err e ↦ fail_instance user_id inst e
      | ok info ↦ wake_started user_id (with_info inst info)
    ]

  unfoldable pub wake_locked : Text → Instance → M S W Reply
  wake_locked user_id inst = elim (is_running inst.status) [
    | true ↦ pure (some inst, none)
    | false ↦ wake_sandbox user_id inst
  ]

  -- The `switch` on the status of a record that is there.
  pub create_over : Text → Instance → Status → M S W Reply
  create_over user_id inst running = pure (some inst, none)
  create_over user_id inst suspended = wake_locked user_id inst
  create_over user_id inst failed = do
    at_world (env.provider.delete user_id)
    create_sandbox user_id
  create_over user_id inst status_none = create_sandbox user_id

  pub create : Text → M S W Reply
  create user_id = elim (validate_user_id user_id) [
    | some e ↦ pure (none, some e)
    | none ↦ do
      got ← get_instance user_id
      elim got [ ok inst ↦ create_over user_id inst inst.status | err _ ↦ create_sandbox user_id ]
  ]

  unfoldable pub wake : Text → M S W Reply
  wake user_id = do
    got ← get_instance user_id
    elim got [ err e ↦ pure (none, some e) | ok inst ↦ wake_locked user_id inst ]
