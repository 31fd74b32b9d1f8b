-- ===== src/Manager/Control.antt =====
-- cloud-backend/pkg/sandboxruntime/manager.go: the methods that stop, delete, restore and configure
-- instances.
pub mod Endings
pub mod InMemory
pub mod Changes
use cloudeagent.Prelude.{ℕ, ◌*◌, true, false, Option, none, some, List, [], ◌∷◌, Text, length, leb}
use cloudeagent.Types.{
  Err, not_running, suspend_failed, hot_load_failed, delete_failed, Outcome, ok, err, suspended,
  is_running, Instance, ModelConfig,
}
use cloudeagent.Db.Cache
use cloudeagent.Sandbox.{Info}
use cloudeagent.Manager.World.{Env, State, GatewayOps}
use cloudeagent.Manager.Step.{M, pure, at_store, at_world, ◌>>=◌, ◌>>◌}
use cloudeagent.Manager.{
  Reply, second, clock, get_instance, register_gateway, set_config_via_gateway, new_instance,
  with_info,
}

-- `if m.gateway != nil { _ = m.gateway.Unregister(…) }`
unfoldable pub unregister_gateway : {W : Type 0} → Option (GatewayOps W) → Text → W → Option Err × W
unregister_gateway none user_id w = (none, w)
unregister_gateway (some gw) user_id w = gw.unregister user_id w

module _ {S W : Type 0} (env : Env S W) where
  -- `m.cache.Delete`, which does not fail
  unfoldable pub drop_cached : Text → M S W (Unit {0})
  drop_cached user_id s = (tt, record s { cache = Cache.remove user_id s.cache })

  pub suspend_record : Text → Instance → M S W Reply
  unfolding drop_cached
  suspend_record user_id inst = do
    drop_cached user_id
    now ← clock env
    let inst' = record inst { status = suspended; updated_at = now }
    e ← at_store (env.store.update_instance inst')
    elim e [ some x ↦ pure (none, some x) | none ↦ pure (some inst', none) ]

  pub suspend_running : Text → Instance → M S W Reply
  suspend_running user_id inst = do
    e ← at_world (env.provider.stop user_id)
    elim e [ some x ↦ pure (none, some (suspend_failed x)) | none ↦ suspend_record user_id inst ]

  pub suspend : Text → M S W Reply
  suspend user_id = do
    got ← get_instance env user_id
    elim got [
      | err e ↦ pure (none, some e)
      | ok inst ↦ elim (is_running inst.status) [
        | false ↦ pure (some inst, some not_running)
        | true ↦ suspend_running user_id inst
      ]
    ]

  unfoldable pub delete : Text → M S W (Option Err)
  unfolding drop_cached
  delete user_id = do
    e ← at_world (env.provider.delete user_id)
    elim e [
      | some x ↦ pure (some (delete_failed x))
      | none ↦ do
        at_world (unregister_gateway env.gateway user_id)
        drop_cached user_id
        at_store (env.store.delete_instance user_id)
    ]

  -- One round of the loop of `Seed`: nothing for a user with a record, or with no name.
  pub seed_one : Info → M S W (Option Err)
  unfolding register_gateway
  seed_one info = do
    got ← get_instance env info.user_id
    elim (leb (length info.user_id) 0) [
      | true ↦ pure none
      | false ↦ elim got [
        | ok _ ↦ pure none
        | err _ ↦ do
          now ← clock env
          e ← at_store (env.store.create_instance (with_info (new_instance info.user_id now) info))
          elim e [
            | some x ↦ pure (some x)
            | none ↦ do register_gateway env info.user_id info.endpoint; pure none
          ]
      ]
    ]

  pub seed : List Info → M S W (Option Err)
  unfolding seed_one
  seed [] = pure none
  seed (info ∷ infos) = do e ← seed_one info; elim e [ some x ↦ pure (some x) | none ↦ seed infos ]

  pub list : M S W (Outcome (List Instance))
  list s = (env.store.list_instances s.store, s)

  abbrev day : ℕ
  day = 24 * 3600 * second

  -- The error of `TouchActivity` is dropped by every caller but the method of that name.
  unfoldable pub touch_activity : Text → M S W (Option Err)
  touch_activity user_id = do now ← clock env; at_store (env.store.touch_activity now user_id)

  unfoldable pub set_ws_connections : Text → ℕ → M S W (Option Err)
  set_ws_connections user_id n = do
    now ← clock env
    at_store (env.store.set_ws_connections now user_id n)

  abbrev set_cached : Text → ModelConfig → M S W (Unit {0})
  set_cached user_id cfg s =
      let now = env.probes.now s.world in
      (tt, record s { cache = Cache.set now user_id cfg day s.cache })

  pub set_running_config : Text → Instance → ModelConfig → M S W Reply
  unfolding set_config_via_gateway touch_activity
  set_running_config user_id inst cfg = do
    e ← set_config_via_gateway env user_id cfg
    elim e [
      | some x ↦ pure (none, some (hot_load_failed x))
      | none ↦ do set_cached user_id cfg; touch_activity user_id; pure (some inst, none)
    ]

  pub set_model_config : Text → ModelConfig → M S W Reply
  set_model_config user_id cfg = do
    got ← get_instance env user_id
    elim got [
      | err e ↦ pure (none, some e)
      | ok inst ↦ elim (is_running inst.status) [
        | false ↦ pure (none, some not_running)
        | true ↦ set_running_config user_id inst cfg
      ]
    ]
