-- ===== src/Manager/Vouching.antt =====
-- What a running instance that `Create` or `Wake` returns rests on: how WaitHealth of
-- cloud-backend/pkg/sandboxprovider/health.go bears on manager.go.
use cloudeagent.Prelude.{
  ◌*◌, ◌++◌, ◌≡◌, ℕ, refl, ap, sym, subst, ◌⊎◌, inl, inr, true, none, some, Text, codes,
  Option-cases, Bool-cases,
}
use cloudeagent.Types.{
  Outcome-cases, Err, running, failed, suspended, status_none, is_running, Instance, ModelConfig,
  Status,
}
use cloudeagent.Sandbox.Health.{answered, contains, wait_health, wait_health_sound}
use cloudeagent.Sandbox.UserId.{validate_user_id}
use cloudeagent.Manager.World.{Env, State, GatewayOps}
use cloudeagent.Manager.Step.{◌>>=◌, at_store, at_world}
use cloudeagent.Manager.Result.{is_up}
use cloudeagent.Manager.Creation.{world-resolve}
use cloudeagent.Manager.{
  Reply, fail_instance, abandon, create_record, create_configured, create_started, create_sandbox,
  wake_record, wake_configured, wake_started, wake_sandbox, wake_locked, create_over, create, wake,
  register_gateway, set_config_via_gateway, resolve_config, with_info, new_instance, second,
}

-- `Seen url w`: what has happened when the world is `w` includes an answer of `url` with status 200.
-- A GET that is answered so makes it hold, and no later call takes it back.
pub record Record {S W : Type 0} (env : Env S W) (Seen : Text → W → Type 0) : Type 0 where
  pub answers :
      (url : Text) (w : W)
      → (env.probes.get_health url w).0 ≡ answered 200
      → Seen url (env.probes.get_health url w).1
  pub lasts_resolve : (u url : Text) (w : W) → Seen url w → Seen url (env.resolve_seat u w).1
  pub lasts_register :
      (gw : GatewayOps W) (u ep url : Text) (w : W)
      → env.gateway ≡ some gw
      → Seen url w
      → Seen url (gw.register u ep w).1
  pub lasts_set_config :
      (gw : GatewayOps W) (u url : Text) (cfg : ModelConfig) (w : W)
      → env.gateway ≡ some gw
      → Seen url w
      → Seen url (gw.set_config u cfg w).1

-- An endpoint of the sandbox gateway, or one whose health page has been answered with status 200.
abbrev pub IsHealthy : {W : Type 0} → (Text → W → Type 0) → Text → W → Type 0
IsHealthy Seen endpoint w =
    (contains (codes "/sandboxes/") endpoint ≡ true) ⊎ Seen (endpoint ++ codes "/health") w

-- An instance that is returned with no error has such an endpoint.
abbrev pub Vouched : {W : Type 0} → (Text → W → Type 0) → Reply → W → Type 0
Vouched Seen (some inst, none) w = IsHealthy Seen inst.endpoint w
Vouched Seen _ w = Unit

module _ {S W : Type 0} (env : Env S W) (Seen : Text → W → Type 0) (seen : Record env Seen)
    (u : Text) where
  abbrev Ends : Reply × State S W → Type 0
  Ends out = Vouched Seen out.0 out.1.world

  health-IsHealthy :
      (ep : Text) (timeout : ℕ) (w : W)
      → (wait_health env.probes ep timeout w).0 ≡ none
      → IsHealthy Seen ep (wait_health env.probes ep timeout w).1
  health-IsHealthy ep timeout w h = elim (wait_health_sound env.probes ep timeout w h) [
    | inl e ↦ inl e
    | inr (w0, e, last) ↦
        inr (subst (Seen (ep ++ codes "/health")) last (seen.answers (ep ++ codes "/health") w0 e))
  ]

  resolve-IsHealthy :
      (ep : Text) (s : State S W)
      → IsHealthy Seen ep s.world
      → IsHealthy Seen ep (resolve_config env u s).1.world
  resolve-IsHealthy ep s (inl h) = inl h
  resolve-IsHealthy ep s (inr h) = elim (world-resolve env u s) [
    | inl e ↦ inr (subst (Seen (ep ++ codes "/health")) (sym e) h)
    | inr e ↦ inr (
        subst (Seen (ep ++ codes "/health")) (sym e)
          (seen.lasts_resolve u (ep ++ codes "/health") s.world h))
  ]

  register-IsHealthy :
      (ep at : Text) (s : State S W)
      → IsHealthy Seen ep s.world
      → IsHealthy Seen ep (register_gateway env u at s).1.world
  unfolding register_gateway
  register-IsHealthy ep at s (inl h) = inl h
  register-IsHealthy ep at s (inr h) = elim (Option-cases env.gateway) [
    | inl e ↦ rw (register_gateway, e) (inr h)
    | inr (gw, e) ↦
        rw (register_gateway, e, ◌>>=◌, at_world)
          (inr (seen.lasts_register gw u at (ep ++ codes "/health") s.world e h))
  ]

  set_config-IsHealthy :
      (ep : Text) (cfg : ModelConfig) (s : State S W)
      → IsHealthy Seen ep s.world
      → IsHealthy Seen ep (set_config_via_gateway env u cfg s).1.world
  unfolding set_config_via_gateway
  set_config-IsHealthy ep cfg s (inl h) = inl h
  set_config-IsHealthy ep cfg s (inr h) = elim (Option-cases env.gateway) [
    | inl e ↦ rw (set_config_via_gateway, e) (inr h)
    | inr (gw, e) ↦
        rw (set_config_via_gateway, e, at_world)
          (inr (seen.lasts_set_config gw u (ep ++ codes "/health") cfg s.world e h))
  ]

  fail_instance-Vouched :
      (inst : Instance) (e : Err) (s : State S W) → Ends (fail_instance env u inst e s)
  unfolding fail_instance
  fail_instance-Vouched inst e s = elim (Outcome-cases (env.store.get_instance u s.store)) [
    | inl (old, eq) ↦ rw (eq, fail_instance) tt
    | inr (x, eq) ↦ rw (eq, fail_instance) tt
  ]

  abandon-Vouched : (inst : Instance) (e : Err) (s : State S W) → Ends (abandon env u inst e s)
  unfolding abandon
  abandon-Vouched inst e s = fail_instance-Vouched inst e _

  create_record-Vouched :
      (inst : Instance) (s : State S W)
      → IsHealthy Seen inst.endpoint s.world
      → Ends (create_record env u inst s)
  unfolding create_record
  create_record-Vouched inst s h =
      let out = env.store.create_instance inst s.store in
      elim (Option-cases out.0) [
        | inl e ↦ rw (e, create_record, ◌>>=◌, at_store) h
        | inr (x, e) ↦ rw (e, create_record, ◌>>=◌, at_store) (abandon-Vouched inst x _)
      ]

  create_configured-Vouched :
      (inst : Instance) (s : State S W)
      → IsHealthy Seen inst.endpoint s.world
      → Ends (create_configured env u inst s)
  unfolding create_configured
  create_configured-Vouched inst s h = elim (Outcome-cases (resolve_config env u s).0) [
    | inl (cfg, e) ↦
        rw (e, create_configured, ◌>>=◌)
          (create_record-Vouched inst _
            (set_config-IsHealthy inst.endpoint cfg _ (resolve-IsHealthy inst.endpoint s h)))
    | inr (x, e) ↦ rw (e, create_configured, ◌>>=◌) (abandon-Vouched inst x _)
  ]

  create_started-Vouched : (inst : Instance) (s : State S W) → Ends (create_started env u inst s)
  unfolding create_started
  create_started-Vouched inst s =
      let out = wait_health env.probes inst.endpoint (60 * second) s.world in
      elim (Option-cases out.0) [
        | inl e ↦
            rw (e, create_started, ◌>>=◌, at_world)
              (create_configured-Vouched inst _ (
                register-IsHealthy inst.endpoint inst.endpoint _
                  (health-IsHealthy inst.endpoint (60 * second) s.world e)))
        | inr (x, e) ↦ rw (e, create_started, ◌>>=◌, at_world) (abandon-Vouched inst x _)
      ]

  create_sandbox-Vouched : (s : State S W) → Ends (create_sandbox env u s)
  unfolding create_sandbox
  create_sandbox-Vouched s =
      let now = env.probes.now s.world in
      elim (Outcome-cases (env.provider.create u s.world).0) [
        | inl (info, e) ↦
            rw (e, create_sandbox, ◌>>=◌, at_world)
              (create_started-Vouched (with_info (new_instance u now) info) _)
        | inr (x, e) ↦
            rw (e, create_sandbox, ◌>>=◌, at_world) (fail_instance-Vouched (new_instance u now) x _)
      ]

  wake_record-Vouched :
      (inst : Instance) (s : State S W)
      → IsHealthy Seen inst.endpoint s.world
      → Ends (wake_record env inst s)
  unfolding wake_record
  wake_record-Vouched inst s h =
      let now = env.probes.now s.world in
      let i : Instance = record inst {
        status = running;
        error = none;
        updated_at = now;
        last_active_at = now;
      } in
      elim (Option-cases (env.store.update_instance i s.store).0) [
        | inl e ↦ rw (e, wake_record, ◌>>=◌, at_store) h
        | inr (x, e) ↦ rw (e, wake_record, ◌>>=◌, at_store) tt
      ]

  wake_configured-Vouched :
      (inst : Instance) (s : State S W)
      → IsHealthy Seen inst.endpoint s.world
      → Ends (wake_configured env u inst s)
  unfolding wake_configured
  wake_configured-Vouched inst s h = elim (Outcome-cases (resolve_config env u s).0) [
    | inl (cfg, e) ↦
        rw (e, wake_configured, ◌>>=◌)
          (wake_record-Vouched inst _
            (set_config-IsHealthy inst.endpoint cfg _ (resolve-IsHealthy inst.endpoint s h)))
    | inr (x, e) ↦ rw (e, wake_configured, ◌>>=◌) (fail_instance-Vouched inst x _)
  ]

  wake_started-Vouched : (inst : Instance) (s : State S W) → Ends (wake_started env u inst s)
  unfolding wake_started
  wake_started-Vouched inst s =
      let out = wait_health env.probes inst.endpoint (60 * second) s.world in
      elim (Option-cases out.0) [
        | inl e ↦
            rw (e, wake_started, ◌>>=◌, at_world)
              (wake_configured-Vouched inst _ (
                register-IsHealthy inst.endpoint inst.endpoint _
                  (health-IsHealthy inst.endpoint (60 * second) s.world e)))
        | inr (x, e) ↦ rw (e, wake_started, ◌>>=◌, at_world) (fail_instance-Vouched inst x _)
      ]

  wake_sandbox-Vouched : (inst : Instance) (s : State S W) → Ends (wake_sandbox env u inst s)
  unfolding wake_sandbox
  wake_sandbox-Vouched inst s = elim (Outcome-cases (env.provider.start u s.world).0) [
    | inl (info, e) ↦
        rw (e, wake_sandbox, ◌>>=◌, at_world) (wake_started-Vouched (with_info inst info) _)
    | inr (x, e) ↦ rw (e, wake_sandbox, ◌>>=◌, at_world) (fail_instance-Vouched inst x _)
  ]

  -- The record of the user was running, or the reply is vouched for.
  wake_locked-Vouched :
      (inst : Instance) (s : State S W)
      → (is_running inst.status ≡ true) ⊎ Ends (wake_locked env u inst s)
  unfolding wake_locked
  wake_locked-Vouched inst s = elim (Bool-cases (is_running inst.status)) [
    | inl e ↦ inl e
    | inr e ↦ inr (rw (e, wake_locked) (wake_sandbox-Vouched inst s))
  ]

  create_over-Vouched :
      (inst : Instance) (st : Status) (s : State S W)
      → inst.status ≡ st
      → (is_running inst.status ≡ true) ⊎ Ends (create_over env u inst st s)
  unfolding create_over
  create_over-Vouched inst running s h = inl (ap is_running h)
  create_over-Vouched inst suspended s h = wake_locked-Vouched inst s
  create_over-Vouched inst failed s h = inr (create_sandbox-Vouched _)
  create_over-Vouched inst status_none s h = inr (create_sandbox-Vouched s)

  create-Vouched :
      (s : State S W) → (is_up (env.store.get_instance u s.store) ≡ true) ⊎ Ends (create env u s)
  unfolding create
  create-Vouched s = elim (Option-cases (validate_user_id u)) [
    | inr (x, e) ↦ inr (rw (create, e) tt)
    | inl e ↦ elim (Outcome-cases (env.store.get_instance u s.store)) [
      | inr (x, got) ↦ inr (rw (create, e, got) (create_sandbox-Vouched s))
      | inl (inst, got) ↦ rw (create, e, got) (create_over-Vouched inst inst.status s refl)
    ]
  ]

  wake-Vouched :
      (s : State S W) → (is_up (env.store.get_instance u s.store) ≡ true) ⊎ Ends (wake env u s)
  unfolding wake
  wake-Vouched s = elim (Outcome-cases (env.store.get_instance u s.store)) [
    | inr (x, got) ↦ inr (rw (wake, got) tt)
    | inl (inst, got) ↦ rw (wake, got) (wake_locked-Vouched inst s)
  ]

  -- Over any store, provider and gateway, and whatever record is kept of the answers of the health
  -- pages: where Create or Wake returns an instance with no error, the record of the user was running
  -- before the call, or the endpoint of the instance is one of the sandbox gateway, or the answer of
  -- its health page with status 200 is on record when the call returns.
  pub success-Vouched :
      (s : State S W)
      → ((is_up (env.store.get_instance u s.store) ≡ true) ⊎ Ends (create env u s))
        × ((is_up (env.store.get_instance u s.store) ≡ true) ⊎ Ends (wake env u s))
  success-Vouched s = (create-Vouched s, wake-Vouched s)
