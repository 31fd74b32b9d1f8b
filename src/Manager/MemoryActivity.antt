-- ===== src/Manager/MemoryActivity.antt =====
-- What `Wake` of manager.go does to the activity records of the store in memory.
use cloudeagent.Prelude.{◌*◌, ◌≡◌, ap, ◌∙◌, inl, inr, arith, Text, Option-cases, Bool-cases}
use cloudeagent.Types.{Err, Instance, Outcome-cases, is_running}
use cloudeagent.Sandbox.Health.{wait_health}
use cloudeagent.Manager.Step.{◌>>=◌, at_world}
use cloudeagent.Db.Memory.{Memory, memory_ops, create_instance, update_instance, get_instance}
use cloudeagent.Manager.World.{Env, State}
use cloudeagent.Manager.Creation.{store-register, store-set_config, store-resolve}
use cloudeagent.Manager.{
  fail_instance, wake_record, wake_configured, wake_started, wake_sandbox, wake_locked, wake,
  second, register_gateway, set_config_via_gateway, resolve_config, with_info,
}

-- The program's parts, with the store in memory.
abbrev pub in_memory : {W : Type 0} → Env Memory W → Env Memory W
in_memory env = record env { store = memory_ops }

module _ {W : Type 0} (env : Env Memory W) (u : Text) where
  fail_instance-activity :
      (i : Instance) (e : Err) (s : State Memory W)
      → (fail_instance (in_memory env) u i e s).1.store.activity ≡ s.store.activity
  unfolding fail_instance create_instance update_instance
  fail_instance-activity i e s = ground arith

  wake_record-activity :
      (i : Instance) (s : State Memory W)
      → (wake_record (in_memory env) i s).1.store.activity ≡ s.store.activity
  unfolding wake_record update_instance
  wake_record-activity i s = ground arith

  wake_configured-activity :
      (i : Instance) (s : State Memory W)
      → (wake_configured (in_memory env) u i s).1.store.activity ≡ s.store.activity
  unfolding wake_configured
  wake_configured-activity i s =
      let s1 = (resolve_config (in_memory env) u s).1 in
      let same = ap (λ (m : Memory). m.activity) (store-resolve (in_memory env) u s) in
      elim (Outcome-cases (resolve_config (in_memory env) u s).0) [
        | inl (cfg, e) ↦
            let s2 = (set_config_via_gateway (in_memory env) u cfg s1).1 in
            rw (e, wake_configured, ◌>>=◌)
              (wake_record-activity i s2
                ∙ ap (λ (m : Memory). m.activity) (store-set_config (in_memory env) u cfg s1)
                ∙ same)
        | inr (x, e) ↦ rw (e, wake_configured, ◌>>=◌) (fail_instance-activity i x s1 ∙ same)
      ]

  wake_started-activity :
      (i : Instance) (s : State Memory W)
      → (wake_started (in_memory env) u i s).1.store.activity ≡ s.store.activity
  unfolding wake_started
  wake_started-activity i s =
      let out = wait_health env.probes i.endpoint (60 * second) s.world in
      let s1 : State Memory W = record s { world = out.1 } in
      elim (Option-cases out.0) [
        | inl e ↦
            let s2 = (register_gateway (in_memory env) u i.endpoint s1).1 in
            rw (e, wake_started, ◌>>=◌, at_world)
              (wake_configured-activity i s2
                ∙ ap (λ (m : Memory). m.activity) (store-register (in_memory env) u i.endpoint s1))
        | inr (x, e) ↦ rw (e, wake_started, ◌>>=◌, at_world) (fail_instance-activity i x s1)
      ]

  wake_sandbox-activity :
      (i : Instance) (s : State Memory W)
      → (wake_sandbox (in_memory env) u i s).1.store.activity ≡ s.store.activity
  unfolding wake_sandbox
  wake_sandbox-activity i s =
      let out = env.provider.start u s.world in
      let s1 : State Memory W = record s { world = out.1 } in
      elim (Outcome-cases out.0) [
        | inl (info, e) ↦
            rw (e, wake_sandbox, ◌>>=◌, at_world) (wake_started-activity (with_info i info) s1)
        | inr (x, e) ↦ rw (e, wake_sandbox, ◌>>=◌, at_world) (fail_instance-activity i x s1)
      ]

  -- `Wake` writes no activity record, of any user.
  pub wake-activity :
      (s : State Memory W) → (wake (in_memory env) u s).1.store.activity ≡ s.store.activity
  unfolding wake wake_locked
  wake-activity s = elim (Outcome-cases (get_instance u s.store)) [
    | inr (x, e) ↦ rw (e, wake, ◌>>=◌)
    | inl (i, e) ↦ elim (Bool-cases (is_running i.status)) [
      | inl up ↦ rw (e, wake, ◌>>=◌, wake_locked, up)
      | inr down ↦ rw (e, wake, ◌>>=◌, wake_locked, down) (wake_sandbox-activity i s)
    ]
  ]
