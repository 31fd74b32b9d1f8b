-- ===== src/Manager/Recreation.antt =====
-- `Create` of cloud-backend/pkg/sandboxruntime/manager.go for a failed instance, over a store that
-- refuses a record under a key that is taken, as a plain INSERT does.
use cloudeagent.Prelude.{◌*◌, ◌≡◌, refl, sym, ◌∙◌, subst, inl, inr, some, Text, Option-cases}
use cloudeagent.Types.{Err, ok, Outcome-cases, failed, Instance}
use cloudeagent.Db.Store.{StoreOps}
use cloudeagent.Sandbox.Health.{wait_health}
use cloudeagent.Sandbox.UserId.{validate_user_id}
use cloudeagent.Manager.World.{Env, State}
use cloudeagent.Manager.Step.{◌>>=◌, at_store, at_world}
use cloudeagent.Manager.Creation.{store-register, store-set_config, store-resolve}
use cloudeagent.Manager.{
  Reply, fail_instance, abandon, create_record, create_configured, create_started, create_sandbox,
  create_over, create, resolve_config, register_gateway, set_config_via_gateway, new_instance,
  with_info, second,
}

-- A record that can be read is not created again.
abbrev pub RefusesTaken : {S : Type 0} → StoreOps S → Type 0
RefusesTaken ops =
    (i old : Instance) (s : _)
    → ops.get_instance i.user_id s ≡ ok old
    → (x : Err) × ((ops.create_instance i s).0 ≡ some x)

module _ {S W : Type 0} (env : Env S W) (refuses : RefusesTaken env.store) (u : Text)
    (old : Instance) where
  abbrev Fails : Reply × State S W → Type 0
  Fails out = (x : Err) × (out.0.1 ≡ some x)

  abbrev IsThere : S → Type 0
  IsThere t = env.store.get_instance u t ≡ ok old

  fail_instance-Fails :
      (inst : Instance) (e : Err) (s : State S W) → Fails (fail_instance env u inst e s)
  unfolding fail_instance
  fail_instance-Fails inst e s = elim (Outcome-cases (env.store.get_instance u s.store)) [
    | inl (i, k) ↦ rw (fail_instance, k) (e, refl)
    | inr (x, k) ↦ rw (fail_instance, k) (e, refl)
  ]

  abandon-Fails : (inst : Instance) (e : Err) (s : State S W) → Fails (abandon env u inst e s)
  unfolding abandon
  abandon-Fails inst e s = fail_instance-Fails inst e _

  create_record-Fails :
      (inst : Instance) (s : State S W)
      → inst.user_id ≡ u
      → IsThere s.store
      → Fails (create_record env u inst s)
  unfolding create_record
  create_record-Fails inst s own there =
      let taken =
        refuses inst old s.store
          (subst (λ v. env.store.get_instance v s.store ≡ ok old) (sym own) there) in
      rw (create_record, ◌>>=◌, at_store, taken.1) (abandon-Fails inst taken.0 _)

  create_configured-Fails :
      (inst : Instance) (s : State S W)
      → inst.user_id ≡ u
      → IsThere s.store
      → Fails (create_configured env u inst s)
  unfolding create_configured
  create_configured-Fails inst s own there =
      let s1 = (resolve_config env u s).1 in
      elim (Outcome-cases (resolve_config env u s).0) [
        | inl (cfg, e) ↦
            rw (create_configured, ◌>>=◌, e)
              (create_record-Fails inst (set_config_via_gateway env u cfg s1).1 own
                (subst IsThere (sym (store-set_config env u cfg s1 ∙ store-resolve env u s)) there))
        | inr (x, e) ↦ rw (create_configured, ◌>>=◌, e) (abandon-Fails inst x s1)
      ]

  create_started-Fails :
      (inst : Instance) (s : State S W)
      → inst.user_id ≡ u
      → IsThere s.store
      → Fails (create_started env u inst s)
  unfolding create_started
  create_started-Fails inst s own there =
      let out = wait_health env.probes inst.endpoint (60 * second) s.world in
      let s1 : State S W = record s { world = out.1 } in
      elim (Option-cases out.0) [
        | inl e ↦
            rw (create_started, ◌>>=◌, at_world, e)
              (create_configured-Fails inst (register_gateway env u inst.endpoint s1).1 own
                (subst IsThere (sym (store-register env u inst.endpoint s1)) there))
        | inr (x, e) ↦ rw (create_started, ◌>>=◌, at_world, e) (abandon-Fails inst x s1)
      ]

  create_sandbox-Fails : (s : State S W) → IsThere s.store → Fails (create_sandbox env u s)
  unfolding create_sandbox
  create_sandbox-Fails s there =
      let now = env.probes.now s.world in
      let out = env.provider.create u s.world in
      let s1 : State S W = record s { world = out.1 } in
      elim (Outcome-cases out.0) [
        | inl (info, e) ↦
            rw (create_sandbox, ◌>>=◌, at_world, e)
              (create_started-Fails (with_info (new_instance u now) info) s1 refl there)
        | inr (x, e) ↦
            rw (create_sandbox, ◌>>=◌, at_world, e) (fail_instance-Fails (new_instance u now) x s1)
      ]

  -- Over a store that refuses a record under a key that is taken: a user whose instance has failed is
  -- never given a new one by `Create`, which always ends with an error.
  pub recreate_fails :
      (s : State S W)
      → env.store.get_instance u s.store ≡ ok old
      → old.status ≡ failed
      → (x : Err) × ((create env u s).0.1 ≡ some x)
  unfolding create create_over
  recreate_fails s there down = elim (Option-cases (validate_user_id u)) [
    | inr (x, e) ↦ rw (create, e) (x, refl)
    | inl e ↦ rw (create, e, ◌>>=◌, there, down) (create_sandbox-Fails _ there)
  ]
