-- ===== src/Manager/Creation.antt =====
-- `Create` of cloud-backend/pkg/sandboxruntime/manager.go where no instance runs: every way that it
-- ends.
use cloudeagent.Prelude.{
  ◌*◌, ◌≡◌, refl, sym, subst, ◌∙◌, ◌⊎◌, inl, inr, false, none, some, Text, arith, Option-cases,
}
use cloudeagent.Types.{Outcome-cases, Err, running, failed, Instance, ModelConfig}
use cloudeagent.Db.Cache
use cloudeagent.Db.Store.{StoreLaws}
use cloudeagent.Sandbox.Health.{wait_health}
use cloudeagent.Manager.World.{Env, State}
use cloudeagent.Manager.Step.{M, ◌>>=◌, at_store, at_world}
use cloudeagent.Manager.Result.{
  is_up, Owner, Same, Result, done, gave_up, Result-Same, create_cases, update_cases,
}
use cloudeagent.Manager.{
  Reply, cached, fail_instance, abandon, create_record, create_configured, create_started,
  create_sandbox, resolve_config, register_gateway, set_config_via_gateway, new_instance, with_info,
  second,
}

module _ {S W : Type 0} (env : Env S W) where
  -- What does not touch the store.
  pub store-register :
      (u ep : Text) (s : State S W) → (register_gateway env u ep s).1.store ≡ s.store
  unfolding register_gateway
  store-register u ep s = ground arith

  pub store-set_config :
      (u : Text) (cfg : ModelConfig) (s : State S W)
      → (set_config_via_gateway env u cfg s).1.store ≡ s.store
  unfolding set_config_via_gateway
  store-set_config u cfg s = ground arith

  pub world-resolve :
      (u : Text) (s : State S W)
      → ((resolve_config env u s).1.world ≡ s.world)
        ⊎ ((resolve_config env u s).1.world ≡ (env.resolve_seat u s.world).1)
  unfolding resolve_config
  world-resolve u s =
      elim (Option-cases (cached env (Cache.get (env.probes.now s.world) u s.cache))) [
        | inl e ↦ rw (resolve_config, e) (inr refl)
        | inr (cfg, e) ↦ rw (resolve_config, e) (inl refl)
      ]

  pub store-resolve : (u : Text) (s : State S W) → (resolve_config env u s).1.store ≡ s.store
  unfolding resolve_config
  store-resolve u s = ground arith

module _ {S W : Type 0} (env : Env S W) (laws : StoreLaws env.store) (u : Text) where
  abbrev pub Ends : State S W → Reply × State S W → Type 0
  Ends s out = Result laws u s.store out.0 out.1.store

  abbrev pub DownAt : Instance → S → Type 0
  DownAt inst t =
      Owner u (env.store.get_instance u t) inst × (is_up (env.store.get_instance u t) ≡ false)

  abbrev pub Down : Instance → State S W → Type 0
  Down inst s = DownAt inst s.store

  -- The rest of a method runs from a state with the same store.
  pub via :
      (s s1 : State S W)
      → s1.store ≡ s.store
      → (inst : Instance) → Down inst s
      → (f : M S W Reply) → (Down inst s1 → Ends s1 (f s1))
      → Ends s (f s1)
  via s s1 p inst d f k =
      subst (λ t. Result laws u t (f s1).0 (f s1).1.store) p (k (subst (DownAt inst) (sym p) d))

  -- So does it after a call that the store refused.
  pub moved :
      (s s1 : State S W)
      → Same laws s.store s1.store
      → (inst : Instance) → Down inst s
      → (f : M S W Reply) → (Down inst s1 → Ends s1 (f s1))
      → Ends s (f s1)
  moved s s1 same inst d f k =
      Result-Same laws same (k (subst (λ o. Owner u o inst × (is_up o ≡ false)) (sym (same u)) d))

  pub fail_instance-Ends :
      (inst : Instance) (e : Err) (s : State S W)
      → Down inst s
      → Ends s (fail_instance env u inst e s)
  unfolding fail_instance
  fail_instance-Ends inst e s (own, down) =
      let now = env.probes.now s.world in
      let i : Instance = record inst { status = failed; error = some e; updated_at = now } in
      elim (Outcome-cases (env.store.get_instance u s.store)) [
        | inl (old, eq) ↦
            rw (eq, fail_instance)
              (elim (update_cases laws i s.store) [
                | inl (_, put) ↦ gave_up i e own refl refl down refl (inl put)
                | inr (x, _, same) ↦ gave_up i e own refl refl down refl (inr same)
              ])
        | inr (x, eq) ↦
            rw (eq, fail_instance)
              (elim (create_cases laws i s.store) [
                | inl (_, put) ↦ gave_up i e own refl refl down refl (inl put)
                | inr (x, _, same) ↦ gave_up i e own refl refl down refl (inr same)
              ])
      ]

  pub abandon-Ends :
      (inst : Instance) (e : Err) (s : State S W) → Down inst s → Ends s (abandon env u inst e s)
  unfolding abandon
  abandon-Ends inst e s d = fail_instance-Ends inst e _ d

  create_record-Ends :
      (inst : Instance) (s : State S W)
      → inst.status ≡ running
      → inst.error ≡ none
      → Down inst s
      → Ends s (create_record env u inst s)
  unfolding create_record
  create_record-Ends inst s up clean d = elim (create_cases laws inst s.store) [
    | inl (e, put) ↦ rw (e, create_record, ◌>>=◌, at_store) (done inst d.0 up clean d.1 refl put)
    | inr (x, e, same) ↦
        let s1 : State S W = record s { store = (env.store.create_instance inst s.store).1 } in
        rw (e, create_record, ◌>>=◌, at_store)
          (moved s s1 same inst d (abandon env u inst x) (abandon-Ends inst x s1))
  ]

  create_configured-Ends :
      (inst : Instance) (s : State S W)
      → inst.status ≡ running
      → inst.error ≡ none
      → Down inst s
      → Ends s (create_configured env u inst s)
  unfolding create_configured
  create_configured-Ends inst s up clean d =
      let s1 = (resolve_config env u s).1 in
      elim (Outcome-cases (resolve_config env u s).0) [
        | inl (cfg, e) ↦
            let s2 = (set_config_via_gateway env u cfg s1).1 in
            rw (e, create_configured, ◌>>=◌)
              (via s s2 (store-set_config env u cfg s1 ∙ store-resolve env u s) inst d
                (create_record env u inst) (create_record-Ends inst s2 up clean))
        | inr (x, e) ↦
            rw (e, create_configured, ◌>>=◌)
              (via s s1 (store-resolve env u s) inst d (abandon env u inst x)
                (abandon-Ends inst x s1))
      ]

  create_started-Ends :
      (inst : Instance) (s : State S W)
      → inst.status ≡ running
      → inst.error ≡ none
      → Down inst s
      → Ends s (create_started env u inst s)
  unfolding create_started
  create_started-Ends inst s up clean d =
      let out = wait_health env.probes inst.endpoint (60 * second) s.world in
      let s1 : State S W = record s { world = out.1 } in
      elim (Option-cases out.0) [
        | inl e ↦
            rw (e, create_started, ◌>>=◌, at_world)
              (via s (register_gateway env u inst.endpoint s1).1
                (store-register env u inst.endpoint s1) inst d (create_configured env u inst)
                (create_configured-Ends inst _ up clean))
        | inr (x, e) ↦ rw (e, create_started, ◌>>=◌, at_world) (abandon-Ends inst x s1 d)
      ]

  pub create_sandbox-Ends :
      (s : State S W)
      → is_up (env.store.get_instance u s.store) ≡ false
      → Ends s (create_sandbox env u s)
  unfolding create_sandbox
  create_sandbox-Ends s down =
      let now = env.probes.now s.world in
      let out = env.provider.create u s.world in
      let s1 : State S W = record s { world = out.1 } in
      elim (Outcome-cases out.0) [
        | inl (info, e) ↦
            rw (e, create_sandbox, ◌>>=◌, at_world)
              (create_started-Ends (with_info (new_instance u now) info) s1 refl refl
                ((refl, inl refl), down))
        | inr (x, e) ↦
            rw (e, create_sandbox, ◌>>=◌, at_world)
              (fail_instance-Ends (new_instance u now) x s1 ((refl, inl refl), down))
      ]
