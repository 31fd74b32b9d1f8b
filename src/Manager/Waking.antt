-- ===== src/Manager/Waking.antt =====
-- `Wake` and the whole of `Create` of cloud-backend/pkg/sandboxruntime/manager.go.
use cloudeagent.Prelude.{
  ◌*◌, ◌≡◌, refl, sym, ap, ◌∙◌, inl, inr, none, Text, Option-cases, Bool-cases,
}
use cloudeagent.Types.{
  Outcome-cases, ok, running, failed, suspended, status_none, is_running, Instance, Status,
}
use cloudeagent.Db.Store.{StoreLaws}
use cloudeagent.Sandbox.Health.{wait_health}
use cloudeagent.Sandbox.UserId.{validate_user_id}
use cloudeagent.Manager.World.{Env, State}
use cloudeagent.Manager.Step.{◌>>=◌, at_store, at_world}
use cloudeagent.Manager.Result.{already, done, refused, update_cases, is_up, sandbox_of}
use cloudeagent.Manager.Creation.{
  Ends, Down, via, store-register, store-set_config, store-resolve, fail_instance-Ends,
  create_sandbox-Ends,
}
use cloudeagent.Manager.{
  fail_instance, wake_record, wake_configured, wake_started, wake_sandbox, wake_locked, create_over,
  create, wake, resolve_config, register_gateway, set_config_via_gateway, with_info, second,
}

module _ {S W : Type 0} (env : Env S W) (laws : StoreLaws env.store) (u : Text) where
  wake_record-Ends :
      (inst : Instance) (s : State S W)
      → Down env laws u inst s
      → Ends env laws u s (wake_record env inst s)
  unfolding wake_record
  wake_record-Ends inst s d =
      let now = env.probes.now s.world in
      let i : Instance = record inst {
        status = running;
        error = none;
        updated_at = now;
        last_active_at = now;
      } in
      elim (update_cases laws i s.store) [
        | inl (e, put) ↦ rw (e, wake_record, ◌>>=◌, at_store) (done i d.0 refl refl d.1 refl put)
        | inr (x, e, same) ↦ rw (e, wake_record, ◌>>=◌, at_store) (refused x refl same)
      ]

  wake_configured-Ends :
      (inst : Instance) (s : State S W)
      → Down env laws u inst s
      → Ends env laws u s (wake_configured env u inst s)
  unfolding wake_configured
  wake_configured-Ends inst s d =
      let s1 = (resolve_config env u s).1 in
      elim (Outcome-cases (resolve_config env u s).0) [
        | inl (cfg, e) ↦
            let s2 = (set_config_via_gateway env u cfg s1).1 in
            rw (e, wake_configured, ◌>>=◌)
              (via env laws u s s2 (store-set_config env u cfg s1 ∙ store-resolve env u s) inst d
                (wake_record env inst) (wake_record-Ends inst s2))
        | inr (x, e) ↦
            rw (e, wake_configured, ◌>>=◌)
              (via env laws u s s1 (store-resolve env u s) inst d (fail_instance env u inst x)
                (fail_instance-Ends env laws u inst x s1))
      ]

  wake_started-Ends :
      (inst : Instance) (s : State S W)
      → Down env laws u inst s
      → Ends env laws u s (wake_started env u inst s)
  unfolding wake_started
  wake_started-Ends inst s d =
      let out = wait_health env.probes inst.endpoint (60 * second) s.world in
      let s1 : State S W = record s { world = out.1 } in
      elim (Option-cases out.0) [
        | inl e ↦
            rw (e, wake_started, ◌>>=◌, at_world)
              (via env laws u s (register_gateway env u inst.endpoint s1).1
                (store-register env u inst.endpoint s1) inst d (wake_configured env u inst)
                (wake_configured-Ends inst _))
        | inr (x, e) ↦
            rw (e, wake_started, ◌>>=◌, at_world) (fail_instance-Ends env laws u inst x s1 d)
      ]

  wake_sandbox-Ends :
      (inst : Instance) (s : State S W)
      → Down env laws u inst s
      → Ends env laws u s (wake_sandbox env u inst s)
  unfolding wake_sandbox
  wake_sandbox-Ends inst s d =
      let out = env.provider.start u s.world in
      let s1 : State S W = record s { world = out.1 } in
      elim (Outcome-cases out.0) [
        | inl (info, e) ↦
            rw (e, wake_sandbox, ◌>>=◌, at_world) (wake_started-Ends (with_info inst info) s1 d)
        | inr (x, e) ↦
            rw (e, wake_sandbox, ◌>>=◌, at_world) (fail_instance-Ends env laws u inst x s1 d)
      ]

  wake_locked-Ends :
      (inst : Instance) (s : State S W)
      → env.store.get_instance u s.store ≡ ok inst
      → inst.user_id ≡ u
      → Ends env laws u s (wake_locked env u inst s)
  unfolding wake_locked
  wake_locked-Ends inst s at keyed = elim (Bool-cases (is_running inst.status)) [
    | inl e ↦ rw (e, wake_locked) (already inst at e refl (λ v. refl))
    | inr e ↦
        rw (e, wake_locked)
          (wake_sandbox-Ends inst s ((keyed, inr (ap sandbox_of (sym at))), ap is_up at ∙ e))
  ]

  create_over-Ends :
      (inst : Instance) (st : Status) (s : State S W)
      → inst.status ≡ st
      → env.store.get_instance u s.store ≡ ok inst
      → inst.user_id ≡ u
      → Ends env laws u s (create_over env u inst st s)
  unfolding create_over
  create_over-Ends inst running s st at keyed = already inst at (ap is_running st) refl (λ v. refl)
  create_over-Ends inst suspended s st at keyed = wake_locked-Ends inst s at keyed
  create_over-Ends inst failed s st at keyed =
      create_sandbox-Ends env laws u (record s { world = (env.provider.delete u s.world).1 })
        (ap is_up at ∙ ap is_running st)
  create_over-Ends inst status_none s st at keyed =
      create_sandbox-Ends env laws u s (ap is_up at ∙ ap is_running st)

  -- Every record stands under the user that it names.
  abbrev pub KeyedAt : State S W → Type 0
  KeyedAt s = (i : Instance) → env.store.get_instance u s.store ≡ ok i → i.user_id ≡ u

  -- From a store whose record of the user names that user, `Wake` ends in one of four ways: the
  -- instance runs already, and no record changes; it returns an instance that runs, with no error in
  -- it, and has written just this record; it returns a failed instance with the error that is in it,
  -- and has written just this record or, where the store refuses, none; or it returns no instance and
  -- an error, and no record changes. A record that it writes names the user, and no sandbox but the
  -- one named before.
  pub wake-Ends : (s : State S W) → KeyedAt s → Ends env laws u s (wake env u s)
  unfolding wake
  wake-Ends s keyed = elim (Outcome-cases (env.store.get_instance u s.store)) [
    | inl (i, e) ↦ rw (e, wake, ◌>>=◌) (wake_locked-Ends i s e (keyed i e))
    | inr (x, e) ↦ rw (e, wake, ◌>>=◌) (refused x refl (λ v. refl))
  ]

  -- From a store whose record of the user names that user, `Create` ends in one of the same four
  -- ways: the instance runs already, it has been recorded as running, it has failed and that is
  -- recorded unless the store refuses, or the call is refused with no record changed.
  pub create-Ends : (s : State S W) → KeyedAt s → Ends env laws u s (create env u s)
  unfolding create
  create-Ends s keyed = elim (Option-cases (validate_user_id u)) [
    | inr (x, bad) ↦ rw (bad, create) (refused x refl (λ v. refl))
    | inl good ↦ elim (Outcome-cases (env.store.get_instance u s.store)) [
      | inl (i, e) ↦ rw (good, e, create, ◌>>=◌) (create_over-Ends i i.status s refl e (keyed i e))
      | inr (x, e) ↦ rw (good, e, create, ◌>>=◌) (create_sandbox-Ends env laws u s (ap is_up e))
    ]
  ]
