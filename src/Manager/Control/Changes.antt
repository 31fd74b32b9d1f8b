-- ===== src/Manager/Control/Changes.antt =====
-- What the methods of manager.go that stop, delete, restore and configure do to the records.
use cloudeagent.Prelude.{
  refl, sym, subst, ap, ◌∙◌, inl, inr, Option, Text, Option-cases, Bool-cases, leb, length,
}
use cloudeagent.Types.{Outcome-cases, Err, is_running, Instance, ModelConfig}
use cloudeagent.Db.Store.{StoreLaws}
use cloudeagent.Sandbox.{Info}
use cloudeagent.Manager.World.{Env, State}
use cloudeagent.Manager.Step.{◌>>=◌, ◌>>◌, at_store}
use cloudeagent.Manager.Result.{Same, Change, kept, put, gone, create_cases, sandbox_of, to_running}
use cloudeagent.Manager.Creation.{store-register, store-set_config}
use cloudeagent.Manager.Waking.{KeyedAt}
use cloudeagent.Manager.{Reply, new_instance, with_info, set_config_via_gateway}
use cloudeagent.Manager.Control.Endings.{
  SuspendResult, stopped, refused, suspend-SuspendResult, DeleteResult, deleted, not_deleted,
  delete-DeleteResult,
}
use cloudeagent.Manager.Control.{suspend, delete, seed_one, set_model_config, set_running_config}

module _ {S W : Type 0} (env : Env S W) (laws : StoreLaws env.store) (u : Text) where
  SuspendResult-Change :
      (s : State S W) (r : Reply) (s' : State S W)
      → KeyedAt env laws u s
      → SuspendResult env laws u s r s'
      → Change laws u s.store s'.store
  SuspendResult-Change s r s' keyed (stopped old i at up e ret p drop) =
      put i
        (
          ap (λ (j : Instance). j.user_id) e ∙ keyed old at,
          inr (ap (λ (j : Instance). j.sandbox_id) e ∙ ap sandbox_of (sym at)),
        )
        (rw (at, up, ap (λ (j : Instance). j.status) e) refl) p
  SuspendResult-Change s r s' keyed (refused o e ret same) = kept same

  pub suspend-Change :
      (s : State S W) → KeyedAt env laws u s → Change laws u s.store (suspend env u s).1.store
  suspend-Change s keyed = SuspendResult-Change s _ _ keyed (suspend-SuspendResult env laws u s)

  DeleteResult-Change :
      (s : State S W) (r : Option Err) (s' : State S W)
      → DeleteResult env laws u s r s'
      → Change laws u s.store s'.store
  DeleteResult-Change s r s' (deleted ret g drop) = gone g
  DeleteResult-Change s r s' (not_deleted e ret same) = kept same

  pub delete-Change : (s : State S W) → Change laws u s.store (delete env u s).1.store
  delete-Change s = DeleteResult-Change s _ _ (delete-DeleteResult env laws u s)

  pub set_model_config-Same :
      (cfg : ModelConfig) (s : State S W) → Same laws s.store (set_model_config env u cfg s).1.store
  unfolding set_model_config set_running_config
  set_model_config-Same cfg s v = elim (Outcome-cases (env.store.get_instance u s.store)) [
    | inr (x, e) ↦ rw (e, set_model_config, ◌>>=◌)
    | inl (i, e) ↦ elim (Bool-cases (is_running i.status)) [
      | inr down ↦ rw (e, set_model_config, ◌>>=◌, down)
      | inl up ↦
          let s1 = (set_config_via_gateway env u cfg s).1 in
          let same = ap (env.store.get_instance v) (store-set_config env u cfg s) in
          elim (Option-cases (set_config_via_gateway env u cfg s).0) [
            | inr (x, e2) ↦
                rw (e, set_model_config, ◌>>=◌, up) (rw (e2, set_running_config, ◌>>=◌) same)
            | inl e2 ↦
                rw (e, set_model_config, ◌>>=◌, up)
                  (rw (e2, set_running_config, ◌>>=◌) (laws.get-touch _ u v s1.store ∙ same))
          ]
    ]
  ]

module _ {S W : Type 0} (env : Env S W) (laws : StoreLaws env.store) where
  pub seed_one-Change :
      (info : Info) (s : State S W) → Change laws info.user_id s.store (seed_one env info s).1.store
  unfolding seed_one
  seed_one-Change info s = elim (Bool-cases (leb (length info.user_id) 0)) [
    | inl e ↦ rw (e, seed_one, ◌>>=◌) (kept (λ v. refl))
    | inr e ↦ elim (Outcome-cases (env.store.get_instance info.user_id s.store)) [
      | inl (i, at) ↦ rw (e, at, seed_one, ◌>>=◌) (kept (λ v. refl))
      | inr (x, at) ↦
          let i : Instance = with_info (new_instance info.user_id (env.probes.now s.world)) info in
          let s1 : State S W = record s { store = (env.store.create_instance i s.store).1 } in
          elim (create_cases laws i s.store) [
            | inl (e2, p) ↦
                rw (e, at, e2, seed_one, ◌>>=◌, ◌>>◌, at_store)
                  (subst (Change laws info.user_id s.store)
                    (sym (store-register env info.user_id info.endpoint s1))
                    (put i (refl, inl refl)
                      (to_running (env.store.get_instance info.user_id s.store)) p))
            | inr (y, e2, same) ↦ rw (e, at, e2, seed_one, ◌>>=◌, ◌>>◌, at_store) (kept same)
          ]
    ]
  ]
