-- ===== src/Manager/Session/Changes.antt =====
-- The calls that manager.go passes on to an instance leave the records as they are.
use cloudeagent.Prelude.{◌≡◌, ap, ◌∙◌, inl, inr, [], Text, arith}
use cloudeagent.Types.{Outcome-cases, Outcome}
use cloudeagent.Db.Store.{StoreLaws}
use cloudeagent.Manager.World.{Env, State, GatewayOps}
use cloudeagent.Manager.Step.{◌>>=◌, ◌>>◌}
use cloudeagent.Manager.Result.{Same}
use cloudeagent.Manager.Control.{touch_activity}
use cloudeagent.Manager.Session.{ensure_running, forward, chat, connect}

module _ {S W : Type 0} (env : Env S W) where
  pub state-ensure_running : (u : Text) (s : State S W) → (ensure_running env u s).1 ≡ s
  unfolding ensure_running
  state-ensure_running u s = ground arith

  pub store-forward :
      {A : Type 0} (u : Text) (call : GatewayOps W → W → Outcome A × W) (s : State S W)
      → (forward env u call s).1.store ≡ s.store
  unfolding forward
  store-forward u call s = ground (arith, state-ensure_running u s)

  pub connect-Same :
      (laws : StoreLaws env.store) (u : Text) (s : State S W)
      → Same laws s.store (connect env u s).1.store
  unfolding connect
  connect-Same laws u s v = ground (arith, state-ensure_running u s)

  pub chat-Same :
      (laws : StoreLaws env.store) (u message : Text) (s : State S W)
      → Same laws s.store (chat env u message s).1.store
  unfolding chat touch_activity
  chat-Same laws u message s v =
      let out = forward env u (λ gw. gw.chat u message []) s in
      let same = ap (env.store.get_instance v) (store-forward u (λ gw. gw.chat u message []) s) in
      elim (Outcome-cases out.0) [
        | inl (r, e) ↦ rw (e, chat, ◌>>=◌, ◌>>◌) (laws.get-touch _ u v out.1.store ∙ same)
        | inr (x, e) ↦ rw (e, chat, ◌>>=◌) same
      ]
