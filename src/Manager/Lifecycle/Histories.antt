-- ===== src/Manager/Lifecycle/Histories.antt =====
-- What holds of the manager's records after any calls.
use cloudeagent.Prelude.{◌≡◌, ◌≢◌, true, List, [], ◌∷◌, Text}
use cloudeagent.Db.Store.{StoreLaws}
use cloudeagent.Manager.World.{Env, State}
use cloudeagent.Manager.Result.{phase, can_move}
use cloudeagent.Manager.Lifecycle.{
  Call, user_of, step, run, IsKeyed, HasNoSandbox, Change-IsKeyed, Change-HasNoSandbox,
  Change-moves, Change-others, step-Change,
}

module _ {S W : Type 0} (env : Env S W) (laws : StoreLaws env.store) where
  -- Whatever the call, and whatever the providers, the gateway and the seat service answer: every
  -- record moves only along the life cycle, so that none goes from running to failed, and none
  -- becomes suspended that was not running. The condition is that records name their users.
  pub step_moves :
      (c : Call) (s : State S W) (v : Text)
      → IsKeyed env.store s.store
      → can_move
          (phase (env.store.get_instance v s.store))
          (phase (env.store.get_instance v (step env c s).store))
        ≡ true
  step_moves c s v h = Change-moves laws (step-Change env laws c s h) v

  -- A call for one user leaves the record of every other user as it was.
  pub step_others :
      (c : Call) (s : State S W) (v : Text)
      → IsKeyed env.store s.store
      → v ≢ user_of c
      → env.store.get_instance v (step env c s).store ≡ env.store.get_instance v s.store
  step_others c s v h ne = Change-others laws (step-Change env laws c s h) v ne

  -- Records name their users, and name no sandbox, after any calls if they did so before.
  pub run_invariant :
      (cs : List Call) (s : State S W)
      → IsKeyed env.store s.store
      → HasNoSandbox env.store s.store
      → IsKeyed env.store (run env cs s).store × HasNoSandbox env.store (run env cs s).store
  unfolding run
  run_invariant [] s h k = (h, k)
  run_invariant (c ∷ cs) s h k =
      let change = step-Change env laws c s h in
      run_invariant cs (step env c s) (Change-IsKeyed laws change h)
        (Change-HasNoSandbox laws change k)
