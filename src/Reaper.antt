-- ===== src/Reaper.antt =====
-- cloud-backend/pkg/sandboxruntime/reaper.go: one scan of the idle reaper. `time.Since` is a
-- truncated difference: the timeout is positive, so a negative one suspends nobody either way.
pub mod Sparing
use cloudeagent.Prelude.{ℕ, ◌-◌, true, false, Option, List, [], ◌∷◌, leb, ltb}
use cloudeagent.Types.{Outcome, ok, err, is_running, Instance}
use cloudeagent.Db.Store.{Activity}
use cloudeagent.Manager.{Reply, clock}
use cloudeagent.Manager.World.{Env, State}
use cloudeagent.Manager.Step.{M, pure, ◌>>=◌, ◌>>◌}
use cloudeagent.Manager.Control.{suspend, list}

-- What the ignored error of `GetActivity` leaves: the zero record of postgres.go.
abbrev pub activity_of : Outcome Activity → Activity
activity_of (ok act) = act
activity_of (err e) = record { user_id = []; last_active_at = 0; ws_connections = 0 }

module _ {S W : Type 0} (env : Env S W) (idle_timeout : ℕ) where
  abbrev pub activity_at : Instance → State S W → Activity
  activity_at inst s =
      activity_of (env.store.get_activity (env.probes.now s.world) inst.user_id s.store)

  suspend_idle : Instance → Activity → M S W (Unit {0})
  suspend_idle inst act s = elim (leb idle_timeout (env.probes.now s.world - act.last_active_at)) [
    | true ↦ (tt, (suspend env inst.user_id s).1)
    | false ↦ (tt, s)
  ]

  -- The body of the loop over the instances.
  pub reap_one : Instance → M S W (Unit {0})
  unfolding suspend_idle
  reap_one inst s = elim (is_running inst.status) [
    | false ↦ (tt, s)
    | true ↦ elim (ltb 0 (activity_at inst s).ws_connections) [
      | true ↦ (tt, s)
      | false ↦ suspend_idle inst (activity_at inst s) s
    ]
  ]

  pub reap : List Instance → M S W (Unit {0})
  reap [] = pure tt
  reap (inst ∷ insts) = do reap_one inst; reap insts

  -- One tick.
  pub scan : M S W (Unit {0})
  unfolding reap
  scan = do r ← list env; elim r [ err e ↦ pure tt | ok insts ↦ reap insts ]
