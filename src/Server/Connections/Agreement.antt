-- ===== src/Server/Connections/Agreement.antt =====
-- The counts of server.go beside those of the store, and what the reaper makes of them.
use cloudeagent.Prelude.{
  ℕ, ◌<◌, ◌≡◌, refl, sym, Option, none, some, List, [], ◌∷◌, Text, text_eq, text_eq_iff, Assoc,
  lookup, insert, lookup-insert, lookup-delete, arith, if◌then◌else◌,
}
use cloudeagent.Types.{Instance}
use cloudeagent.Db.Store.{Activity}
use cloudeagent.Db.Memory.{Memory, set_ws_connections, get_activity}
use cloudeagent.Manager.World.{Env}
use cloudeagent.Manager.MemoryActivity.{in_memory}
use cloudeagent.Reaper.{reap_one}
use cloudeagent.Reaper.Sparing.{reap_connected}
use cloudeagent.Server.Connections.{
  Delta, begins, ends, shifted, count_or_zero, Server, shift_count, add_ws, run_sessions,
  open_sessions,
}

pub count-shift :
    (u v : Text) (d : Delta) (ws : Assoc ℕ)
    → count_or_zero (lookup v (shift_count u d ws)) ≡ (
        if text_eq u v
        then shifted d (count_or_zero (lookup v ws))
        else count_or_zero (lookup v ws))
unfolding shift_count
count-shift u v d ws =
    let n = shifted d (count_or_zero (lookup u ws)) in
    ground (arith, lookup-insert u v n ws, lookup-delete u v (insert u n ws), text_eq_iff u v)

-- The connections that the activity record of a user shows.
abbrev pub recorded : Option Activity → ℕ
recorded none = 0
recorded (some act) = act.ws_connections

-- For each user the count of the server is the one in the store.
abbrev pub Agree : {W : Type 0} → Server Memory W → Type 0
Agree srv =
    (v : Text)
    → recorded (lookup v srv.state.store.activity) ≡ count_or_zero (lookup v srv.ws_manager)

module _ {W : Type 0} (env : Env Memory W) where
  add_ws-Agree :
      (u : Text) (d : Delta) (srv : Server Memory W)
      → Agree srv
      → Agree (add_ws (in_memory env) u d srv)
  unfolding add_ws set_ws_connections
  add_ws-Agree u d srv h v =
      rw lookup-insert (ground (arith, count-shift u v d srv.ws_manager, text_eq_iff u v, h v))

  -- Over the store in memory: whatever sessions begin and end, of whatever users and in whatever
  -- order, the count of each user in the server and in the store is the number of sessions that are
  -- open, from a server whose counts agree with the store's.
  pub run_sessions_count :
      (events : List (Text × Delta)) (srv : Server Memory W) (v : Text)
      → Agree srv
      → let after = run_sessions (in_memory env) events srv in
        let open_now = open_sessions v events (count_or_zero (lookup v srv.ws_manager)) in
        (count_or_zero (lookup v after.ws_manager) ≡ open_now)
        × (recorded (lookup v after.state.store.activity) ≡ open_now)
  unfolding run_sessions open_sessions add_ws
  run_sessions_count [] srv v h = (refl, h v)
  run_sessions_count ((u, begins) ∷ events) srv v h =
      rw (sym (count-shift u v begins srv.ws_manager)) (
        run_sessions_count events (add_ws (in_memory env) u begins srv) v
          (add_ws-Agree u begins srv h))
  run_sessions_count ((u, ends) ∷ events) srv v h =
      rw (sym (count-shift u v ends srv.ws_manager)) (
        run_sessions_count events (add_ws (in_memory env) u ends srv) v (add_ws-Agree u ends srv h))

  -- Over the store in memory, after any sessions have begun and ended, from a server whose counts
  -- agree with the store's: the reaper leaves the instance of every user alone that has a session
  -- open, and the whole state with it, however long the session has been silent.
  pub open_session_spared :
      (events : List (Text × Delta)) (srv : Server Memory W) (idle : ℕ) (inst : Instance)
      → Agree srv
      → 0 < open_sessions inst.user_id events (count_or_zero (lookup inst.user_id srv.ws_manager))
      → let s = (run_sessions (in_memory env) events srv).state in
        (reap_one (in_memory env) idle inst s).1 ≡ s
  unfolding get_activity
  open_session_spared events srv idle inst h open_now =
      let s = (run_sessions (in_memory env) events srv).state in
      reap_connected (in_memory env) idle inst s
        (ground (arith, (run_sessions_count events srv inst.user_id h).1))
