-- ===== src/Server/Connections.antt =====
-- `addWS` of cloud-backend/pkg/apiserver/controlplane/server.go, which `handleSessionWS` calls when
-- a session begins and when it ends: the open connections of each user. The lock makes each call
-- one step, so the sessions of any users interleave as a list of beginnings and ends.
pub mod Agreement
use cloudeagent.Prelude.{
  ℕ, suc, ◌-◌, Option, none, some, List, [], ◌∷◌, Text, text_eq, Assoc, lookup, insert, delete, leb,
  if◌then◌else◌,
}
use cloudeagent.Manager.World.{Env, State}
use cloudeagent.Manager.Control.{set_ws_connections}

-- `delta`: 1 or -1
pub data Delta : Type 0 where
  begins ends : Delta

-- `n + delta`, where -1 at 0 gives a number that is not positive, as 0 is.
abbrev pub shifted : Delta → ℕ → ℕ
shifted begins n = suc n
shifted ends n = n - 1

-- `m[k]`, which is 0 for a missing key
abbrev pub count_or_zero : Option ℕ → ℕ
count_or_zero none = 0
count_or_zero (some n) = n

pub record Server (S W : Type 0) : Type 0 where
  pub ws_manager : Assoc ℕ
  pub state : State S W

pub shift_count : Text → Delta → Assoc ℕ → Assoc ℕ
shift_count user_id delta ws =
    let n = shifted delta (count_or_zero (lookup user_id ws)) in
    let ws' = insert user_id n ws in if leb n 0 then delete user_id ws' else ws'

module _ {S W : Type 0} (env : Env S W) where
  unfoldable pub add_ws : Text → Delta → Server S W → Server S W
  unfolding set_ws_connections
  add_ws user_id delta srv =
      let ws = shift_count user_id delta srv.ws_manager in
      let n = count_or_zero (lookup user_id ws) in
      record { ws_manager = ws; state = (set_ws_connections env user_id n srv.state).1 }

  pub run_sessions : List (Text × Delta) → Server S W → Server S W
  run_sessions [] srv = srv
  run_sessions ((u, d) ∷ events) srv = run_sessions events (add_ws u d srv)

-- How many sessions of the user are open after the events, from `n` at the start: a session that
-- begins is one more, one that ends is one less, and those of other users do not count.
unfoldable pub open_sessions : Text → List (Text × Delta) → ℕ → ℕ
open_sessions user_id [] n = n
open_sessions user_id ((u, begins) ∷ events) n =
    open_sessions user_id events (if text_eq u user_id then suc n else n)
open_sessions user_id ((u, ends) ∷ events) n =
    open_sessions user_id events (if text_eq u user_id then n - 1 else n)
