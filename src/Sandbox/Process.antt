-- ===== src/Sandbox/Process.antt =====
-- cloud-backend/pkg/sandboxprovider/process/provider.go: each user's runtime as a process of the
-- machine, with its port and its process id in files of its workspace. The file system, the
-- processes and the decimal numbers of strconv are parameters; a file is known by its kind and its
-- user. The lock makes each method one step.
pub mod Ports
pub mod Endpoints
pub mod Waking
use cloudeagent.Prelude.{
  ℕ, zero, suc, ltb, Bool, true, false, Option, none, some, List, [], ◌∷◌, ◌++◌, Text, codes, Assoc,
  lookup, insert, delete, if◌then◌else◌,
}
use cloudeagent.Types.{Err, Outcome, ok, err}
use cloudeagent.Sandbox.{Info}

pub data File : Type 0 where
  port_file pid_file : Text → File

-- `start` opens the log and starts the program, which listens at the address. `end_child` is SIGTERM,
-- SIGKILL after five seconds, and the wait for the end. `running` is `kill(pid, 0) == nil`.
pub record Host (W : Type 0) : Type 0 where
  pub itoa : ℕ → Text
  pub atoi : Text → Option ℕ
  pub workspace_dir : Text → Text
  pub make_dir : Text → W → Option Err × W
  pub read : File → W → Option Text
  pub write : File → Text → W → Option Err × W
  pub remove : File → W → W
  pub remove_workspace : Text → W → Option Err × W
  pub free_port : W → Outcome ℕ × W
  pub start : Text → Text → W → Outcome ℕ × W
  pub end_child : ℕ → W → W
  pub terminate : ℕ → W → W
  pub kill : ℕ → W → W
  pub running : ℕ → W → Bool
  pub nap : W → W

-- The children by user, and the world.
pub record Provider (W : Type 0) : Type 0 where
  pub procs : Assoc ℕ
  pub world : W

abbrev positive : Option ℕ → Option ℕ
positive none = none
positive (some n) = if ltb 0 n then some n else none

module _ {W : Type 0} (host : Host W) where
  -- A number in a file, if it is there and positive.
  abbrev pub number_in : Option Text → Option ℕ
  number_in none = none
  number_in (some s) = positive (host.atoi s)

  pub read_pid : Text → W → Option ℕ
  read_pid user_id w = number_in (host.read (pid_file user_id) w)

  pub alive : Text → W → Bool
  unfolding read_pid
  alive user_id w = elim (read_pid user_id w) [ none ↦ false | some pid ↦ host.running pid w ]

  -- `portFor`, where no port is known.
  unfoldable pub new_port : Text → W → Outcome ℕ × W
  new_port user_id w =
      let (r, w1) = host.free_port w in
      elim r [
        | err e ↦ (err e, w1)
        | ok port ↦
            let (e, w2) = host.write (port_file user_id) (host.itoa port) w1 in
            elim e [ some x ↦ (err x, w2) | none ↦ (ok port, w2) ]
      ]

  unfoldable pub port_for : Text → W → Outcome ℕ × W
  unfolding new_port
  port_for user_id w = elim (number_in (host.read (port_file user_id) w)) [
    | some port ↦ (ok port, w)
    | none ↦ new_port user_id w
  ]

  -- The file of the process id may fail to be written.
  unfoldable pub spawn : Text → ℕ → Provider W → Option Err × Provider W
  spawn user_id port p =
      let (r, w) =
        host.start (codes "127.0.0.1:" ++ host.itoa port) (host.workspace_dir user_id) p.world in
      elim r [
        | err e ↦ (some e, record p { world = w })
        | ok pid ↦ (
          none,
          record {
            procs = insert user_id pid p.procs;
            world = (host.write (pid_file user_id) (host.itoa pid) w).1;
          },
        )
      ]

  unfoldable pub info_of : Text → ℕ → Info
  info_of user_id port = record {
    user_id = user_id;
    workspace = host.workspace_dir user_id;
    endpoint = codes "http://127.0.0.1:" ++ host.itoa port;
    port = port;
    sandbox_id = [];
  }

  unfoldable pub spawned_info : Text → ℕ → Provider W → Outcome Info × Provider W
  unfolding spawn info_of
  spawned_info user_id port p =
      let (e, p') = spawn user_id port p in
      elim e [ some x ↦ (err x, p') | none ↦ (ok (info_of user_id port), p') ]

  unfoldable pub create_at : Text → Provider W → Outcome Info × Provider W
  unfolding port_for spawned_info
  create_at user_id p =
      let (r, w) = port_for user_id p.world in
      let p' = record p { world = w } in
      elim r [ err e ↦ (err e, p') | ok port ↦ spawned_info user_id port p' ]

  unfoldable pub create : Text → Provider W → Outcome Info × Provider W
  unfolding create_at
  create user_id p =
      let (e, w) = host.make_dir user_id p.world in
      let p' = record p { world = w } in
      elim e [ some x ↦ (err x, p') | none ↦ create_at user_id p' ]

  pub start : Text → Provider W → Outcome Info × Provider W
  unfolding port_for alive spawned_info
  start user_id p =
      let (r, w) = port_for user_id p.world in
      let p' = record p { world = w } in
      elim r [
        | err e ↦ (err e, p')
        | ok port ↦ elim (alive user_id w) [
          | true ↦ (ok (info_of user_id port), p')
          | false ↦ spawned_info user_id port p'
        ]
      ]

  -- The loop of `Stop`, of so many rounds.
  pub wait_gone : ℕ → Text → W → W
  unfolding alive
  wait_gone zero user_id w = w
  wait_gone (suc n) user_id w =
      let rest = wait_gone n user_id (host.nap w) in if alive user_id w then rest else w

  -- `Stop` of a process that is not a child.
  pub stop_stranger : Text → W → W
  unfolding read_pid wait_gone
  stop_stranger user_id w = elim (read_pid user_id w) [
    | none ↦ w
    | some pid ↦
        let w' = wait_gone 20 user_id (host.terminate pid w) in
        if alive user_id w' then host.kill pid w' else w'
  ]

  pub stop : Text → Provider W → Provider W
  unfolding stop_stranger
  stop user_id p =
      let w : W = elim (lookup user_id p.procs) [
        | some pid ↦ host.end_child pid p.world
        | none ↦ stop_stranger user_id p.world
      ] in
      record { procs = delete user_id p.procs; world = host.remove (pid_file user_id) w }

  -- `Delete`, with the setting that keeps workspaces.
  pub delete_workspace : Bool → Text → Provider W → Option Err × Provider W
  unfolding stop
  delete_workspace keep user_id p =
      let p' = stop user_id p in
      elim keep [
        | true ↦ (none, p')
        | false ↦
            let (e, w) = host.remove_workspace user_id p'.world in (e, record p' { world = w })
      ]
