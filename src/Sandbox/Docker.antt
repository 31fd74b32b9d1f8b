-- ===== src/Sandbox/Docker.antt =====
-- cloud-backend/pkg/sandboxprovider/docker/provider.go: each user's runtime as a container. The
-- Docker command, the test for a name that is taken, and the scanning and printing of a number are
-- parameters.
use cloudeagent.Prelude.{
  ℕ, ◌==◌, Bool, true, false, Option, none, some, List, [], ◌∷◌, ◌++◌, Text, codes, if◌then◌else◌,
}
use cloudeagent.Types.{Err, external, Outcome, ok, err}
use cloudeagent.Sandbox.{Info}

pub record Host (W : Type 0) : Type 0 where
  pub run_docker : List Text → W → Outcome Text × W
  pub is_conflict : Err → Bool
  pub trim_space : Text → Text
  pub scan_int : Text → Option ℕ
  pub itoa : ℕ → Text

pub record Config : Type 0 where
  pub image : Text
  pub remove_volume_on_delete : Bool

abbrev pub container_name : Text → Text
container_name user_id = codes "cloude-agent-" ++ user_id

abbrev pub volume_name : Text → Text
volume_name user_id = codes "cloude-agent-vol-" ++ user_id

abbrev prefix : ℕ → Option (Text × Text) → Option (Text × Text)
prefix c none = none
prefix c (some (before, after)) = some (c ∷ before, after)

-- `strings.Cut(s, ":")`
pub cut : Text → Option (Text × Text)
cut [] = none
cut (c ∷ s) = let rest = cut s in if c == b':' then some ([], s) else prefix c rest

-- An output that does not hold an address, or no number.
abbrev bad_output : Err
bad_output = external 0

module _ {W : Type 0} (host : Host W) where
  pub info_at : Text → Text → Text → Outcome Info
  info_at user_id name port_text = elim (host.scan_int port_text) [
    | none ↦ err bad_output
    | some port ↦ ok (record {
      user_id = user_id;
      workspace = volume_name user_id;
      endpoint = codes "http://" ++ name ++ codes ":" ++ host.itoa port;
      port = port;
      sandbox_id = [];
    })
  ]

  pub info_of_output : Text → Text → Outcome Info
  unfolding cut info_at
  info_of_output user_id out = elim (cut (host.trim_space out)) [
    | none ↦ err bad_output
    | some (name, port_text) ↦ info_at user_id name port_text
  ]

  pub start_info : Text → W → Outcome Info × W
  unfolding info_of_output
  start_info user_id w =
      let (r, w') =
        host.run_docker (codes "port" ∷ container_name user_id ∷ codes "18585" ∷ []) w in
      elim r [ err e ↦ (err e, w') | ok out ↦ (info_of_output user_id out, w') ]

  pub start : Text → W → Outcome Info × W
  unfolding start_info
  start user_id w =
      let (r, w') = host.run_docker (codes "start" ∷ container_name user_id ∷ []) w in
      start_info user_id w'

  abbrev run_args : Config → Text → List Text
  run_args cfg user_id =
      codes "run"
      ∷ codes "-d"
      ∷ codes "--name"
      ∷ container_name user_id
      ∷ codes "-v"
      ∷ (volume_name user_id ++ codes ":/workspace")
      ∷ codes "-e"
      ∷ codes "CLOUDE_WORKSPACE=/workspace"
      ∷ codes "-p"
      ∷ codes "127.0.0.1::18585"
      ∷ codes "--label"
      ∷ codes "managed-by=cloude-agent"
      ∷ cfg.image
      ∷ []

  pub create : Config → Text → W → Outcome Info × W
  unfolding start
  create cfg user_id w =
      let (r, w') = host.run_docker (run_args cfg user_id) w in
      elim r [
        | ok out ↦ start_info user_id w'
        | err e ↦ elim (host.is_conflict e) [ true ↦ start user_id w' | false ↦ (err e, w') ]
      ]

  abbrev error_of : Outcome Text → Option Err
  error_of (ok out) = none
  error_of (err e) = some e

  pub stop : Text → W → Option Err × W
  stop user_id w =
      let (r, w') =
        host.run_docker (codes "stop" ∷ codes "--time" ∷ codes "5" ∷ container_name user_id ∷ [])
          w in
      (error_of r, w')

  pub delete : Config → Text → W → Option Err × W
  delete cfg user_id w =
      let flag = if cfg.remove_volume_on_delete then codes "-v" ∷ [] else [] in
      let (r, w') = host.run_docker (codes "rm" ∷ codes "-f" ∷ container_name user_id ∷ flag) w in
      (error_of r, w')
