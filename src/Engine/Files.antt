-- ===== src/Engine/Files.antt =====
-- The files of a `qwenpaw acp` process, of cloud-backend/pkg/agentengine/qwenpaw/acp.go: the
-- environment that `start` makes, how `spawnACPProcess` reads it back, the files that it writes, and
-- the directory that `killLocked` removes. The file system is an operation of the world; a file is
-- the value whose JSON it holds, and a path is joined as `filepath.Join` does it below a directory
-- whose path is clean.
pub mod Environment
pub mod Secrets
use cloudeagent.Prelude.{
  ℕ, Bool, true, false, ◌||◌, Option, none, some, List, [], ◌∷◌, ◌++◌, Text, codes, text_eq, ◌==◌,
  length, leb, trim_slash, if◌then◌else◌,
}
use cloudeagent.Types.{Outcome, ok, err, Err}
use cloudeagent.Sandbox.Health.{starts_with}
use cloudeagent.Engine.Config.{EngineConfig}
use cloudeagent.Engine.Json.{Json, flag, str, arr, obj, Items, nil, cons, Fields, no_fields, field}

pub record DiskOps (W : Type 0) : Type 0 where
  pub make_dir : Text → W → Option Err × W
  pub make_temp : W → Outcome Text × W
  pub write_file : Text → Json → W → Option Err × W
  pub remove_all : Text → W → W

-- What `start` appends to the environment.
unfoldable pub start_env : EngineConfig → List Text
start_env cfg =
    (codes "OPENAI_BASE_URL=" ++ trim_slash cfg.base_url)
    ∷ (codes "OPENAI_API_KEY=" ++ cfg.api_key)
    ∷ (codes "OPENAI_MODEL=" ++ cfg.model)
    ∷ codes "PYTHONUNBUFFERED=1"
    ∷ []

abbrev before : ℕ → Option (Text × Text) → Option (Text × Text)
before c none = none
before c (some (k, v)) = some (c ∷ k, v)

-- `strings.Cut(kv, "=")`
pub cut : Text → Option (Text × Text)
cut [] = none
cut (c ∷ s) = let rest = cut s in if c == b'=' then some ([], s) else before c rest

abbrev pub no_config : EngineConfig
no_config = record {
  base_url = [];
  api_key = [];
  model = [];
  models = [];
  provider = [];
  tool_guard_mode = [];
}

-- One round of the loop of `envRuntimeConfig`.
pub read_entry : Option (Text × Text) → EngineConfig → EngineConfig
read_entry none cfg = cfg
read_entry (some (k, v)) cfg =
    if text_eq k (codes "OPENAI_BASE_URL")
    then record cfg { base_url = v }
    else if text_eq k (codes "OPENAI_API_KEY")
    then record cfg { api_key = v }
    else if text_eq k (codes "OPENAI_MODEL")
    then record cfg { model = v }
    else cfg

pub read_entries : List Text → EngineConfig → EngineConfig
unfolding cut read_entry
read_entries [] cfg = cfg
read_entries (kv ∷ env) cfg = read_entries env (read_entry (cut kv) cfg)

pub env_runtime_config : List Text → EngineConfig
unfolding read_entries
env_runtime_config env = read_entries env no_config

-- The value after a prefix, empty where the entry has none.
pub value_of : Text → Text → Text
value_of [] s = s
value_of (c ∷ p) [] = []
value_of (c ∷ p) (d ∷ s) = if c == d then value_of p s else []

pub qwenpaw_secret_dir : List Text → Text → Text
unfolding value_of
qwenpaw_secret_dir [] cfg_dir = cfg_dir ++ codes ".secret"
qwenpaw_secret_dir (kv ∷ env) cfg_dir =
    let rest = qwenpaw_secret_dir env cfg_dir in
    let dir = value_of (codes "QWENPAW_SECRET_DIR=") kv in if leb (length dir) 0 then rest else dir

abbrev pub provider_id : Text
provider_id = codes "runtime-openai"

abbrev pub agent_dir : Text → Text
agent_dir cfg_dir = cfg_dir ++ codes "/workspaces/default"

abbrev pub providers_dir : Text → Text
providers_dir secret_dir = secret_dir ++ codes "/providers/custom"

abbrev pub config_file : Text → Text
config_file cfg_dir = cfg_dir ++ codes "/config.json"

abbrev pub agent_file : Text → Text
agent_file cfg_dir = cfg_dir ++ codes "/workspaces/default/agent.json"

abbrev pub provider_file : Text → Text
provider_file secret_dir = secret_dir ++ codes "/providers/custom/runtime-openai.json"

abbrev pub active_model_file : Text → Text
active_model_file secret_dir = secret_dir ++ codes "/providers/active_model.json"

abbrev pub config_json : Text → Json
config_json cfg_dir = obj (
    field (codes "agents")
      (obj (
        field (codes "active_agent") (str (codes "default")) (
          field (codes "profiles")
            (obj (
              field (codes "default")
                (obj (
                  field (codes "id") (str (codes "default")) (
                    field (codes "workspace_dir") (str (agent_dir cfg_dir))
                      (field (codes "enabled") (flag true) no_fields))))
                no_fields))
            no_fields)))
      no_fields)

abbrev pub model_json : Text → Json
model_json model =
    obj
      (field (codes "provider_id") (str provider_id) (field (codes "model") (str model) no_fields))

abbrev pub agent_json : Text → Json
agent_json model = obj (
    field (codes "id") (str (codes "default")) (
      field (codes "name") (str (codes "default"))
        (field (codes "active_model") (model_json model) no_fields)))

abbrev pub models_json : Text → Json
models_json model =
    arr
      (cons (obj (field (codes "id") (str model) (field (codes "name") (str model) no_fields))) nil)

abbrev pub provider_json : EngineConfig → Json
provider_json cfg = obj (
    field (codes "id") (str provider_id) (
      field (codes "name") (str (codes "ACP Runtime OpenAI")) (
        field (codes "base_url") (str cfg.base_url) (
          field (codes "api_key") (str cfg.api_key) (
            field (codes "chat_model") (str (codes "OpenAIChatModel")) (
              field (codes "models") (models_json cfg.model) (
                field (codes "extra_models") (arr nil) (
                  field (codes "is_custom") (flag true) (
                    field (codes "support_connection_check") (flag false)
                      (field (codes "support_model_discovery") (flag false) no_fields))))))))))

module _ {W : Type 0} (disk : DiskOps W) where
  -- `if err := …; err != nil { return err }`, and then the rest.
  abbrev pub and_then : Option Err × W → (W → Option Err × W) → Option Err × W
  and_then (some e, w) next = (some e, w)
  and_then (none, w) next = next w

  -- `qwenpawConfigDir`
  pub qwenpaw_config_dir : List Text → W → Outcome Text × W
  unfolding value_of
  qwenpaw_config_dir [] w = disk.make_temp w
  qwenpaw_config_dir (kv ∷ env) w =
      let rest = qwenpaw_config_dir env w in
      let dir = value_of (codes "QWENPAW_CONFIG_DIR=") kv in
      if leb (length dir) 0
      then rest
      else let (e, w') = disk.make_dir dir w in
        elim e [ some x ↦ (err x, w') | none ↦ (ok dir, w') ]

  -- `writeQwenPawConfig`: the directories and the files with no secret, and then the other two.
  pub first_files : Text → Text → EngineConfig → W → Option Err × W
  first_files cfg_dir secret_dir cfg w =
      and_then
        (and_then
          (and_then (disk.make_dir (agent_dir cfg_dir) w)
            (disk.make_dir (providers_dir secret_dir)))
          (disk.write_file (config_file cfg_dir) (config_json cfg_dir)))
        (disk.write_file (agent_file cfg_dir) (agent_json cfg.model))

  abbrev pub last_files : Text → EngineConfig → W → Option Err × W
  last_files secret_dir cfg w =
      and_then (disk.write_file (provider_file secret_dir) (provider_json cfg) w)
        (disk.write_file (active_model_file secret_dir) (model_json cfg.model))

  pub write_qwenpaw_config : Text → Text → EngineConfig → W → Option Err × W
  unfolding first_files
  write_qwenpaw_config cfg_dir secret_dir cfg w =
      and_then (first_files cfg_dir secret_dir cfg w) (last_files secret_dir cfg)

  abbrev pub dirs_or : Text × Text → Option Err × W → Outcome (Text × Text) × W
  dirs_or dirs (some e, w) = (err e, w)
  dirs_or dirs (none, w) = (ok dirs, w)

  pub spawn_in : List Text → Outcome Text × W → Outcome (Text × Text) × W
  unfolding env_runtime_config qwenpaw_secret_dir write_qwenpaw_config
  spawn_in env (err e, w) = (err e, w)
  spawn_in env (ok cfg_dir, w) =
      let secret_dir = qwenpaw_secret_dir env cfg_dir in
      dirs_or (cfg_dir, secret_dir)
        (write_qwenpaw_config cfg_dir secret_dir (env_runtime_config env) w)

  -- What `spawnACPProcess` does before the process: the two directories, or an error.
  unfoldable pub spawn_config : List Text → W → Outcome (Text × Text) × W
  unfolding qwenpaw_config_dir spawn_in
  spawn_config env w = spawn_in env (qwenpaw_config_dir env w)

  -- What `killLocked` does to the files of the process, by the field `cfgDir`.
  pub remove_config : Text → W → W
  remove_config cfg_dir w = if leb (length cfg_dir) 0 then w else disk.remove_all cfg_dir w
