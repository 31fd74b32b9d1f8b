-- ===== src/Engine/Config/Watching.antt =====
-- The manager of cloud-backend/pkg/agentengine/config.go over its life: the configuration is applied
-- by calls, and by the poll of a file, which may come in any order. A file is known by the time of
-- its change and by what it decodes to, if it can be read.
use cloudeagent.Prelude.{ℕ, ltb, ◌≢◌, Option, none, some, List, [], ◌∷◌, arith, if◌then◌else◌}
use cloudeagent.Engine.Config.{EngineConfig, default_config, apply, apply_complete}

pub record ConfigManager : Type 0 where
  pub cfg : EngineConfig
  pub last_mod : ℕ

abbrev loaded_or_default : Option EngineConfig → EngineConfig
loaded_or_default none = default_config
loaded_or_default (some cfg) = cfg

-- `NewConfigManager`: what the file decodes to, if there is one that can be read, and its time.
unfoldable pub new_manager : Option EngineConfig → ℕ → ConfigManager
new_manager loaded changed = record { cfg = loaded_or_default loaded; last_mod = changed }

-- `Apply`
pub apply_config : EngineConfig → ConfigManager → ConfigManager
apply_config cfg m = record m { cfg = apply cfg m.cfg }

abbrev apply_loaded : Option EngineConfig → ConfigManager → ConfigManager
apply_loaded none m = m
apply_loaded (some cfg) m = apply_config cfg m

-- One tick of `watchFile`; `none` is a file that is not there.
pub poll_file : Option (ℕ × Option EngineConfig) → ConfigManager → ConfigManager
unfolding apply_config
poll_file none m = m
poll_file (some (changed, loaded)) m =
    if ltb m.last_mod changed then apply_loaded loaded (record m { last_mod = changed }) else m

pub data ConfigEvent : Type 0 where
  applies : EngineConfig → ConfigEvent
  polls : Option (ℕ × Option EngineConfig) → ConfigEvent

pub run_events : List ConfigEvent → ConfigManager → ConfigManager
unfolding poll_file apply_config
run_events [] m = m
run_events (applies cfg ∷ events) m = run_events events (apply_config cfg m)
run_events (polls file ∷ events) m = run_events events (poll_file file m)

-- A configuration that names an endpoint and a model.
abbrev pub Complete : EngineConfig → Type 0
Complete cfg = (cfg.base_url ≢ []) × (cfg.model ≢ []) × (cfg.models ≢ [])

apply_config-Complete :
    (cfg : EngineConfig) (m : ConfigManager) → Complete m.cfg → Complete (apply_config cfg m).cfg
unfolding apply_config
apply_config-Complete cfg m h = let (a, b, c, d) = apply_complete cfg m.cfg h.1 h.2 in (a, b, c)

poll_file-Complete :
    (file : Option (ℕ × Option EngineConfig)) (m : ConfigManager)
    → Complete m.cfg
    → Complete (poll_file file m).cfg
unfolding poll_file
poll_file-Complete none m h = h
poll_file-Complete (some (changed, none)) m h = ground (arith, h)
poll_file-Complete (some (changed, some cfg)) m h =
    ground (arith, h, apply_config-Complete cfg (record m { last_mod = changed }) h)

run_events-from :
    (events : List ConfigEvent) (m : ConfigManager)
    → Complete m.cfg
    → Complete (run_events events m).cfg
unfolding run_events
run_events-from [] m h = h
run_events-from (applies cfg ∷ events) m h =
    run_events-from events (apply_config cfg m) (apply_config-Complete cfg m h)
run_events-from (polls file ∷ events) m h =
    run_events-from events (poll_file file m) (poll_file-Complete file m h)

-- From a manager that could read no file at its start: whatever is applied and polled in whatever
-- order, with fields missing or not, the configuration in use has a base URL, a model and a list of
-- models.
pub run_events-Complete :
    (events : List ConfigEvent) (changed : ℕ)
    → Complete (run_events events (new_manager none changed)).cfg
unfolding new_manager
run_events-Complete events changed =
    run_events-from events (new_manager none changed) ((λ e. cc), (λ e. cc), (λ e. cc))
