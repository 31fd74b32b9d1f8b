-- ===== src/Engine/Files/Environment.antt =====
-- How a configuration passes through the environment.
use cloudeagent.Prelude.{◌≡◌, refl, List, [], ◌∷◌, ◌++◌, ◌∙◌, Text, codes, text_eq, ap, trim_slash}
use cloudeagent.Engine.Config.{EngineConfig}
use cloudeagent.Engine.Files.{
  start_env, cut, no_config, read_entry, read_entries, env_runtime_config,
}

read_entries-append :
    (xs ys : List Text) (cfg : EngineConfig)
    → read_entries (xs ++ ys) cfg ≡ read_entries ys (read_entries xs cfg)
unfolding read_entries
read_entries-append [] ys cfg = refl
read_entries-append (x ∷ xs) ys cfg = read_entries-append xs ys (read_entry (cut x) cfg)

module _ (v : Text) (cfg : EngineConfig) where
  read_entry-base_url :
      read_entry (cut (codes "OPENAI_BASE_URL=" ++ v)) cfg ≡ record cfg { base_url = v }
  unfolding cut read_entry text_eq
  read_entry-base_url = refl

  read_entry-api_key :
      read_entry (cut (codes "OPENAI_API_KEY=" ++ v)) cfg ≡ record cfg { api_key = v }
  unfolding cut read_entry text_eq
  read_entry-api_key = refl

  read_entry-model : read_entry (cut (codes "OPENAI_MODEL=" ++ v)) cfg ≡ record cfg { model = v }
  unfolding cut read_entry text_eq
  read_entry-model = refl

read_entry-other : (cfg : EngineConfig) → read_entry (cut (codes "PYTHONUNBUFFERED=1")) cfg ≡ cfg
unfolding cut read_entry text_eq
read_entry-other cfg = refl

-- The last entries count, whatever stood before them.
read_entries-start :
    (cfg c : EngineConfig)
    → read_entries (start_env c) cfg
      ≡ record cfg { base_url = trim_slash c.base_url; api_key = c.api_key; model = c.model }
unfolding read_entries start_env
read_entries-start cfg c =
    let c1 = record cfg { base_url = trim_slash c.base_url } in
    let c2 = record c1 { api_key = c.api_key } in
    let c3 = record c2 { model = c.model } in
    rw
      (
        read_entry-base_url (trim_slash c.base_url) cfg,
        read_entry-api_key c.api_key c1,
        read_entry-model c.model c2,
        read_entry-other c3,
      )
      refl

-- Whatever the environment of the runtime holds: the process gets the base URL, without a slash at
-- its end, the key and the model of the configuration that the client starts it with.
pub env_runtime_config_round :
    (environ : List Text) (cfg : EngineConfig)
    → let read = env_runtime_config (environ ++ start_env cfg) in
      (read.base_url ≡ trim_slash cfg.base_url)
      × (read.api_key ≡ cfg.api_key)
      × (read.model ≡ cfg.model)
unfolding env_runtime_config
env_runtime_config_round environ cfg =
    let e =
      read_entries-append environ (start_env cfg) no_config
      ∙ read_entries-start (read_entries environ no_config) cfg in
    (
      ap (λ (c : EngineConfig). c.base_url) e,
      ap (λ (c : EngineConfig). c.api_key) e,
      ap (λ (c : EngineConfig). c.model) e,
    )
