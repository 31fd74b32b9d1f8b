-- ===== src/Engine/Config.antt =====
-- cloud-backend/pkg/agentengine/config.go: the configuration that can be changed while the engine
-- runs. The lock makes each method one step; Config.Watching has the file that it is polled from.
pub mod Watching
pub mod Persisting
use cloudeagent.Prelude.{
  inl, inr, Option-cases, ◌-◌, ◌<◌, ◌≡◌, ◌≢◌, ◌↔◌, refl, Option, none, some, List, [], ◌∷◌, ◌++◌,
  Text, codes, length, drop, leb, arith, if◌then◌else◌,
}

pub record EngineConfig : Type 0 where
  pub base_url : Text
  pub api_key : Text
  pub model : Text
  pub models : List Text
  pub provider : Text
  pub tool_guard_mode : Text

abbrev pub default_config : EngineConfig
default_config = record {
  base_url = codes "mock://";
  api_key = [];
  model = codes "mock-gpt-4o";
  models = codes "mock-gpt-4o" ∷ [];
  provider = codes "mock";
  tool_guard_mode = [];
}

abbrev list_or : List Text → List Text → List Text
list_or [] d = d
list_or (m ∷ ms) d = m ∷ ms

abbrev text_or : Text → Text → Text
text_or [] d = d
text_or (c ∷ s) d = c ∷ s

-- `Apply` of a new configuration over the current one; it returns what is current from then on.
unfoldable pub apply : EngineConfig → EngineConfig → EngineConfig
apply cfg current = record cfg {
  base_url = text_or cfg.base_url (codes "mock://");
  model = text_or cfg.model current.model;
  models = list_or cfg.models current.models;
}

-- `cp.APIKey[len(cp.APIKey)-4:]` panics for a key of fewer than four bytes: `none`.
mask_key : Text → Option Text
mask_key [] = some []
mask_key (c ∷ k) =
    let key = c ∷ k in
    if leb 4 (length key) then some (codes "sk-****" ++ drop (length key - 4) key) else none

pub masked : EngineConfig → Option EngineConfig
unfolding mask_key
masked cfg = elim (mask_key cfg.api_key) [
  | none ↦ none
  | some k ↦ some (record cfg { api_key = k })
]

-- A configuration in use always has a base URL, and a model and models if the one before had them;
-- of the new one it keeps the key, the provider and the guard mode, and every field that is given.
pub apply_complete :
    (cfg current : EngineConfig)
    → current.model ≢ []
    → current.models ≢ []
    → ((apply cfg current).base_url ≢ [])
      × ((apply cfg current).model ≢ [])
      × ((apply cfg current).models ≢ [])
      × ((apply cfg current).api_key ≡ cfg.api_key)
unfolding apply
apply_complete cfg current hm hs = ground arith

mask_key-none : (k : Text) → (mask_key k ≡ none) ↔ ((0 < length k) × (length k < 4))
unfolding mask_key
mask_key-none [] = (λ e. absurd (ground arith), λ h. absurd (omega arith))
mask_key-none (c ∷ k) = (λ e. ground arith, λ h. ground arith)

masked-some :
    (cfg : EngineConfig) (k : Text)
    → mask_key cfg.api_key ≡ some k
    → masked cfg ≡ some (record cfg { api_key = k })
unfolding masked
masked-some cfg k e = rw (masked, e) refl

-- Masking panics exactly for a key of one to three bytes.
pub masked_panics :
    (cfg : EngineConfig)
    → (masked cfg ≡ none) ↔ ((0 < length cfg.api_key) × (length cfg.api_key < 4))
unfolding masked
masked_panics cfg = elim (Option-cases (mask_key cfg.api_key)) [
  | inl e ↦ (λ h. (mask_key-none cfg.api_key).0 e, λ h. rw (masked, e) refl)
  | inr (k, e) ↦ (
    λ h. absurd (ground (arith, masked-some cfg k e)),
    λ h. rw (masked, (mask_key-none cfg.api_key).1 h) refl,
  )
]
