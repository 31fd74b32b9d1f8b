-- ===== src/Engine/Config/Persisting.antt =====
-- The file of a configuration, of cloud-backend/pkg/agentengine/config.go: `PersistToFile`,
-- `loadFile`, and how a new manager begins. The file system and JSON are parameters.
use cloudeagent.Prelude.{
  ℕ, ◌≡◌, refl, ap, Option, none, some, Text, length, leb, false, if◌then◌else◌,
}
use cloudeagent.Types.{Err, Outcome, ok, err}
use cloudeagent.Engine.Config.{EngineConfig}
use cloudeagent.Engine.Config.Watching.{ConfigManager, new_manager}

pub record FileOps (W : Type 0) : Type 0 where
  pub read_file : Text → W → Outcome Text
  pub write_file : Text → Text → W → Option Err × W

pub record Coding : Type 0 where
  pub encode : EngineConfig → Text
  pub decode : Text → Option EngineConfig

-- What is documented of both.
pub record FileLaws {W : Type 0} (files : FileOps W) : Type 0 where
  pub read_write :
      (file text : Text) (w : W)
      → (files.write_file file text w).0 ≡ none
      → files.read_file file (files.write_file file text w).1 ≡ ok text

module _ {W : Type 0} (files : FileOps W) (coding : Coding) where
  -- `PersistToFile` of a manager with the file
  unfoldable pub persist_to_file : Text → ConfigManager → W → Option Err × W
  persist_to_file file m w =
      if leb (length file) 0 then (none, w) else files.write_file file (coding.encode m.cfg) w

  abbrev pub decoded : Outcome Text → Option EngineConfig
  decoded (err e) = none
  decoded (ok text) = coding.decode text

  -- `loadFile`, where `none` stands for every error
  pub load_file : Text → W → Option EngineConfig
  load_file file w = decoded (files.read_file file w)

  -- `NewConfigManager` with a file, and its time
  pub restarted : Text → ℕ → W → ConfigManager
  unfolding load_file
  restarted file changed w =
      if leb (length file) 0
      then new_manager none changed
      else new_manager (load_file file w) changed

  -- A configuration that is written to a file with no error is the one that a manager begins with
  -- which is given that file next, where its encoding is decoded to it.
  pub persist_to_file_round :
      (laws : FileLaws files) (file : Text) (m : ConfigManager) (changed : ℕ) (w : W)
      → coding.decode (coding.encode m.cfg) ≡ some m.cfg
      → leb (length file) 0 ≡ false
      → (persist_to_file file m w).0 ≡ none
      → (restarted file changed (persist_to_file file m w).1).cfg ≡ m.cfg
  unfolding persist_to_file restarted load_file new_manager
  persist_to_file_round laws file m changed w inverse named done =
      let text = coding.encode m.cfg in
      let wrote : (files.write_file file text w).0 ≡ none =
        rw⁻¹ (ap (λ b. (if b then (none, w) else files.write_file file text w).0) named) done in
      rw (named, laws.read_write file text w wrote, inverse) refl
