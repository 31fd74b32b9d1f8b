-- ===== src/Runtime/Daemon/Unlinked.antt =====
-- An instance whose program links no engine, as cmd/runtime/main.go.
use cloudeagent.Prelude.{◌≡◌, refl, ap, ◌∙◌, Option, none, some, Text, arith, lookup}
use cloudeagent.Types.{ok, Err}
use cloudeagent.Engine.Config.{EngineConfig}
use cloudeagent.Runtime.Log.{Disk, message_index, append_log, read_log}
use cloudeagent.Runtime.Daemon.{
  Daemon, Setting, Turn, panicked, crashed, linked, runtime_packages, new_kernel, build_engine,
  new_daemon, health_of, health, set_config, sync_option, log_message, fall_back, chat,
}

module _ {W : Type 0} (setting : Setting W) where
  kernel-none :
      (workspace name : Text) (cfg : EngineConfig) (w : W)
      → setting.registry ≡ linked runtime_packages
      → (build_engine setting name workspace cfg w).0 ≡ none
  unfolding build_engine new_kernel linked lookup
  kernel-none workspace name cfg w h = rw h (ground arith)

  health-none :
      (d : Daemon W) → d.kernel ≡ none → d.disk.read_error ≡ none → health setting d ≡ panicked
  unfolding health message_index read_log health_of
  health-none d h r = rw (r, h) refl

  set_config-none :
      (c : EngineConfig) (d : Daemon W) → d.kernel ≡ none → set_config setting c d ≡ crashed
  unfolding set_config sync_option
  set_config-none c d h = rw h refl

  chat-none :
      (turn : Turn) (d : Daemon W)
      → d.kernel ≡ none
      → d.disk.read_error ≡ none
      → d.disk.write_error ≡ none
      → chat setting turn d ≡ panicked
  unfolding chat log_message append_log message_index read_log fall_back
  chat-none turn d h r w = rw (r, w, h) refl

  pub new_daemon-built :
      (made : Option Err) (workspace name : Text) (cfg : EngineConfig) (disk : Disk) (w : W)
      (d : Daemon W)
      → new_daemon setting made workspace name cfg disk w ≡ ok d
      → (d.kernel ≡ (build_engine setting name workspace cfg w).0)
        × (d.eng_name ≡ (build_engine setting name workspace cfg w).1)
        × (d.disk ≡ disk)
  unfolding new_daemon
  new_daemon-built (some e) workspace name cfg disk w d h = cc
  new_daemon-built none workspace name cfg disk w d h = (cc, cc, cc)

  -- With the engines that the program of an instance links, none, whatever engine is asked for and
  -- whatever the configuration: the daemon starts, but its health page panics, so that nothing finds
  -- the instance healthy; to set a configuration ends the whole process; and a chat panics once its
  -- message is in the log. The log can be read and written.
  pub unlinked_fails :
      (made : Option Err) (workspace name : Text) (cfg : EngineConfig) (disk : Disk) (w : W)
      (d : Daemon W) (c : EngineConfig) (turn : Turn)
      → setting.registry ≡ linked runtime_packages
      → new_daemon setting made workspace name cfg disk w ≡ ok d
      → disk.read_error ≡ none
      → disk.write_error ≡ none
      → (health setting d ≡ panicked)
        × (set_config setting c d ≡ crashed)
        × (chat setting turn d ≡ panicked)
  unlinked_fails made workspace name cfg disk w d c turn links built r wr =
      let b = new_daemon-built made workspace name cfg disk w d built in
      let h : d.kernel ≡ none = b.0 ∙ kernel-none workspace name cfg w links in
      let r' : d.disk.read_error ≡ none = ap (λ (x : Disk). x.read_error) b.2 ∙ r in
      let w' : d.disk.write_error ≡ none = ap (λ (x : Disk). x.write_error) b.2 ∙ wr in
      (health-none d h r', set_config-none c d h, chat-none turn d h r' w')
