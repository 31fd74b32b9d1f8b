-- ===== src/Runtime/Daemon.antt =====
-- cloud-backend/pkg/agentruntime/daemon.go with the engine of its session: the registry of
-- cloud-backend/pkg/agentengine/engine.go, which the package of an engine enters where a program
-- links it, `NewSession` and `KernelStatus` of session.go, and how a configuration is set. A call on
-- no engine panics: net/http recovers that in a handler, and nothing does in a goroutine.
pub mod Unlinked
pub mod Reloading
use cloudeagent.Prelude.{
  ℕ, ◌-◌, Bool, true, false, ◌&&◌, not, Option, none, some, List, [], ◌∷◌, ◌++◌, Text, codes,
  text_eq, Assoc, lookup, insert, length, leb, if◌then◌else◌,
}
use cloudeagent.Types.{Err, Outcome, ok, err}
use cloudeagent.Engine.Config.{EngineConfig, apply, default_config}
use cloudeagent.Engine.Acp.{Answer}
use cloudeagent.Engine.Json.{Fields}
use cloudeagent.Engine.Acp.Prompts.{Host, sync_config}
use cloudeagent.Engine.Qwenpaw.{Engine, Probe, new_engine, ready}
use cloudeagent.Engine.Qwenpaw
use cloudeagent.Runtime.Log.{Disk, Entry, Json, message_index, append_log}

-- An engine behind the interface: that of qwenpaw, or the mock with its configuration.
pub data Kernel (W : Type 0) : Type 0 where
  qwenpaw_kernel : Engine W → Kernel W
  mock_kernel : EngineConfig → Kernel W

abbrev pub Factory : Type 0 → Type 0
Factory W = Text → Text → EngineConfig → W → Kernel W

pub data Run (A : Type 0) : Type 0 where
  returned : A → Run A
  panicked crashed : Run A

-- What the functions `init` of the two packages enter.
abbrev pub qwenpaw_factory : {W : Type 0} → Factory W
qwenpaw_factory name workspace cfg w = qwenpaw_kernel (new_engine name workspace cfg w)

abbrev pub mock_factory : {W : Type 0} → Factory W
mock_factory name workspace cfg w = mock_kernel cfg

pub data Package : Type 0 where
  qwenpaw_package mock_package : Package

unfoldable pub linked : {W : Type 0} → List Package → Assoc (Factory W)
linked [] = []
linked (qwenpaw_package ∷ packages) = insert (codes "qwenpaw") qwenpaw_factory (linked packages)
linked (mock_package ∷ packages) = insert (codes "mock") mock_factory (linked packages)

-- The packages that cmd/runtime/main.go links, by what it and its imports name.
abbrev pub runtime_packages : List Package
runtime_packages = []

-- `agentengine.New`
unfoldable pub new_kernel :
    {W : Type 0} → Assoc (Factory W) → Text → Text → EngineConfig → W → Option (Kernel W)
new_kernel registry name workspace cfg w = elim (lookup name registry) [
  | none ↦ none
  | some f ↦ some (f name workspace cfg w)
]

pub record Daemon (W : Type 0) : Type 0 where
  pub cfg : EngineConfig
  pub workspace : Text
  pub kernel : Option (Kernel W)
  pub eng_name : Text
  pub started : ℕ
  pub disk : Disk
  pub world : W

-- The health page, with the name, the readiness and the connection of its part `kernel`.
pub record Health : Type 0 where
  pub workspace : Text
  pub messages : ℕ
  pub model : Text
  pub provider : Text
  pub kernel_name : Text
  pub enabled : Bool
  pub connected : Bool
  pub uptime : ℕ

-- A chat: the key of its session and its message, and what the engine hears meanwhile.
pub record Turn : Type 0 where
  pub key : Text
  pub message : Text
  pub handler : ℕ
  pub callbacks : Bool
  pub updates : List Fields

pub data Call : Type 0 where
  sets : EngineConfig → Call
  chats : Turn → Call

-- Who answers a chat: qwenpaw, or the mock with its configuration.
pub data Spoken : Type 0 where
  by_qwenpaw : Answer Text → Spoken
  by_mock : EngineConfig → Spoken

pub record Setting (W : Type 0) : Type 0 where
  pub registry : Assoc (Factory W)
  pub host : Host W
  pub probe : Probe
  pub json : Json
  pub is_headline : Text → Bool
  pub strip : Text → Text
  pub no_reply : Text
  pub now : W → ℕ

module _ {W : Type 0} (setting : Setting W) where
  -- `buildEngine`
  unfoldable pub build_engine : Text → Text → EngineConfig → W → Option (Kernel W) × Text
  unfolding new_kernel
  build_engine name workspace cfg w =
      let n = if leb (length name) 0 then codes "qwenpaw" else name in
      elim (new_kernel setting.registry n workspace cfg w) [
        | none ↦ (new_kernel setting.registry (codes "mock") workspace cfg w, codes "mock")
        | some k ↦ (some k, n)
      ]

  -- `NewDaemon`, over the configuration of its manager and the log that is there; `made` is the
  -- error of the directory.
  unfoldable pub new_daemon :
      Option Err → Text → Text → EngineConfig → Disk → W → Outcome (Daemon W)
  unfolding build_engine
  new_daemon (some e) workspace name cfg disk w = err e
  new_daemon none workspace name cfg disk w =
      let (kernel, eng_name) = build_engine name workspace cfg w in
      ok (record {
        cfg = cfg;
        workspace = workspace;
        kernel = kernel;
        eng_name = eng_name;
        started = setting.now w;
        disk = disk;
        world = w;
      })

  pub kernel_ready : Kernel W → Bool
  kernel_ready (qwenpaw_kernel e) = ready setting.probe e
  kernel_ready (mock_kernel cfg) = true

  abbrev kernel_connected : Kernel W → Bool
  kernel_connected (qwenpaw_kernel e) = e.client.acp.connected
  kernel_connected (mock_kernel cfg) = true

  pub health_of : ℕ → Option (Kernel W) → Daemon W → Run (Outcome Health)
  unfolding kernel_ready
  health_of messages none d = panicked
  health_of messages (some k) d = returned (
      ok (record {
        workspace = d.workspace;
        messages = messages;
        model = d.cfg.model;
        provider = d.cfg.provider;
        kernel_name = d.eng_name;
        enabled = kernel_ready k;
        connected = kernel_connected k;
        uptime = setting.now d.world - d.started;
      }))

  -- `Health`
  pub health : Daemon W → Run (Outcome Health)
  unfolding health_of
  health d = elim (message_index d.disk) [
    | err e ↦ returned (err e)
    | ok messages ↦ health_of messages d.kernel d
  ]

  -- `SyncConfig` of an engine; that of the mock does nothing.
  pub sync_kernel : Kernel W → Kernel W
  sync_kernel (qwenpaw_kernel e) =
      qwenpaw_kernel (record e { client = sync_config setting.host e.client })
  sync_kernel (mock_kernel cfg) = mock_kernel cfg

  pub sync_option : Option (Kernel W) → Daemon W → Run (Daemon W)
  unfolding sync_kernel
  sync_option none d = crashed
  sync_option (some k) d = returned (record d { kernel = some (sync_kernel k) })

  -- `SetConfig`, and the goroutine that it starts
  pub set_config : EngineConfig → Daemon W → Run (Daemon W)
  unfolding sync_option
  set_config cfg d = sync_option d.kernel (record d { cfg = apply cfg d.cfg })

  -- Only the engine of qwenpaw has the method.
  pub active_session : Option (Kernel W) → Text
  active_session (some (qwenpaw_kernel e)) = e.active_sess
  active_session (some (mock_kernel cfg)) = codes "default"
  active_session none = codes "default"

  -- `sessionKey`
  pub session_key : Turn → Daemon W → Text
  unfolding active_session
  session_key turn d = if leb (length turn.key) 0 then active_session d.kernel else turn.key

  pub log_message : Text → Turn → Daemon W → Outcome ℕ × Disk
  log_message key turn d =
      let entry : Entry = record {
        ts = setting.json.format_time (setting.now d.world);
        role = codes "user";
        content = turn.message;
        model = d.cfg.model;
        index = 0;
        session_id = key;
      } in
      append_log setting.json entry d.disk

  -- An engine that is not ready gives way to the mock.
  pub fall_back : Option (Kernel W) → Daemon W → Run (Daemon W)
  unfolding kernel_ready new_kernel
  fall_back none d = panicked
  fall_back (some k) d =
      if kernel_ready k
      then returned d
      else if text_eq d.eng_name (codes "mock")
      then returned d
      else returned (record d {
        kernel = new_kernel setting.registry (codes "mock") d.workspace d.cfg d.world;
        eng_name = codes "mock";
      })

  pub speak : Text → Turn → Option (Kernel W) → Daemon W → Run (Outcome Spoken × Daemon W)
  speak key turn none d = panicked
  speak key turn (some (mock_kernel cfg)) d = returned (ok (by_mock cfg), d)
  speak key turn (some (qwenpaw_kernel e)) d =
      let (heard, answer, e') =
        Qwenpaw.chat setting.is_headline setting.host setting.strip setting.no_reply turn.callbacks
          key turn.message turn.handler turn.updates e in
      returned (ok (by_qwenpaw answer), record d { kernel = some (qwenpaw_kernel e') })

  abbrev pub and_speak : Text → Turn → Run (Daemon W) → Run (Outcome Spoken × Daemon W)
  and_speak key turn (returned d) = speak key turn d.kernel d
  and_speak key turn panicked = panicked
  and_speak key turn crashed = crashed

  -- `Chat` and `ChatStream` up to the answer of the engine
  pub chat : Turn → Daemon W → Run (Outcome Spoken × Daemon W)
  unfolding session_key log_message fall_back speak
  chat turn d =
      let key = session_key turn d in
      let (r, disk) = log_message key turn d in
      let logged = record d { disk = disk } in
      elim r [
        | err e ↦ returned (err e, logged)
        | ok idx ↦ and_speak key turn (fall_back logged.kernel logged)
      ]

  -- Calls one after the other.
  pub run_calls : List Call → Daemon W → Run (Daemon W)
  unfolding set_config chat
  run_calls [] d = returned d
  run_calls (sets cfg ∷ calls) d = elim (set_config cfg d) [
    | returned d' ↦ run_calls calls d'
    | panicked ↦ panicked
    | crashed ↦ crashed
  ]
  run_calls (chats turn ∷ calls) d = elim (chat turn d) [
    | returned x ↦ run_calls calls x.1
    | panicked ↦ panicked
    | crashed ↦ crashed
  ]
