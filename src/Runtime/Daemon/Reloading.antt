-- ===== src/Runtime/Daemon/Reloading.antt =====
-- Whether a configuration that is set reaches the engine of an instance.
use cloudeagent.Prelude.{
  ◌≡◌, refl, ap, ◌∙◌, inl, inr, Bool, true, false, Option, none, some, List, [], ◌∷◌, Text, codes,
  arith, lookup, insert, text_eq, Option-cases,
}
use cloudeagent.Types.{Outcome, ok, err, Outcome-cases}
use cloudeagent.Engine.Config.{EngineConfig, apply, default_config}
use cloudeagent.Engine.Acp.Prompts.{is_mock, sync_config}
use cloudeagent.Engine.Qwenpaw.{Engine, Probe, ready, new_engine}
use cloudeagent.Sandbox.Health.{starts_with}
use cloudeagent.Runtime.Log.{Disk}
use cloudeagent.Runtime.Daemon.{
  Daemon, Kernel, qwenpaw_kernel, mock_kernel, Setting, Turn, Call, sets, chats, Run, returned,
  Spoken, by_qwenpaw, by_mock, linked, qwenpaw_package, mock_package, new_kernel, build_engine,
  new_daemon, set_config, sync_option, sync_kernel, log_message, fall_back, speak, chat,
  session_key, kernel_ready, run_calls,
}
use cloudeagent.Runtime.Daemon.Unlinked.{new_daemon-built}

-- An engine of qwenpaw that was never started, with a configuration for the mock; or the mock.
abbrev pub Mocked : {W : Type 0} → Option (Kernel W) → Text → Type 0
Mocked none name = ⊥
Mocked (some (qwenpaw_kernel e)) name =
    (e.client.acp.proc ≡ none)
    × (is_mock e.client.cfg ≡ true)
    × (text_eq name (codes "mock") ≡ false)
Mocked (some (mock_kernel cfg)) name = Unit

-- An answer of qwenpaw.
abbrev pub is_by_qwenpaw : {A : Type 0} → Run (Outcome Spoken × A) → Bool
is_by_qwenpaw (returned (ok (by_qwenpaw x), a)) = true
is_by_qwenpaw _ = false

ready-mock :
    {W : Type 0} (probe : Probe) (e : Engine W)
    → is_mock e.client.cfg ≡ true
    → ready probe e ≡ false
unfolding ready
ready-mock probe e h = elim (Option-cases probe.version) [
  | inl v ↦ rw v (ground arith)
  | inr (ver, v) ↦ rw (v, h) (ground arith)
]

is_mock-url :
    (url : Text) (current : EngineConfig)
    → is_mock (record current { base_url = url }) ≡ true
    → is_mock (apply (record current { base_url = url }) current) ≡ true
unfolding apply starts_with
is_mock-url [] current h = refl
is_mock-url (c ∷ s) current h = h

is_mock-apply :
    (cfg current : EngineConfig) → is_mock cfg ≡ true → is_mock (apply cfg current) ≡ true
unfolding apply
is_mock-apply cfg current h = is_mock-url cfg.base_url current h

module _ {W : Type 0} (setting : Setting W) where
  sync_option-Mocked :
      (k : Option (Kernel W)) (d : Daemon W)
      → Mocked k d.eng_name
      → (d' : Daemon W) × (sync_option setting k d ≡ returned d') × Mocked d'.kernel d'.eng_name
  unfolding sync_option sync_kernel sync_config
  sync_option-Mocked none d m = elim m [ ]
  sync_option-Mocked (some (qwenpaw_kernel e)) d m =
      let same : sync_config setting.host e.client ≡ e.client = rw (sync_config, m.0) refl in
      (
        record d { kernel = some (qwenpaw_kernel e) },
        ap (λ c. returned (record d { kernel = some (qwenpaw_kernel (record e { client = c })) }))
            same,
        m,
      )
  sync_option-Mocked (some (mock_kernel cfg)) d m = (_, refl, tt)

  new_kernel-mock :
      (workspace : Text) (cfg : EngineConfig) (w : W)
      → setting.registry ≡ linked (qwenpaw_package ∷ mock_package ∷ [])
      → new_kernel setting.registry (codes "mock") workspace cfg w ≡ some (mock_kernel cfg)
  unfolding new_kernel linked insert lookup text_eq
  new_kernel-mock workspace cfg w reg = rw reg refl

  fall_back-Mocked :
      (k : Option (Kernel W)) (d : Daemon W)
      → setting.registry ≡ linked (qwenpaw_package ∷ mock_package ∷ [])
      → d.kernel ≡ k
      → Mocked k d.eng_name
      → (d' : Daemon W) × (c : EngineConfig) × (fall_back setting k d ≡ returned d')
        × (d'.kernel ≡ some (mock_kernel c))
  unfolding fall_back kernel_ready
  fall_back-Mocked none d reg h m = elim m [ ]
  fall_back-Mocked (some (qwenpaw_kernel e)) d reg h m =
      let fallen : Daemon W = record d {
        kernel = new_kernel setting.registry (codes "mock") d.workspace d.cfg d.world;
        eng_name = codes "mock";
      } in
      (
        fallen,
        d.cfg,
        rw (ready-mock setting.probe e m.1, m.2) refl,
        new_kernel-mock d.workspace d.cfg d.world reg,
      )
  fall_back-Mocked (some (mock_kernel cfg)) d reg h m = (d, cfg, refl, h)

  -- A chat ends with an error of the log, or with the answer of the mock, which then stays.
  chat-Mocked :
      (turn : Turn) (d : Daemon W)
      → setting.registry ≡ linked (qwenpaw_package ∷ mock_package ∷ [])
      → Mocked d.kernel d.eng_name
      → (x : Outcome Spoken × Daemon W) × (chat setting turn d ≡ returned x)
        × Mocked (x.1).kernel (x.1).eng_name
        × (is_by_qwenpaw (returned x) ≡ false)
  unfolding chat speak
  chat-Mocked turn d reg m =
      let key = session_key setting turn d in
      let logged = record d { disk = (log_message setting key turn d).1 } in
      elim (Outcome-cases (log_message setting key turn d).0) [
        | inr (e, h) ↦ ((err e, logged), rw (chat, h) refl, m, refl)
        | inl (idx, h) ↦
            let (d', c, fell, mock) = fall_back-Mocked d.kernel logged reg refl m in
            ((ok (by_mock c), d'), rw (chat, h, fell, mock) refl, rw mock tt, refl)
      ]

  run_calls-Mocked :
      (calls : List Call) (d : Daemon W)
      → setting.registry ≡ linked (qwenpaw_package ∷ mock_package ∷ [])
      → Mocked d.kernel d.eng_name
      → (d' : Daemon W) × (run_calls setting calls d ≡ returned d') × Mocked d'.kernel d'.eng_name
  unfolding run_calls set_config
  run_calls-Mocked [] d reg m = (d, refl, m)
  run_calls-Mocked (sets cfg ∷ calls) d reg m =
      let (d1, done, m1) = sync_option-Mocked d.kernel (record d { cfg = apply cfg d.cfg }) m in
      let (d2, rest, m2) = run_calls-Mocked calls d1 reg m1 in (d2, rw (run_calls, done) rest, m2)
  run_calls-Mocked (chats turn ∷ calls) d reg m =
      let (x, done, m1, other) = chat-Mocked turn d reg m in
      let (d2, rest, m2) = run_calls-Mocked calls x.1 reg m1 in (d2, rw (run_calls, done) rest, m2)

  build_engine-Mocked :
      (workspace : Text) (cfg : EngineConfig) (w : W)
      → setting.registry ≡ linked (qwenpaw_package ∷ mock_package ∷ [])
      → is_mock cfg ≡ true
      → let (kernel, name) = build_engine setting (codes "qwenpaw") workspace cfg w in
        Mocked kernel name
  unfolding build_engine new_kernel new_engine linked insert lookup text_eq
  build_engine-Mocked workspace cfg w reg h =
      rw reg (refl, is_mock-apply cfg default_config h, refl)

  -- A daemon with both engines at hand that is to use qwenpaw, and starts with a configuration for
  -- the mock, as one with no file does: after any configurations that are set, with credentials or
  -- without, and any chats, in any order, none of which panics, a chat is not answered by qwenpaw.
  pub reload_ignored :
      (workspace : Text) (cfg : EngineConfig) (disk : Disk) (w : W) (d : Daemon W)
      (calls : List Call) (turn : Turn)
      → setting.registry ≡ linked (qwenpaw_package ∷ mock_package ∷ [])
      → is_mock cfg ≡ true
      → new_daemon setting none workspace (codes "qwenpaw") cfg disk w ≡ ok d
      → (d' : Daemon W) × (run_calls setting calls d ≡ returned d')
        × (is_by_qwenpaw (chat setting turn d') ≡ false)
  reload_ignored workspace cfg disk w d calls turn reg h built =
      let b = new_daemon-built setting none workspace (codes "qwenpaw") cfg disk w d built in
      let m : Mocked d.kernel d.eng_name =
        rw (b.0, b.1) (build_engine-Mocked workspace cfg w reg h) in
      let (d', done, m') = run_calls-Mocked calls d reg m in
      let (x, said, m'', other) = chat-Mocked turn d' reg m' in
      (d', done, ap is_by_qwenpaw said ∙ other)
