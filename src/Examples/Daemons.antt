-- ===== src/Examples/Daemons.antt =====
-- An instance whose program links no engine, and one that links both.
use cloudeagent.Prelude.{
  ℕ, ◌≡◌, refl, true, false, none, some, List, [], ◌∷◌, codes, lookup, insert, text_eq,
}
use cloudeagent.Types.{ok}
use cloudeagent.Engine.Config.{EngineConfig, default_config}
use cloudeagent.Engine.Qwenpaw.{new_engine}
use cloudeagent.Runtime.Daemon.{
  Daemon, Package, qwenpaw_package, mock_package, runtime_packages, linked, Setting, Turn, sets,
  chats, panicked, crashed, returned, build_engine, new_daemon, new_kernel, health, set_config,
  chat, run_calls, qwenpaw_kernel,
}
use cloudeagent.Sandbox.Health.{starts_with}
use cloudeagent.Runtime.Daemon.Unlinked.{unlinked_fails}
use cloudeagent.Runtime.Daemon.Reloading.{is_by_qwenpaw, reload_ignored}
use cloudeagent.Examples.Encoding.{json}
use cloudeagent.Examples.Instances.{disk}
use cloudeagent.Examples.Kernel

abbrev setting : List Package → Setting ℕ
setting packages = record {
  registry = linked packages;
  host = Kernel.host true;
  probe = record { found = λ bin. true; version = some (codes "2.1"); scan_int = λ s. some 2 };
  json = json;
  is_headline = λ s. false;
  strip = λ s. s;
  no_reply = codes "none";
  now = λ w. w;
}

abbrev turn : Turn
turn = record { key = []; message = codes "hi"; handler = 1; callbacks = true; updates = [] }

abbrev real_config : EngineConfig
real_config = record default_config {
  base_url = codes "https://api.example.com";
  api_key = codes "sk-1";
}

abbrev bare : Daemon ℕ
bare = record {
  cfg = default_config;
  workspace = codes "/w";
  kernel = none;
  eng_name = codes "mock";
  started = 7;
  disk = disk;
  world = 7;
}

bare-built :
    new_daemon (setting runtime_packages) none (codes "/w") (codes "qwenpaw") default_config disk 7
    ≡ ok bare
unfolding new_daemon build_engine new_kernel linked lookup
bare-built = refl

unlinked_fails_example :
    (health (setting runtime_packages) bare ≡ panicked)
    × (set_config (setting runtime_packages) real_config bare ≡ crashed)
    × (chat (setting runtime_packages) turn bare ≡ panicked)
unlinked_fails_example =
    unlinked_fails (setting runtime_packages) none (codes "/w") (codes "qwenpaw") default_config
      disk 7 bare real_config turn refl bare-built refl refl

abbrev full : Setting ℕ
full = setting (qwenpaw_package ∷ mock_package ∷ [])

abbrev waiting : Daemon ℕ
waiting = record bare {
  kernel = some (qwenpaw_kernel (new_engine (codes "qwenpaw") (codes "/w") default_config 7));
  eng_name = codes "qwenpaw";
}

waiting-built :
    new_daemon full none (codes "/w") (codes "qwenpaw") default_config disk 7 ≡ ok waiting
unfolding new_daemon build_engine new_kernel linked lookup insert text_eq
waiting-built = refl

reload_ignored_example :
    (d' : Daemon ℕ) × (run_calls full
        (sets real_config ∷ chats turn ∷ sets real_config ∷ [])
        waiting
      ≡ returned d')
    × (is_by_qwenpaw (chat full turn d') ≡ false)
unfolding starts_with
reload_ignored_example =
    reload_ignored full (codes "/w") default_config disk 7 waiting
      (sets real_config ∷ chats turn ∷ sets real_config ∷ []) turn refl refl waiting-built
