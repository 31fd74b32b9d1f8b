-- ===== src/Sandbox/E2b.antt =====
-- cloud-backend/pkg/sandboxprovider/e2b/provider.go: sandboxes behind the E2B SDK. The SDK and the
-- printing of a number are parameters; a handle on a sandbox is its id.
pub mod Mapping
use cloudeagent.Prelude.{
  ℕ, ◌*◌, true, false, Option, none, some, [], ◌∷◌, ◌++◌, Text, codes, Assoc, lookup, insert,
  delete, length, leb, ◌==◌, if◌then◌else◌,
}
use cloudeagent.Types.{Err, external, unknown_sandbox, Outcome, ok, err}
use cloudeagent.Sandbox.{Info}
use cloudeagent.Sandbox.Polling.{Verdict, healthy, retry, ClockOps, poll}

pub record Config : Type 0 where
  pub api_url : Text
  pub sandbox_base_url : Text
  pub api_key : Text
  pub scheme : Text
  pub template : Text
  pub timeout_sec : ℕ
  pub agent_port : ℕ
  pub wait_ready : ℕ

-- The calls of the SDK.
pub record Sdk (W : Type 0) : Type 0 where
  pub clock : ClockOps W
  pub create_sandbox : Text → Text → W → Outcome Text × W
  pub connect : Text → W → Outcome Text × W
  pub pause_sandbox : Text → W → Option Err × W
  pub kill : Text → W → Option Err × W
  pub get_info : Text → W → Option Err × W
  pub itoa : ℕ → Text

-- The provider's map from users to sandbox ids, beside the world.
pub record Provider (W : Type 0) : Type 0 where
  pub sbxs : Assoc Text
  pub world : W

abbrev pub text_or : Text → Text → Text
text_or s d = if leb (length s) 0 then d else s

abbrev pub number_or : ℕ → ℕ → ℕ
number_or n d = if n == 0 then d else n

-- The two checks and the defaults of `New`.
pub new_config : Config → Outcome Config
new_config cfg =
    if leb (length cfg.api_url) 0
    then err (external 1)
    else if leb (length cfg.api_key) 0
    then err (external 2)
    else ok (record cfg {
      template = text_or cfg.template (codes "agent-pool");
      scheme = text_or cfg.scheme (codes "http");
      agent_port = number_or cfg.agent_port 18585;
      timeout_sec = number_or cfg.timeout_sec 1800;
      wait_ready = number_or cfg.wait_ready 60_000_000_000;
    })

-- `Seed`, over the entries of its map.
unfoldable pub seed : {W : Type 0} → Assoc Text → Provider W → Provider W
seed [] p = p
seed ((uid, sid) ∷ m) p =
    seed m (if leb (length sid) 0 then p else record p { sbxs = insert uid sid p.sbxs })

abbrev keep_before : ℕ → Text → Text
keep_before c [] = if c == b'/' then [] else c ∷ []
keep_before c (d ∷ rest) = c ∷ d ∷ rest

-- `strings.TrimRight(s, "/")`: a slash is kept where something else follows.
unfoldable pub trim_slashes : Text → Text
trim_slashes [] = []
trim_slashes (c ∷ s) = keep_before c (trim_slashes s)

module _ {W : Type 0} (cfg : Config) (sdk : Sdk W) where
  unfoldable pub endpoint : Text → Text
  endpoint id =
      trim_slashes cfg.sandbox_base_url
      ++ (codes "/sandboxes/" ++ (id ++ (codes "/port/" ++ sdk.itoa cfg.agent_port)))

  abbrev info_of : Text → Text → Info
  info_of user_id id = record {
    user_id = user_id;
    workspace = codes "users/" ++ user_id;
    endpoint = endpoint id;
    port = cfg.agent_port;
    sandbox_id = id;
  }

  abbrev answered : Option Err → Verdict
  answered none = healthy
  answered (some e) = retry

  unfoldable pub check_info : Text → W → Verdict × W
  check_info id w = let (r, w') = sdk.get_info id w in (answered r, w')

  -- `waitReady`, with a pause of a second
  unfoldable pub wait_ready : Text → W → Option Err × W
  unfolding check_info
  wait_ready id w = poll sdk.clock (check_info id) 1_000_000_000 cfg.wait_ready w

  -- What `Create` and `Start` do with a handle.
  unfoldable pub ready_info : Text → Text → Provider W → Outcome Info × Provider W
  ready_info user_id id p =
      let (e, w) = wait_ready id p.world in
      let p' : Provider W = record p { world = w } in
      elim e [ some x ↦ (err x, p') | none ↦ (ok (info_of user_id id), p') ]

  unfoldable pub create : Text → Provider W → Outcome Info × Provider W
  unfolding ready_info
  create user_id p =
      let (r, w) = sdk.create_sandbox cfg.template user_id p.world in
      elim r [
        | err e ↦ (err e, record p { world = w })
        | ok id ↦ ready_info user_id id (record { sbxs = insert user_id id p.sbxs; world = w })
      ]

  pub start : Text → Provider W → Outcome Info × Provider W
  unfolding ready_info
  start user_id p = elim (lookup user_id p.sbxs) [
    | none ↦ (err unknown_sandbox, p)
    | some id ↦
        let (r, w) = sdk.connect id p.world in
        elim r [
          | err e ↦ (err e, record p { world = w })
          | ok id' ↦ ready_info user_id id' (record p { world = w })
        ]
  ]

  pub stop : Text → Provider W → Option Err × Provider W
  stop user_id p = elim (lookup user_id p.sbxs) [
    | none ↦ (none, p)
    | some id ↦
        let (r, w) = sdk.connect id p.world in
        elim r [
          | err e ↦ (some e, record p { world = w })
          | ok id' ↦ let (e, w') = sdk.pause_sandbox id' w in (e, record p { world = w' })
        ]
  ]

  -- `Kill`, and then `forget`
  unfoldable pub kill_known : Text → Text → Provider W → Option Err × Provider W
  kill_known user_id id p =
      let (e, w) = sdk.kill id p.world in
      elim e [
        | some x ↦ (some x, record p { world = w })
        | none ↦ (none, record { sbxs = delete user_id p.sbxs; world = w })
      ]

  unfoldable pub delete_sandbox : Text → Provider W → Option Err × Provider W
  unfolding kill_known
  delete_sandbox user_id p = elim (lookup user_id p.sbxs) [
    | none ↦ (none, p)
    | some id ↦
        let (r, w) = sdk.connect id p.world in
        elim r [
          | err e ↦ (none, record { sbxs = delete user_id p.sbxs; world = w })
          | ok id' ↦ kill_known user_id id' (record p { world = w })
        ]
  ]
