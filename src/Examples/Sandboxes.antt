-- ===== src/Examples/Sandboxes.antt =====
-- The E2B provider over an SDK that always answers, and the checks that sandboxes pass.
use cloudeagent.Prelude.{
  ℕ, suc, ◌+◌, ◌≡◌, ◌≢◌, refl, none, [], ◌∷◌, codes, lookup, text_eq, length, All, arith, ◌≤◌,
}
use cloudeagent.Types.{ok}
use cloudeagent.Sandbox.Health.{
  starts_with, verdict, check_health, wait_health, contains, poll_pause,
}
use cloudeagent.Sandbox.Polling.{Verdict, rounds, poll, poll_loop}
use cloudeagent.Sandbox.Polling.Laws.{ClockLaws, poll_ends}
use cloudeagent.Sandbox.UserId.{
  matches_user_id, is_alnum, is_id_byte, all_id_bytes, validate_user_id, validate_user_id_safe,
  IsPlain, first_byte,
}
use cloudeagent.Sandbox.E2b.{
  Config, Sdk, Provider, create, delete_sandbox, kill_known, ready_info, wait_ready, check_info,
  endpoint, trim_slashes,
}
use cloudeagent.Sandbox.{Info}
use cloudeagent.Examples.Setup.{alice, ticking, probes}

abbrev pub config : Config
config = record {
  api_url = codes "http://api";
  sandbox_base_url = codes "http://gw/";
  api_key = codes "key";
  scheme = codes "http";
  template = codes "agent-pool";
  timeout_sec = 1800;
  agent_port = 8088;
  wait_ready = 60_000_000_000;
}

abbrev pub sdk : Sdk ℕ
sdk = record {
  clock = ticking;
  create_sandbox = λ template u w. (ok (codes "sbx-2"), suc w);
  connect = λ id w. (ok id, suc w);
  pause_sandbox = λ id w. (none, suc w);
  kill = λ id w. (none, suc w);
  get_info = λ id w. (none, suc w);
  itoa = λ n. codes "8088";
}

abbrev known : Provider ℕ
known = record { sbxs = (alice, codes "sbx-1") ∷ []; world = 5 }

delete-known : (delete_sandbox config sdk alice known).0 ≡ none
unfolding delete_sandbox lookup text_eq kill_known
delete-known = refl

abbrev ready : Info
ready = record {
  user_id = alice;
  workspace = codes "users/alice";
  endpoint = codes "http://gw/sandboxes/sbx-2/port/8088";
  port = 8088;
  sandbox_id = codes "sbx-2";
}

create-known : (create config sdk alice known).0 ≡ ok ready
unfolding create ready_info wait_ready check_info endpoint trim_slashes poll poll_loop
create-known = refl

check_alice : ℕ → Verdict × ℕ
check_alice = check_health probes (codes "http://10.0.0.7:8088/health")

ticking-ClockLaws : ClockLaws ticking check_alice
unfolding check_alice check_health
ticking-ClockLaws = record { check_later = λ w. omega arith; pause_later = λ d w h. omega arith }

poll_ends_example :
    (poll_loop ticking check_alice poll_pause
      (rounds poll_pause 60_000_000_000)
      (1000 + 60_000_000_000)
      1000).0
    ≢ none
poll_ends_example =
    poll_ends ticking check_alice poll_pause ticking-ClockLaws (omega arith) 60_000_000_000 1000

wait-ready : (wait_health probes (codes "http://h") 60_000_000_000 1000).0 ≡ none
unfolding wait_health contains starts_with check_health verdict poll poll_loop
wait-ready = refl

alice-valid : validate_user_id alice ≡ none
unfolding validate_user_id matches_user_id is_alnum is_id_byte all_id_bytes
alice-valid = refl

validate_user_id_safe_example :
    (1 ≤ length alice)
    × (length alice ≤ 63)
    × All IsPlain alice
    × (first_byte alice ≢ b'.')
    × (first_byte alice ≢ b'-')
validate_user_id_safe_example = validate_user_id_safe alice alice-valid
