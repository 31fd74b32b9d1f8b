-- ===== src/Examples/Servers.antt =====
-- The restart of the control plane, its reaper, its counts of sessions and its tokens.
use cloudeagent.Prelude.{
  ℕ, ◌≡◌, refl, true, none, some, List, [], ◌∷◌, ◌++◌, Text, codes, lookup, text_eq, text_eq_self,
  text_eq_iff, arith,
}
use cloudeagent.Types.{Instance, running, suspended, ok, err, unknown_sandbox}
use cloudeagent.Db.Store.{Activity}
use cloudeagent.Db.Memory.{Memory, new_memory, memory_ops, get_instance, update_instance}
use cloudeagent.Db.Memory.Laws.{memory_laws}
use cloudeagent.Db.Cache
use cloudeagent.Manager.Seats
use cloudeagent.Sandbox.Health.{wait_health, check_health, contains}
use cloudeagent.Sandbox.Polling.{poll, poll_loop}
use cloudeagent.Manager.{
  wake, wake_locked, wake_sandbox, wake_started, wake_configured, wake_record, resolve_config,
  register_gateway, set_config_via_gateway,
}
use cloudeagent.Manager.Result.{phase}
use cloudeagent.Manager.Waking.{KeyedAt}
use cloudeagent.Manager.World.{State}
use cloudeagent.Manager.Lifecycle.{run, IsKeyed, HasNoSandbox}
use cloudeagent.Manager.MemoryActivity.{in_memory}
use cloudeagent.Reaper.{reap_one}
use cloudeagent.Reaper.Sparing.{reap_after_wake}
use cloudeagent.Restart.{seed_mapping, fresh_provider, restart_forgets}
use cloudeagent.Sandbox.E2b
use cloudeagent.Server.Connections.{
  Delta, begins, ends, Server, count_or_zero, run_sessions, open_sessions,
}
use cloudeagent.Server.Connections.Agreement.{recorded, run_sessions_count}
use cloudeagent.Server.Auth.{is_admin_token, Authenticator, authorize_admin}
use cloudeagent.Api.Bearer.{bearer_token, trim_space, trim_prefix, strip, drop_blanks}
use cloudeagent.Examples.Setup.{alice, bob, env, start}
use cloudeagent.Examples.Sandboxes.{config, sdk}

abbrev instance_of_alice : Instance
instance_of_alice = record {
  user_id = alice;
  instance_name = codes "agent-alice";
  status = running;
  workspace = codes "users/alice";
  endpoint = codes "http://10.0.0.7:8088";
  port = 8088;
  sandbox_id = [];
  error = none;
  last_active_at = 0;
  ws_connections = 0;
  created_at = 0;
  updated_at = 0;
}

-- The store holds the instance of `alice`, and nothing else happens to it before the restart.
abbrev pub peopled : State Memory ℕ
peopled = record start { store = record new_memory { instances = (alice, instance_of_alice) ∷ [] } }

peopled-IsKeyed : IsKeyed memory_ops peopled.store
unfolding get_instance lookup
peopled-IsKeyed v i e = ground (arith, text_eq_iff alice v)

peopled-HasNoSandbox : HasNoSandbox memory_ops peopled.store
unfolding get_instance lookup
peopled-HasNoSandbox v = ground arith

peopled-read : memory_ops.get_instance alice peopled.store ≡ ok instance_of_alice
unfolding get_instance lookup
peopled-read = rw (text_eq_self alice) refl

restart_forgets_example :
    E2b.start config sdk alice (E2b.seed (seed_mapping (instance_of_alice ∷ [])) (fresh_provider 0))
    ≡ (err unknown_sandbox, fresh_provider 0)
unfolding run
restart_forgets_example =
    restart_forgets env memory_laws [] peopled (instance_of_alice ∷ []) config sdk alice 0
      peopled-IsKeyed peopled-HasNoSandbox (peopled-read, tt)

abbrev long_ago : Activity
long_ago = record { user_id = alice; last_active_at = 10; ws_connections = 0 }

-- The instance of `alice` is asleep.
abbrev quiet : State Memory ℕ
quiet = record start {
  store = record new_memory {
    instances = (alice, record instance_of_alice { status = suspended }) ∷ [];
    activity = (alice, long_ago) ∷ [];
  };
}

quiet-KeyedAt : KeyedAt (in_memory env) memory_laws alice quiet
unfolding get_instance lookup text_eq
quiet-KeyedAt i e = cc

quiet-lookup : lookup alice quiet.store.activity ≡ some long_ago
unfolding lookup
quiet-lookup = rw (text_eq_self alice) refl

-- What the wake returns.
abbrev awake : Instance
awake = record instance_of_alice {
  workspace = codes "users/alice";
  last_active_at = 1005;
  updated_at = 1005;
}

awake-quiet : (wake (in_memory env) alice quiet).0 ≡ (some awake, none)
unfolding wake wake_locked wake_sandbox wake_started wake_configured wake_record resolve_config
    register_gateway set_config_via_gateway wait_health check_health contains poll poll_loop
    Cache.get Seats.resolve get_instance update_instance lookup text_eq
awake-quiet = refl

reap_after_wake_example :
    let later = record ((wake (in_memory env) alice quiet).1) { world = 2000 } in
    phase (get_instance alice (reap_one (in_memory env) 600 awake later).1.store) ≡ suspended
reap_after_wake_example =
    reap_after_wake env 600 alice awake long_ago quiet 2000 quiet-KeyedAt awake-quiet quiet-lookup
      refl (omega arith) refl

abbrev server : Server Memory ℕ
server = record { ws_manager = []; state = start }

abbrev events : List (Text × Delta)
events = (alice, begins) ∷ (bob, begins) ∷ (alice, begins) ∷ (alice, ends) ∷ []

run_sessions_count_example :
    let after = run_sessions (in_memory env) events server in
    let open_now = open_sessions alice events (count_or_zero (lookup alice [])) in
    (count_or_zero (lookup alice after.ws_manager) ≡ open_now)
    × (recorded (lookup alice after.state.store.activity) ≡ open_now)
unfolding lookup
run_sessions_count_example = run_sessions_count env events server alice (λ v. refl)

one_open : open_sessions alice events (count_or_zero (lookup alice [])) ≡ 1
unfolding open_sessions lookup text_eq
one_open = refl

-- A hash that only marks its text.
abbrev mark : Text → Text
mark s = codes "#" ++ s

abbrev auth : Authenticator
auth = record { namespace = codes "dev"; admin_token = codes "root" }

root_enters : authorize_admin mark auth (codes "Bearer root") ≡ true
unfolding authorize_admin is_admin_token bearer_token trim_space trim_prefix strip drop_blanks
    text_eq
root_enters = refl
