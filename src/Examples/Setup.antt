-- ===== src/Examples/Setup.antt =====
-- A world that only tells the time, in which every outside call succeeds, and a control plane in it.
use cloudeagent.Prelude.{ℕ, suc, ◌+◌, ◌*◌, refl, true, none, some, [], ◌++◌, Text, codes, lookup}
use cloudeagent.Types.{ok, ModelConfig, ChatResponse}
use cloudeagent.Db.Cache.{new_memory_cache}
use cloudeagent.Db.Memory.{Memory, memory_ops, new_memory, get_instance}
use cloudeagent.Manager.Seats
use cloudeagent.Manager.World.{Env, State, GatewayOps}
use cloudeagent.Manager.Lifecycle.{IsKeyed, HasNoSandbox}
use cloudeagent.Sandbox.{Info, ProviderOps}
use cloudeagent.Sandbox.Health.{ProbeOps, answered}
use cloudeagent.Sandbox.Polling.{ClockOps}

abbrev pub alice : Text
alice = codes "alice"

abbrev pub bob : Text
bob = codes "bob"

abbrev pub mock_config : ModelConfig
mock_config = record {
  base_url = codes "mock://";
  api_key = codes "sk-123456";
  model = codes "mock-gpt-4o";
  models = [];
  provider = codes "mock";
}

abbrev pub ticking : ClockOps ℕ
ticking = record { now = λ w. w; pause = λ d w. (none, w + d) }

abbrev pub probes : ProbeOps ℕ
probes = record { clock = ticking; get_health = λ url w. (answered 200, suc w) }

abbrev pub info_for : Text → Info
info_for u = record {
  user_id = u;
  workspace = codes "users/" ++ u;
  endpoint = codes "http://10.0.0.7:8088";
  port = 8088;
  sandbox_id = codes "sbx-1";
}

abbrev pub provider : ProviderOps ℕ
provider = record {
  create = λ u w. (ok (info_for u), suc w);
  start = λ u w. (ok (info_for u), suc w);
  stop = λ u w. (none, suc w);
  delete = λ u w. (none, suc w);
}

abbrev hello : ChatResponse
hello = record {
  reply = codes "hello";
  model = codes "mock-gpt-4o";
  provider = codes "mock";
  mock = true;
  message_index = 1;
  session_id = codes "s1";
}

abbrev gateway : GatewayOps ℕ
gateway = record {
  register = λ u endpoint w. (none, suc w);
  unregister = λ u w. (none, suc w);
  chat = λ u session message w. (ok hello, suc w);
  workspace = λ u w. (ok (codes "{}"), suc w);
  history = λ u from session w. (ok (codes "[]"), suc w);
  new_session = λ u w. (ok (codes "s2"), suc w);
  session_info = λ u w. (ok (codes "s1"), suc w);
  health = λ u w. (ok (some (codes "mock")), suc w);
  set_config = λ u cfg w. (none, suc w);
}

abbrev pub env : Env Memory ℕ
env = record {
  store = memory_ops;
  provider = provider;
  gateway = some gateway;
  probes = probes;
  resolve_seat = λ u w. (Seats.resolve Seats.new_mock_seats u, suc w);
}

abbrev pub start : State Memory ℕ
start = record { store = new_memory; cache = new_memory_cache (300 * 1_000_000_000); world = 1000 }

pub start-IsKeyed : IsKeyed memory_ops start.store
unfolding get_instance lookup
start-IsKeyed v i e = cc

pub start-HasNoSandbox : HasNoSandbox memory_ops start.store
unfolding get_instance lookup
start-HasNoSandbox v = refl
