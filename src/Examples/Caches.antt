-- ===== src/Examples/Caches.antt =====
-- Redis, as an association list, behind a client that cannot encode a configuration.
use cloudeagent.Prelude.{refl, none, some, [], ◌∷◌, codes, Assoc, lookup, delete, lookup-delete}
use cloudeagent.Types.{external, ModelConfig}
use cloudeagent.Db.Redis
use cloudeagent.Db.Redis.{RedisOps, RedisLaws}
use cloudeagent.Examples.Setup.{mock_config}

abbrev redis : RedisOps (Assoc ModelConfig)
redis = record {
  set = λ key cfg ttl m. (some (external 1), m);
  scan = λ key m. Redis.or_missing (lookup key m);
  del = λ key m. (none, delete key m);
}

abbrev redis-RedisLaws : RedisLaws redis
redis-RedisLaws = record {
  stored = lookup;
  scan = λ key m. refl;
  set_refuses = λ key cfg ttl m. refl;
  set_keeps = λ key other cfg ttl m h. refl;
  del = λ key other m. lookup-delete key other m;
}

-- Another program has left a configuration for `bob`.
abbrev shared : Assoc ModelConfig
shared = (codes "cloude:modelcfg:bob", mock_config) ∷ []
