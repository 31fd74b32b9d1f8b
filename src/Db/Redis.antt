-- ===== src/Db/Redis.antt =====
-- `RedisCache` of cloud-backend/pkg/db/cache.go, over the client of Redis, a parameter; a value is
-- the record that the client is given to encode: `ModelConfig` has no `MarshalBinary`, which the client
-- asks of a value that is neither a text nor a number. Connecting and closing are not modelled.
use cloudeagent.Prelude.{
  ℕ, ◌≡◌, false, ◌&&◌, is_none, Option, none, some, List, [], ◌∷◌, ◌++◌, Text, codes, text_eq, leb,
  if◌then◌else◌,
}
use cloudeagent.Types.{Err, not_cached, Outcome, ok, err, ModelConfig}

pub record RedisOps (W : Type 0) : Type 0 where
  pub set : Text → ModelConfig → ℕ → W → Option Err × W
  pub scan : Text → W → Outcome ModelConfig
  pub del : Text → W → Option Err × W

abbrev pub or_missing : Option ModelConfig → Outcome ModelConfig
or_missing none = err not_cached
or_missing (some cfg) = ok cfg

-- What the client documents of a value that it cannot encode, and Redis of keys: `Set` returns an error
-- and stores nothing, and a deletion takes away its own key alone.
pub record RedisLaws {W : Type 0} (redis : RedisOps W) : Type 0 where
  pub stored : Text → W → Option ModelConfig
  pub scan : (key : Text) (w : W) → redis.scan key w ≡ or_missing (stored key w)
  pub set_refuses :
      (key : Text) (cfg : ModelConfig) (ttl : ℕ) (w : W)
      → is_none (redis.set key cfg ttl w).0 ≡ false
  pub set_keeps :
      (key other : Text) (cfg : ModelConfig) (ttl : ℕ) (w : W)
      → is_none (redis.set key cfg ttl w).0 ≡ false
      → stored other (redis.set key cfg ttl w).1 ≡ stored other w
  pub del :
      (key other : Text) (w : W)
      → stored other (redis.del key w).1
        ≡ (if is_none (redis.del key w).0 && text_eq key other then none else stored other w)

pub data CacheCall : Type 0 where
  sets : Text → ModelConfig → ℕ → CacheCall
  removes : Text → CacheCall

abbrev cache_key : Text → Text
cache_key user_id = codes "cloude:modelcfg:" ++ user_id

abbrev pub without_key : ModelConfig → ModelConfig
without_key cfg = record cfg { api_key = [] }

module _ {W : Type 0} (redis : RedisOps W) (default_ttl : ℕ) where
  -- 0 stands for every `ttl` that is not positive.
  unfoldable pub set : Text → ModelConfig → ℕ → W → Option Err × W
  set user_id cfg ttl w =
      redis.set (cache_key user_id) (without_key cfg) (if leb ttl 0 then default_ttl else ttl) w

  unfoldable pub get : Text → W → Outcome ModelConfig
  get user_id w = redis.scan (cache_key user_id) w

  pub remove : Text → W → Option Err × W
  remove user_id w = redis.del (cache_key user_id) w

  -- What the manager does with the cache but read it.
  pub run : List CacheCall → W → W
  unfolding set remove
  run [] w = w
  run (sets u cfg ttl ∷ calls) w = run calls (set u cfg ttl w).1
  run (removes u ∷ calls) w = run calls (remove u w).1
