-- ===== src/Db/Cache.antt =====
-- cloud-backend/pkg/db/cache.go: the model configurations that the control plane keeps in memory.
use cloudeagent.Prelude.{
  ℕ, ◌+◌, none, some, Text, Assoc, [], lookup, insert, delete, ltb, leb, if◌then◌else◌,
}
use cloudeagent.Types.{not_cached, cache_expired, Outcome, ok, err, ModelConfig}

pub record CacheEntry : Type 0 where
  pub cfg : ModelConfig
  pub expire_at : ℕ

pub record MemoryCache : Type 0 where
  pub ttl : ℕ
  pub entries : Assoc CacheEntry

abbrev pub new_memory_cache : ℕ → MemoryCache
new_memory_cache ttl = record { ttl = ttl; entries = [] }

-- 0 stands for every `ttl` that is not positive.
unfoldable pub set : ℕ → Text → ModelConfig → ℕ → MemoryCache → MemoryCache
set now user_id cfg ttl c =
    let life = if leb ttl 0 then c.ttl else ttl in
    record c { entries = insert user_id (record { cfg = cfg; expire_at = now + life }) c.entries }

unfoldable pub get : ℕ → Text → MemoryCache → Outcome ModelConfig
get now user_id c = elim (lookup user_id c.entries) [
  | none ↦ err not_cached
  | some entry ↦ if ltb entry.expire_at now then err cache_expired else ok entry.cfg
]

unfoldable pub remove : Text → MemoryCache → MemoryCache
remove user_id c = record c { entries = delete user_id c.entries }
