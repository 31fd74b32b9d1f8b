-- ===== src/Examples/Files.antt =====
-- A file system in memory, and the files of a process in it.
use cloudeagent.Prelude.{
  ◌≡◌, refl, none, if◌then◌else◌, [], ◌∷◌, ◌++◌, Text, codes, text_eq_iff, Assoc, lookup, insert,
  lookup-insert, arith,
}
use cloudeagent.Types.{ok}
use cloudeagent.Engine.Config.{EngineConfig, default_config}
use cloudeagent.Engine.Json.{Json}
use cloudeagent.Engine.Files.{DiskOps, start_env, spawn_config}
use cloudeagent.Engine.Files.Secrets.{DiskLaws, is_within}

abbrev removed : Text → Assoc Json → Assoc Json
removed dir [] = []
removed dir ((path, v) ∷ m) =
    let rest = removed dir m in if is_within dir path then rest else (path, v) ∷ rest

lookup-removed :
    (dir path : Text) (m : Assoc Json)
    → lookup path (removed dir m) ≡ (if is_within dir path then none else lookup path m)
unfolding lookup
lookup-removed dir path [] = ground arith
lookup-removed dir path ((k, v) ∷ m) = ground (arith, text_eq_iff k path, lookup-removed dir path m)

abbrev disk : DiskOps (Assoc Json)
disk = record {
  make_dir = λ dir m. (none, m);
  make_temp = λ m. (ok (codes "/tmp/cfg"), m);
  write_file = λ path v m. (none, insert path v m);
  remove_all = removed;
}

abbrev disk-DiskLaws : DiskLaws disk
disk-DiskLaws = record {
  read = lookup;
  make_dir = λ dir path m. refl;
  write_file = λ path other v m h. lookup-insert path other v m;
  remove_all = lookup-removed;
}

abbrev config : EngineConfig
config = record default_config { base_url = codes "https://m/"; api_key = codes "sk-1" }

spawned :
    (spawn_config disk ([] ++ start_env config) []).0
    ≡ ok (codes "/tmp/cfg", codes "/tmp/cfg" ++ codes ".secret")
unfolding spawn_config start_env
spawned = refl
