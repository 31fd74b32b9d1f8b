-- ===== src/Engine/Files/Secrets.antt =====
-- What stays of the files of a process once it is killed.
use cloudeagent.Prelude.{
  ◌≡◌, Bool, ◌||◌, Option, none, some, List, ◌++◌, Text, codes, text_eq, if◌then◌else◌,
}
use cloudeagent.Sandbox.Health.{starts_with}
use cloudeagent.Engine.Json.{Json}
use cloudeagent.Engine.Files.{DiskOps}

-- The directory itself, and what is below it.
abbrev pub is_within : Text → Text → Bool
is_within dir path = text_eq dir path || starts_with (dir ++ codes "/") path

-- What the file system documents, by the value that is read at a path.
pub record DiskLaws {W : Type 0} (disk : DiskOps W) : Type 0 where
  pub read : Text → W → Option Json
  pub make_dir : (dir path : Text) (w : W) → read path (disk.make_dir dir w).1 ≡ read path w
  pub write_file :
      (path other : Text) (v : Json) (w : W)
      → (disk.write_file path v w).0 ≡ none
      → read other (disk.write_file path v w).1
        ≡ (if text_eq path other then some v else read other w)
  pub remove_all :
      (dir path : Text) (w : W)
      → read path (disk.remove_all dir w) ≡ (if is_within dir path then none else read path w)
