-- ===== src/Reviews/Scanning.antt =====
-- `scanRepo` and `isTextFile` of cloud-backend/pkg/services/reviews.go, and what `run` asks first of
-- the directory. A tree is what `filepath.Walk` meets, in its order and as `Lstat` shows it, while
-- nothing changes it; `strings.TrimSpace` is a parameter.
pub mod Ascent
pub mod Completed
pub mod Found
use cloudeagent.Prelude.{
  ℕ, suc, ◌<◌, Bool, true, false, ◌||◌, Option, none, some, List, [], ◌∷◌, ◌++◌, Text, codes,
  text_eq, ◌==◌, leb, ltb, length, take, if◌then◌else◌,
}
use cloudeagent.Types.{Finding}
use cloudeagent.Reviews.{Scan, not_local, scanned}
use cloudeagent.Reviews.Pattern.{find_submatch}
use cloudeagent.Scanner.{scan_lines}

-- A file has the size of `Lstat` and the bytes that `os.Open` gives to read, if it opens: for a
-- symbolic link these are not of one length, and a link to a directory has no bytes. What cannot be
-- listed, or has no `Lstat`, is unreadable.
mutual
  pub data Node : Type 0 where
    file : Text → ℕ → Option Text → Node
    dir : Text → Nodes → Node
    unreadable : Text → Node

  pub data Nodes : Type 0 where
    nil : Nodes
    cons : Node → Nodes → Nodes

abbrev pub name_of : Node → Text
name_of (file name size content) = name
name_of (dir name children) = name
name_of (unreadable name) = name

abbrev pub is_skipped : Text → Bool
is_skipped name =
    text_eq name (codes ".git")
    || text_eq name (codes "node_modules")
    || text_eq name (codes "vendor")
    || text_eq name (codes "bin")
    || text_eq name (codes "data")

-- `1<<20`
abbrev pub max_size : ℕ
max_size = 1048576

-- The size of the buffer of the scanner, which a line and its newline must fit.
abbrev pub max_line : ℕ
max_line = 65536

-- `filepath.Rel`, of the names below the root
unfoldable pub relative : List Text → Text
relative [] = codes "."
relative (name ∷ []) = name
relative (name ∷ next ∷ names) = name ++ codes "/" ++ relative (next ∷ names)

unfoldable pub has_zero : Text → Bool
has_zero [] = false
has_zero (c ∷ s) = c == 0 || has_zero s

-- `isTextFile`
abbrev pub is_text_file : Text → Bool
is_text_file [] = false
is_text_file (c ∷ s) = if has_zero (take 512 (c ∷ s)) then false else true

module _ (trim_space : Text → Text) where
  abbrev pub line_finding : Text → ℕ → Text × Text → Finding
  line_finding path n (tag, rest) = record {
    file = path;
    line = n;
    level = codes "warning";
    message = tag ++ codes ": " ++ trim_space rest;
  }

  -- The loop over the lines; `n` is `lineNo` before it.
  unfoldable pub find_lines : Text → ℕ → List Text → List Finding
  unfolding find_submatch
  find_lines path n [] = []
  find_lines path n (line ∷ lines) =
      let rest = find_lines path (suc n) lines in
      elim (find_submatch line) [ none ↦ rest | some m ↦ line_finding path (suc n) m ∷ rest ]

  -- The function of the walk at a file.
  unfoldable pub scan_file : List Text → ℕ → Option Text → List Finding
  unfolding find_lines scan_lines relative
  scan_file path size none = []
  scan_file path size (some content) =
      if ltb max_size size
      then []
      else if is_text_file content
      then find_lines (relative path) 0 (scan_lines max_line content)
      else []

  -- The walk: `path` names what lies below the root.
  unfoldable mutual
    unfolding scan_file

    pub scan_node : List Text → Node → List Finding
    scan_node path (file name size content) = scan_file path size content
    scan_node path (dir name children) =
        let found = scan_nodes path children in if is_skipped name then [] else found
    scan_node path (unreadable name) = []

    pub scan_nodes : List Text → Nodes → List Finding
    scan_nodes path nil = []
    scan_nodes path (cons node nodes) =
        scan_node (path ++ name_of node ∷ []) node ++ scan_nodes path nodes

  unfoldable pub scan_repo : Node → List Finding
  unfolding scan_node
  scan_repo root = scan_node [] root

  -- The beginning of `run`: whether `os.Stat` shows a directory, and then the scan, which has no
  -- error, since the function of the walk returns none.
  pub scan_of : Bool → Node → Scan
  unfolding scan_repo
  scan_of false root = not_local
  scan_of true root = scanned (scan_repo root)
