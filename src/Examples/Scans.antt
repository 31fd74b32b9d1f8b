-- ===== src/Examples/Scans.antt =====
-- A scan of a small directory.
use mathlib.Core.List.{Memᴰ}
use cloudeagent.Prelude.{
  ◌≤◌, ◌≡◌, refl, ◌↔◌, true, some, [], ◌∷◌, ◌++◌, Text, codes, text_eq, length,
}
use cloudeagent.Types.{Finding, Review, ok, completed}
use cloudeagent.Db.Memory
use cloudeagent.Db.Memory.{new_memory}
use cloudeagent.Reviews.{memory_reviews, submit, run}
use cloudeagent.Examples.Setup.{alice, mock_config}
use cloudeagent.Reviews.Pattern.{find_submatch}
use cloudeagent.Scanner.{scan_lines, raw_lines, tokens, drop_return}
use cloudeagent.Reviews.Scanning.{
  Node, file, dir, nil, cons, max_line, scan_file, scan_of, scan_repo, scan_of, find_lines,
  relative, has_zero, scan_node,
}
use cloudeagent.Reviews.Scanning.Found.{Reported}
use cloudeagent.Reviews.Scanning.Completed.{review_reports}
use cloudeagent.Reviews.Scanning.Ascent.{Ascending, scan_file-Ascending}

find_todo : find_submatch (codes "x = 1 // ToDo:  tidy") ≡ some (codes "TODO", codes "tidy")
unfolding find_submatch
find_todo = refl

-- No word ends after `hack` or before `_`.
find_whole : find_submatch (codes "hacker XXX_ xxx") ≡ some (codes "XXX", [])
unfolding find_submatch
find_whole = refl

abbrev source : Text
source = codes "a" ++ 13 ∷ 10 ∷ codes "// fixme: b " ++ 10 ∷ []

abbrev root : Node
root = dir (codes "repo") (
    cons (dir (codes "vendor") (cons (file (codes "v.go") 9 (some (codes "// TODO x"))) nil))
      (cons (dir (codes "pkg") (cons (file (codes "a.go") 15 (some source)) nil)) nil))

abbrev same : Text → Text
same s = s

abbrev found : Finding
found = record {
  file = codes "pkg/a.go";
  line = 2;
  level = codes "warning";
  message = codes "FIXME: b ";
}

scan_root : scan_repo same root ≡ found ∷ []
unfolding scan_repo scan_node scan_file find_lines scan_lines raw_lines tokens drop_return relative
    has_zero find_submatch text_eq
scan_root = refl

review_reports_example :
    let after =
      run memory_reviews alice
        (codes "r1")
        (scan_of same true root)
        []
        2
        3
        (submit memory_reviews
          (codes "r1")
          alice
          (codes "/src/repo")
          7
          (ok mock_config)
          1
          new_memory).1 in
    (r : Review) × (Memory.get_review alice (codes "r1") after ≡ ok r)
    × (r.status ≡ completed)
    × (Memᴰ found r.findings ↔ Reported same found [] root)
review_reports_example =
    review_reports same (codes "r1") alice (codes "/src/repo") 7 (ok mock_config) 1 2 3 []
      new_memory root found

scan_file-Ascending_example :
    Ascending 0
      (length (scan_lines max_line source))
      (scan_file same (codes "a.go" ∷ []) 15 (some source))
    × (length (scan_lines max_line source) ≤ length source)
scan_file-Ascending_example = scan_file-Ascending same (codes "a.go" ∷ []) 15 source
