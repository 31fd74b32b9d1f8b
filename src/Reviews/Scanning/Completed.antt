-- ===== src/Reviews/Scanning/Completed.antt =====
-- A review of a directory, from its submission to its findings.
use mathlib.Core.List.{Memᴰ}
use cloudeagent.Prelude.{ℕ, ◌≡◌, ◌↔◌, refl, true, [], Text, text_eq_self}
use cloudeagent.Types.{Outcome, ok, ModelConfig, Review, completed, Finding}
use cloudeagent.Db.Memory
use cloudeagent.Db.Memory.{Memory}
use cloudeagent.Reviews.{memory_reviews, new_review, submit, run, scanned}
use cloudeagent.Reviews.Progress.{ended, submit-run}
use cloudeagent.Reviews.Scanning.{Node, scan_repo, scan_of}
use cloudeagent.Reviews.Scanning.Found.{Reported, scan_repo-Reported}

-- Over the store in memory, where no update fails: once the run of a review of a directory is over,
-- with nothing in between, its user reads it as completed, and it has a finding exactly if the tree has it: at a line with a tag, with the path of
-- the file below the root, the number of the line, from 1, and the text of the tag, in a file of
-- text of at most 1 MiB below no directory whose name is skipped, the root included.
pub review_reports :
    (trim_space : Text → Text) (id u repo : Text) (pr : ℕ) (cfg : Outcome ModelConfig)
    (t0 t1 t2 : ℕ) (message : Text) (m : Memory) (root : Node) (f : Finding)
    → let after =
        run memory_reviews u id
          (scan_of trim_space true root)
          message
          t1
          t2
          (submit memory_reviews id u repo pr cfg t0 m).1 in
      (r : Review) × (Memory.get_review u id after ≡ ok r)
      × (r.status ≡ completed)
      × (Memᴰ f r.findings ↔ Reported trim_space f [] root)
unfolding scan_of
review_reports trim_space id u repo pr cfg t0 t1 t2 message m root f =
    let scan = scanned (scan_repo trim_space root) in
    let read = submit-run id u repo pr cfg t0 t1 t2 scan message m u id in
    (
      ended scan message t2 (new_review id u repo pr cfg t0),
      rw (text_eq_self id, text_eq_self u) at read,
      refl,
      scan_repo-Reported trim_space root f,
    )
