-- ===== src/Reviews.antt =====
-- cloud-backend/pkg/services/reviews.go over any store, and the store in memory as one; Scanning has
-- the scan of a directory. The random ids and the texts of errors are given. `run` is started as a goroutine: its
-- steps may come after any other calls.
pub mod Pattern
pub mod Progress
pub mod Scanning
use cloudeagent.Prelude.{
  ℕ, Bool, true, false, Option, none, some, List, [], ◌∷◌, ◌++◌, Text, codes, length, leb,
}
use cloudeagent.Types.{
  Err, Outcome, ok, err, ModelConfig, Review, ReviewStatus, pending, in_progress, review_failed,
  completed, Finding,
}
use cloudeagent.Db.Memory
use cloudeagent.Db.Memory.{Memory}

-- What one scan finds: no directory, a scan that fails, or its findings.
pub data Scan : Type 0 where
  not_local : Scan
  scan_failed : Text → Scan
  scanned : List Finding → Scan

-- The fields that `Submit` fills in.
abbrev pub new_review : Text → Text → Text → ℕ → Outcome ModelConfig → ℕ → Review
new_review id user_id repo pr_number cfg now = record {
  id = id;
  user_id = user_id;
  repo = repo;
  pr_number = pr_number;
  status = pending;
  model = elim cfg [ err e ↦ codes "unknown" | ok c ↦ c.model ];
  findings = [];
  error = [];
  created_at = now;
  updated_at = now;
}

-- The methods of the interface `Store` of cloud-backend/pkg/db/store.go for reviews.
pub record ReviewOps (S : Type 0) : Type 0 where
  pub create_review : Review → S → Option Err × S
  pub get_review : Text → Text → S → Outcome Review
  pub list_reviews : Text → S → Outcome (List Review)
  pub update_review : Review → S → Option Err × S

abbrev pub memory_reviews : ReviewOps Memory
memory_reviews = record {
  create_review = Memory.create_review;
  get_review = Memory.get_review;
  list_reviews = Memory.list_reviews;
  update_review = Memory.update_review;
}

module _ {S : Type 0} (store : ReviewOps S) where
  -- `Submit`, before the goroutine; the id and the configuration are given.
  pub submit : Text → Text → Text → ℕ → Outcome ModelConfig → ℕ → S → Outcome Review × S
  submit id user_id repo pr_number cfg now m =
      let r = new_review id user_id repo pr_number cfg now in
      let (e, m') = store.create_review r m in elim e [ some x ↦ (err x, m') | none ↦ (ok r, m') ]

  -- The function `set` of `run`; it does nothing for a review that is gone, and ignores the error of
  -- the update.
  pub set_status : Text → Text → ReviewStatus → List Finding → Text → ℕ → S → S
  set_status user_id id status findings error now m = elim (store.get_review user_id id m) [
    | err e ↦ m
    | ok r ↦
        (store.update_review
          (record r { status = status; findings = findings; error = error; updated_at = now }) m).1
  ]

  -- The last step of `run`, once the directory is scanned.
  pub finish : Text → Text → Scan → Text → ℕ → S → S
  unfolding set_status
  finish user_id id not_local message now m = set_status user_id id review_failed [] message now m
  finish user_id id (scan_failed e) message now m = set_status user_id id review_failed [] e now m
  finish user_id id (scanned findings) message now m =
      set_status user_id id completed findings [] now m

  -- `run`, with nothing in between.
  pub run : Text → Text → Scan → Text → ℕ → ℕ → S → S
  unfolding set_status finish
  run user_id id scan message t1 t2 m =
      finish user_id id scan message t2 (set_status user_id id in_progress [] [] t1 m)
