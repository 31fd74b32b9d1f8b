-- ===== src/Reviews/Progress.antt =====
-- How a review comes to its end.
use cloudeagent.Prelude.{
  ℕ, ◌≡◌, refl, some, List, [], Text, text_eq, text_eq_self, text_eq_iff, lookup, lookup-insert,
  arith, if◌then◌else◌,
}
use cloudeagent.Types.{
  Outcome, ok, err, not_found, ModelConfig, Review, ReviewStatus, review_failed, completed,
  in_progress, Finding,
}
use cloudeagent.Db.Memory
use cloudeagent.Db.Memory.{Memory}
use cloudeagent.Reviews.{
  Scan, not_local, scan_failed, scanned, new_review, memory_reviews, submit, set_status, finish,
  run,
}

-- What the end of a scan makes of a review.
abbrev pub ended : Scan → Text → ℕ → Review → Review
ended not_local message now r = record r {
  status = review_failed;
  findings = [];
  error = message;
  updated_at = now;
}
ended (scan_failed e) message now r = record r {
  status = review_failed;
  findings = [];
  error = e;
  updated_at = now;
}
ended (scanned findings) message now r = record r {
  status = completed;
  findings = findings;
  error = [];
  updated_at = now;
}

ended-user : (scan : Scan) (x : Text) (t : ℕ) (r : Review) → (ended scan x t r).user_id ≡ r.user_id
ended-user not_local x t r = refl
ended-user (scan_failed e) x t r = refl
ended-user (scanned fs) x t r = refl

-- The first step of the run leaves no trace in the end.
ended-restart :
    (scan : Scan) (x : Text) (t1 t2 : ℕ) (r : Review)
    → ended scan x t2
        (record r { status = in_progress; findings = []; error = []; updated_at = t1 })
      ≡ ended scan x t2 r
ended-restart not_local x t1 t2 r = refl
ended-restart (scan_failed e) x t1 t2 r = refl
ended-restart (scanned fs) x t1 t2 r = refl

lookup-set_status :
    (u id v : Text) (st : ReviewStatus) (fs : List Finding) (x : Text) (t : ℕ) (m : Memory)
    (r : Review)
    → lookup id m.reviews ≡ some r
    → r.id ≡ id
    → r.user_id ≡ u
    → lookup v (set_status memory_reviews u id st fs x t m).reviews ≡ (
        if text_eq id v
        then some (record r { status = st; findings = fs; error = x; updated_at = t })
        else lookup v m.reviews)
unfolding set_status Memory.get_review Memory.update_review
lookup-set_status u id v st fs x t m r at own user = ground (
  arith,
  text_eq_self u,
  text_eq_iff id v,
  lookup-insert id v (record r { status = st; findings = fs; error = x; updated_at = t }) m.reviews,
)

lookup-finish :
    (u id v : Text) (scan : Scan) (x : Text) (t : ℕ) (m : Memory) (r : Review)
    → lookup id m.reviews ≡ some r
    → r.id ≡ id
    → r.user_id ≡ u
    → lookup v (finish memory_reviews u id scan x t m).reviews
      ≡ (if text_eq id v then some (ended scan x t r) else lookup v m.reviews)
unfolding finish
lookup-finish u id v not_local x t m r at own user =
    lookup-set_status u id v review_failed [] x t m r at own user
lookup-finish u id v (scan_failed e) x t m r at own user =
    lookup-set_status u id v review_failed [] e t m r at own user
lookup-finish u id v (scanned fs) x t m r at own user =
    lookup-set_status u id v completed fs [] t m r at own user

lookup-submit :
    (id u repo : Text) (pr : ℕ) (cfg : Outcome ModelConfig) (now : ℕ) (m : Memory) (v : Text)
    → lookup v (submit memory_reviews id u repo pr cfg now m).1.reviews
      ≡ (if text_eq id v then some (new_review id u repo pr cfg now) else lookup v m.reviews)
unfolding submit Memory.create_review
lookup-submit id u repo pr cfg now m v =
    lookup-insert id v (new_review id u repo pr cfg now) m.reviews

-- Over the store in memory, where no update fails: once the run of a review that was submitted is
-- over, with nothing in between, its user reads it
-- with the end that the scan gives it, failed with a message or completed with the findings, and no
-- other user reads it; every other review reads as before the submission.
pub submit-run :
    (id u repo : Text) (pr : ℕ) (cfg : Outcome ModelConfig) (t0 t1 t2 : ℕ) (scan : Scan)
    (message : Text) (m : Memory) (w v : Text)
    → Memory.get_review w v
        (run memory_reviews u id scan message t1 t2 (submit memory_reviews id u repo pr cfg t0 m).1)
      ≡ (if text_eq id v
          then (if text_eq u w
              then ok (ended scan message t2 (new_review id u repo pr cfg t0))
              else err not_found)
          else Memory.get_review w v m)
unfolding run Memory.get_review
submit-run id u repo pr cfg t0 t1 t2 scan message m w v =
    let r = new_review id u repo pr cfg t0 in
    let m1 = (submit memory_reviews id u repo pr cfg t0 m).1 in
    let at1 : lookup id m1.reviews ≡ some r =
      rw (lookup-submit id u repo pr cfg t0 m id, text_eq_self id) refl in
    let r2 = record r { status = in_progress; findings = []; error = []; updated_at = t1 } in
    let m2 = set_status memory_reviews u id in_progress [] [] t1 m1 in
    let at2 : lookup id m2.reviews ≡ some r2 =
      rw (lookup-set_status u id id in_progress [] [] t1 m1 r at1 refl refl, text_eq_self id)
        refl in
    ground (
      arith,
      lookup-finish u id v scan message t2 m2 r2 at2 refl refl,
      lookup-set_status u id v in_progress [] [] t1 m1 r at1 refl refl,
      lookup-submit id u repo pr cfg t0 m v,
      ended-user scan message t2 r,
      ended-restart scan message t1 t2 r,
    )
