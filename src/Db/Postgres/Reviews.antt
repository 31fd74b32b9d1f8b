-- ===== src/Db/Postgres/Reviews.antt =====
-- The reviews of cloud-backend/pkg/db/postgres.go: what is read back, and by whom.
use cloudeagent.Prelude.{
  ℕ, ◌≡◌, refl, ap, ◌∙◌, inl, inr, Bool, true, false, Option, none, some, List, [], Text, text_eq,
  text_eq_iff, text_eq_self, length, leb, arith, if◌then◌else◌, Bool-cases,
}
use cloudeagent.Types.{not_found, Outcome, ok, err, Finding, Review}
use cloudeagent.Db.Tables.{TableLaws, only, count, succeeded}
use cloudeagent.Db.Rows.{Columns, ReviewRow, review_row, set_review, scan_review}
use cloudeagent.Db.Postgres.{
  Postgres, Database, row_found, affected, map_found, create_review, get_review, update_review,
}

abbrev pub review_key : ReviewRow → Text
review_key row = row.review_id

abbrev owned : Text → ReviewRow → Bool
owned u row = text_eq row.user_id u

-- What a user reads of a row.
abbrev read_review : Columns → Text → Option ReviewRow → Outcome Review
read_review columns u row = map_found (scan_review columns) (row_found (ok (only (owned u) row)))

affected-none :
    (tag : Outcome ℕ) (row : Option ReviewRow) (p : ReviewRow → Bool)
    → affected tag ≡ none
    → ((n : ℕ) → tag ≡ ok n → n ≡ count (only p row))
    → (a : ReviewRow) × (row ≡ some a) × (p a ≡ true) × (succeeded tag ≡ true)
affected-none (err e) row p h c = absurd (ground arith)
affected-none (ok n) none p h c = absurd (ground (arith, c n refl))
affected-none (ok n) (some a) p h c = elim (Bool-cases (p a)) [
  | inl e ↦ (a, refl, e, refl)
  | inr e ↦ absurd (ground (arith, c n refl))
]

module _ {I A R V : Type 0} (db : Database I A R V)
    (laws : TableLaws db.review_table text_eq review_key) where
  get_review-find :
      (u id : Text) (p : Postgres I A R V)
      → get_review db u id p ≡ read_review db.columns u (laws.find id p.reviews)
  unfolding get_review
  get_review-find u id p = rw (get_review, laws.select-find id (owned u) p.reviews) refl

  -- What a review is once it was stored.
  abbrev pub kept_review : Review → Review
  kept_review r = record r {
    created_at = db.columns.stamp r.created_at;
    updated_at = db.columns.stamp r.updated_at;
  }

  -- What `UpdateReview` makes of a review.
  abbrev pub after_update : Review → Review → Review
  after_update r old = record old {
    status = r.status;
    findings = r.findings;
    error = r.error;
    updated_at = db.columns.stamp r.updated_at;
  }

  module _ (decodes : (fs : List Finding) → db.columns.decode (db.columns.encode fs) ≡ fs)
      (full : (fs : List Finding) → leb (length (db.columns.encode fs)) 0 ≡ false) where
    decoded :
        (fs : List Finding)
        → (if leb (length (db.columns.encode fs)) 0
            then []
            else db.columns.decode (db.columns.encode fs))
          ≡ fs
    decoded fs = rw (full fs) (decodes fs)

    -- A review that was created is read back by its user, with its times as the columns hold them,
    -- and by no other user; where the encoding of findings is never empty and decodes to them.
    pub get-create_review :
        (r : Review) (u : Text) (p : Postgres I A R V)
        → (create_review db r p).0 ≡ none
        → get_review db u r.id (create_review db r p).1
          ≡ (if text_eq r.user_id u then ok (kept_review r) else err not_found)
    unfolding create_review review_row scan_review
    get-create_review r u p made =
        let row = review_row db.columns r in
        let there : laws.find r.id (create_review db r p).1.reviews ≡ some row =
          laws.find-insert r.id row p.reviews ∙ rw (made, text_eq_self r.id) refl in
        let scanned : scan_review db.columns row ≡ kept_review r =
          ap (λ fs. record (kept_review r) { findings = fs }) (decoded r.findings) in
        rw (get_review-find u r.id (create_review db r p).1, there)
          (elim (Bool-cases (text_eq r.user_id u)) [
            | inl e ↦ rw e (ap ok scanned)
            | inr e ↦ rw e refl
          ])

    read-updated :
        (r : Review) (u : Text) (row : ReviewRow)
        → row.user_id ≡ r.user_id
        → read_review db.columns u (some (set_review db.columns r row)) ≡ (
            if text_eq r.user_id u
            then ok (after_update r (scan_review db.columns row))
            else err not_found)
    unfolding set_review scan_review
    read-updated r u row own =
        let same = ap (λ v. text_eq v u) own in
        elim (Bool-cases (text_eq r.user_id u)) [
          | inl e ↦
              rw (same ∙ e, e)
                (ap
                  (λ fs.
                    ok (record (after_update r (scan_review db.columns row)) { findings = fs }))
                  (decoded r.findings))
          | inr e ↦ rw (same ∙ e, e) refl
        ]

    -- An update of a review that returns no error: its user could read it before, and reads it with
    -- the new status, findings, error and time, and all else as it was; no other user reads it. The
    -- encoding of findings is never empty and decodes to them.
    pub get-update_review :
        (r : Review) (u : Text) (p : Postgres I A R V)
        → (update_review db r p).0 ≡ none
        → (old : Review) × (get_review db r.user_id r.id p ≡ ok old)
          × (get_review db u r.id (update_review db r p).1
              ≡ (if text_eq r.user_id u then ok (after_update r old) else err not_found))
    unfolding update_review set_review scan_review
    get-update_review r u p done =
        let f = set_review db.columns r in
        let tag = (db.review_table.update r.id (owned r.user_id) f p.reviews).0 in
        let (row, there, mine, went) =
          affected-none tag (laws.find r.id p.reviews) (owned r.user_id) done
            (λ n e. laws.update-count r.id (owned r.user_id) f n p.reviews e) in
        let now : laws.find r.id (update_review db r p).1.reviews ≡ some (f row) =
          laws.find-update r.id r.id (owned r.user_id) f p.reviews (λ a. refl)
          ∙ rw (went, text_eq_self r.id, there, mine) refl in
        let own : row.user_id ≡ r.user_id = (text_eq_iff row.user_id r.user_id).0 mine in
        (
          scan_review db.columns row,
          get_review-find r.user_id r.id p ∙ rw (there, mine) refl,
          get_review-find u r.id (update_review db r p).1
              ∙ ap (read_review db.columns u) now
              ∙ read-updated r u row own,
        )
