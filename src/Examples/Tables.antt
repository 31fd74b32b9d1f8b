-- ===== src/Examples/Tables.antt =====
-- Tables as lists of rows, for the examples on PostgreSQL.
use cloudeagent.Prelude.{
  ◌≡◌, refl, sym, ap, ◌∙◌, inl, inr, Bool, true, false, ◌&&◌, Option, none, some, List, [], ◌∷◌,
  Text, text_eq, text_eq_iff, is_none, arith, if◌then◌else◌, Option-cases, Bool-cases,
}
use cloudeagent.Types.{Err, external, ok}
use cloudeagent.Db.Tables.{Table, TableLaws, only, upserted, changed, count}

module _ {R : Type 0} (key : R → Text) where
  unfoldable pub row_at : Text → List R → Option R
  row_at k [] = none
  row_at k (r ∷ t) = let rest = row_at k t in if text_eq (key r) k then some r else rest

  pub insert_row : R → List R → Option Err × List R
  insert_row r t = elim (row_at (key r) t) [
    | none ↦ (none, r ∷ t)
    | some old ↦ (some (external 23505), t)
  ]

  pub set_rows : Text → (R → Bool) → (R → R) → List R → List R
  set_rows k p f [] = []
  set_rows k p f (r ∷ t) =
      let rest = set_rows k p f t in (if text_eq (key r) k && p r then f r else r) ∷ rest

  pub remove_rows : Text → List R → List R
  remove_rows k [] = []
  remove_rows k (r ∷ t) = let rest = remove_rows k t in if text_eq (key r) k then rest else r ∷ rest

  pub upsert_row : R → (R → R) → List R → List R
  upsert_row r f t = elim (row_at (key r) t) [
    | none ↦ r ∷ t
    | some old ↦ set_rows (key r) (λ a. true) f t
  ]

  unfoldable pub list_table : Table Text R (List R)
  list_table = record {
    select = λ k p t. ok (only p (row_at k t));
    select_all = λ p less t. ok t;
    insert = insert_row;
    upsert = λ r f t. (none, upsert_row r f t);
    update = λ k p f t. (ok (count (only p (row_at k t))), set_rows k p f t);
    remove = λ k t. (none, remove_rows k t);
  }

  key-row_at : (k : Text) (r : R) (t : List R) → row_at k t ≡ some r → text_eq (key r) k ≡ true
  unfolding row_at
  key-row_at k r [] h = absurd (ground arith)
  key-row_at k r (a ∷ t) h = ground (arith, key-row_at k r t)

  row_at-set_rows :
      (k j : Text) (p : R → Bool) (f : R → R) (t : List R)
      → ((a : R) → key (f a) ≡ key a)
      → row_at k (set_rows j p f t) ≡ (if text_eq j k then changed p f (row_at k t) else row_at k t)
  unfolding row_at set_rows
  row_at-set_rows k j p f [] keeps = ground arith
  row_at-set_rows k j p f (a ∷ t) keeps = ground (
    arith,
    row_at-set_rows k j p f t keeps,
    keeps a,
    text_eq_iff j k,
    text_eq_iff (key a) k,
    text_eq_iff (key a) j,
  )

  row_at-remove_rows :
      (k j : Text) (t : List R)
      → row_at k (remove_rows j t) ≡ (if text_eq j k then none else row_at k t)
  unfolding row_at remove_rows
  row_at-remove_rows k j [] = ground arith
  row_at-remove_rows k j (a ∷ t) = ground (
    arith,
    row_at-remove_rows k j t,
    text_eq_iff j k,
    text_eq_iff (key a) k,
    text_eq_iff (key a) j,
  )

  row_at-insert_row :
      (k : Text) (r : R) (t : List R)
      → row_at k (insert_row r t).1
        ≡ (if is_none (insert_row r t).0 && text_eq (key r) k then some r else row_at k t)
  unfolding insert_row row_at
  row_at-insert_row k r t = elim (Option-cases (row_at (key r) t)) [
    | inl e ↦ rw (insert_row, e) refl
    | inr (x, e) ↦ rw (insert_row, e) refl
  ]

  taken-insert_row :
      (k : Text) (r : R) (t : List R)
      → text_eq (key r) k ≡ true
      → is_none (row_at k t) ≡ false
      → is_none (insert_row r t).0 ≡ false
  unfolding insert_row
  taken-insert_row k r t hit there = ground (arith, text_eq_iff (key r) k)

  row_at-upsert_row :
      (k : Text) (r : R) (f : R → R) (t : List R)
      → ((a : R) → key (f a) ≡ key a)
      → row_at k (upsert_row r f t)
        ≡ (if text_eq (key r) k then some (upserted r f (row_at k t)) else row_at k t)
  unfolding row_at upsert_row
  row_at-upsert_row k r f t keeps = elim (Bool-cases (text_eq (key r) k)) [
    | inl hit ↦
        let same = (text_eq_iff (key r) k).0 hit in
        elim (Option-cases (row_at (key r) t)) [
          | inl e ↦
              let e' : row_at k t ≡ none = ap (λ x. row_at x t) (sym same) ∙ e in
              rw (upsert_row, e, hit, e') refl
          | inr (x, e) ↦
              let e' : row_at k t ≡ some x = ap (λ x. row_at x t) (sym same) ∙ e in
              rw (upsert_row, e)
                (row_at-set_rows k (key r) (λ a. true) f t keeps ∙ rw (hit, e') refl)
        ]
    | inr miss ↦ elim (Option-cases (row_at (key r) t)) [
      | inl e ↦ rw (upsert_row, e, miss) refl
      | inr (x, e) ↦
          rw (upsert_row, e) (row_at-set_rows k (key r) (λ a. true) f t keeps ∙ rw miss refl)
    ]
  ]

  pub list_laws : TableLaws list_table text_eq key
  unfolding list_table
  list_laws = record {
    find = row_at;
    key-find = key-row_at;
    select-find = λ k p t. refl;
    find-insert = row_at-insert_row;
    insert-taken = taken-insert_row;
    find-upsert = row_at-upsert_row;
    find-update = row_at-set_rows;
    update-count = λ k p f n t h. ground (arith, h);
    find-remove = row_at-remove_rows;
  }
