-- ===== src/Db/Postgres.antt =====
-- cloud-backend/pkg/db/postgres.go: the store over the tables of schema.sql (Db.Rows). The tables,
-- the JSON encoding of findings and what a time column keeps of a time are parameters.
pub mod Laws
pub mod Reviews
use cloudeagent.Prelude.{
  ℕ, ◌==◌, ltb, Bool, true, false, Option, none, some, List, [], ◌∷◌, Text, text_eq, length, leb,
  if◌then◌else◌,
}
use cloudeagent.Types.{
  Err, not_found, Outcome, ok, err, Status, Instance, ReviewStatus, Finding, Review, VcsToken,
}
use cloudeagent.Db.Memory.{text_lt}
use cloudeagent.Db.Store.{Activity, StoreOps}
use cloudeagent.Db.Tables.{Table}
use cloudeagent.Db.Rows.{
  InstanceRow, ReviewRow, Columns, scan_instance, instance_row, set_instance, review_row,
  set_review, scan_review,
}

-- The state of the database.
pub record Postgres (I A R V : Type 0) : Type 0 where
  pub instances : I
  pub activity : A
  pub reviews : R
  pub tokens : V

pub record Database (I A R V : Type 0) : Type 0 where
  pub columns : Columns
  pub instance_table : Table Text InstanceRow I
  pub activity_table : Table Text Activity A
  pub review_table : Table Text ReviewRow R
  pub token_table : Table (Text × Text) VcsToken V

abbrev pub any_row {ℓ} : {A : Type ℓ} → A → Bool
any_row a = true

-- `pgx.ErrNoRows` becomes `ErrNotFound`; `tag.RowsAffected() == 0` does too.
abbrev pub row_found : {A : Type 0} → Outcome (Option A) → Outcome A
row_found (ok none) = err not_found
row_found (ok (some a)) = ok a
row_found (err e) = err e

abbrev pub affected : Outcome ℕ → Option Err
affected (ok n) = if n == 0 then some not_found else none
affected (err e) = some e

abbrev pub map_found : {A B : Type 0} → (A → B) → Outcome A → Outcome B
map_found f (ok a) = ok (f a)
map_found f (err e) = err e

abbrev map_rows : {A B : Type 0} → (A → B) → List A → List B
map_rows f [] = []
map_rows f (a ∷ rest) = f a ∷ map_rows f rest

module _ {I A R V : Type 0} (db : Database I A R V) where
  pub create_instance : Instance → Postgres I A R V → Option Err × Postgres I A R V
  create_instance inst p =
      let (e, t) = db.instance_table.insert (instance_row db.columns inst) p.instances in
      (e, record p { instances = t })

  unfoldable pub get_instance : Text → Postgres I A R V → Outcome Instance
  get_instance user_id p =
      map_found scan_instance (row_found (db.instance_table.select user_id any_row p.instances))

  pub list_instances : Postgres I A R V → Outcome (List Instance)
  list_instances p =
      map_found (map_rows scan_instance)
        (db.instance_table.select_all any_row (λ a b. text_lt a.user_id b.user_id) p.instances)

  pub update_instance : Instance → Postgres I A R V → Option Err × Postgres I A R V
  update_instance inst p =
      let (tag, t) =
        db.instance_table.update inst.user_id any_row (set_instance db.columns inst) p.instances in
      (affected tag, record p { instances = t })

  -- An error of the second statement is passed over.
  pub delete_instance : Text → Postgres I A R V → Option Err × Postgres I A R V
  delete_instance user_id p =
      let (e, t) = db.instance_table.remove user_id p.instances in
      let p' = record p { instances = t } in
      elim e [
        | some x ↦ (some x, p')
        | none ↦ (none, record p' { activity = (db.activity_table.remove user_id p.activity).1 })
      ]

  -- `now()` is the time of the database.
  pub touch_activity : ℕ → Text → Postgres I A R V → Option Err × Postgres I A R V
  touch_activity now user_id p =
      let at = db.columns.stamp now in
      let fresh : Activity = record {
        user_id = user_id;
        last_active_at = at;
        ws_connections = 0;
      } in
      let (e, t) =
        db.activity_table.upsert fresh (λ row. record row { last_active_at = at }) p.activity in
      (e, record p { activity = t })

  pub set_ws_connections : ℕ → Text → ℕ → Postgres I A R V → Option Err × Postgres I A R V
  set_ws_connections now user_id n p =
      let at = db.columns.stamp now in
      let fresh : Activity = record {
        user_id = user_id;
        last_active_at = at;
        ws_connections = n;
      } in
      let (e, t) =
        db.activity_table.upsert fresh
          (λ row. record row { last_active_at = at; ws_connections = n }) p.activity in
      (e, record p { activity = t })

  abbrev activity_or_now : ℕ → Text → Outcome (Option Activity) → Outcome Activity
  activity_or_now now user_id (ok none) =
      ok (record { user_id = user_id; last_active_at = now; ws_connections = 0 })
  activity_or_now now user_id (ok (some act)) = ok act
  activity_or_now now user_id (err e) = err e

  pub get_activity : ℕ → Text → Postgres I A R V → Outcome Activity
  get_activity now user_id p =
      activity_or_now now user_id (db.activity_table.select user_id any_row p.activity)

  pub create_review : Review → Postgres I A R V → Option Err × Postgres I A R V
  create_review r p =
      let (e, t) = db.review_table.insert (review_row db.columns r) p.reviews in
      (e, record p { reviews = t })

  pub get_review : Text → Text → Postgres I A R V → Outcome Review
  get_review user_id review_id p =
      map_found (scan_review db.columns) (
        row_found (db.review_table.select review_id (λ row. text_eq row.user_id user_id) p.reviews))

  pub list_reviews : Text → Postgres I A R V → Outcome (List Review)
  list_reviews user_id p = map_found (map_rows (scan_review db.columns)) (
      db.review_table.select_all (λ row. text_eq row.user_id user_id)
        (λ a b. ltb a.created_at b.created_at) p.reviews)

  unfoldable pub update_review : Review → Postgres I A R V → Option Err × Postgres I A R V
  update_review r p =
      let (tag, t) =
        db.review_table.update r.id (λ row. text_eq row.user_id r.user_id) (set_review db.columns r)
          p.reviews in
      (affected tag, record p { reviews = t })

  pub save_vcs_token : VcsToken → Postgres I A R V → Option Err × Postgres I A R V
  save_vcs_token v p =
      let (e, t) = db.token_table.upsert v (λ row. record row { token = v.token }) p.tokens in
      (e, record p { tokens = t })

  pub get_vcs_token : Text → Text → Postgres I A R V → Outcome VcsToken
  get_vcs_token user_id platform p =
      row_found (db.token_table.select (user_id, platform) any_row p.tokens)

  abbrev pub postgres_ops : StoreOps (Postgres I A R V)
  postgres_ops = record {
    create_instance = create_instance;
    get_instance = get_instance;
    list_instances = list_instances;
    update_instance = update_instance;
    delete_instance = delete_instance;
    touch_activity = touch_activity;
    set_ws_connections = set_ws_connections;
    get_activity = get_activity;
  }
