-- ===== src/Db/Postgres/Laws.antt =====
-- The laws of the interface `Store`, for the store of cloud-backend/pkg/db/postgres.go.
use cloudeagent.Prelude.{
  ℕ, ◌≡◌, refl, sym, ap, ◌∙◌, subst, Bool, true, false, ◌&&◌, Option, none, some, Text, text_eq,
  text_eq_iff, text_eq_self, is_none, arith, if◌then◌else◌, Option-cases, inl, inr,
}
use cloudeagent.Types.{Err, not_found, Outcome, ok, err, Instance}
use cloudeagent.Db.Store.{StoreLaws}
use cloudeagent.Db.Tables.{TableLaws, only, changed, count, succeeded}
use cloudeagent.Db.Rows.{Columns, InstanceRow, scan_instance, instance_row, set_instance}
use cloudeagent.Db.Postgres.{
  Postgres, Database, any_row, affected, create_instance, get_instance, update_instance,
  delete_instance, touch_activity, set_ws_connections, postgres_ops,
}

-- What is read back of a row.
abbrev read_row : Option InstanceRow → Outcome Instance
read_row none = err not_found
read_row (some row) = ok (scan_instance row)

read-taken :
    (row : Option InstanceRow) (old : Instance) → read_row row ≡ ok old → is_none row ≡ false
read-taken none old h = absurd (ground arith)
read-taken (some r) old h = refl

abbrev pub row_key : InstanceRow → Text
row_key row = row.user_id

module _ (columns : Columns) where
  -- What is kept of an instance: not its activity, its times as the columns hold them, and the time
  -- of its creation only if there was no row.
  abbrev pub kept : Outcome Instance → Instance → Instance
  kept (err e) i = scan_instance (instance_row columns i)
  kept (ok old) i = record (scan_instance (instance_row columns i)) { created_at = old.created_at }

  kept_keeps :
      (o : Outcome Instance) (i : Instance)
      → ((kept o i).user_id ≡ i.user_id)
        × ((kept o i).status ≡ i.status)
        × ((kept o i).sandbox_id ≡ i.sandbox_id)
        × ((kept o i).error ≡ i.error)
        × ((kept o i).endpoint ≡ i.endpoint)
        × ((kept o i).instance_name ≡ i.instance_name)
        × ((kept o i).workspace ≡ i.workspace)
        × ((kept o i).port ≡ i.port)
        × ((kept o i).updated_at ≡ columns.stamp i.updated_at)
  unfolding scan_instance instance_row
  kept_keeps (ok old) i = (refl, refl, refl, refl, refl, refl, refl, refl, refl)
  kept_keeps (err e) i = (refl, refl, refl, refl, refl, refl, refl, refl, refl)

  updated-kept :
      (i : Instance) (row : InstanceRow)
      → row.user_id ≡ i.user_id
      → scan_instance (set_instance columns i row) ≡ kept (ok (scan_instance row)) i
  unfolding scan_instance instance_row set_instance
  updated-kept i row e =
      ap (λ u. record (scan_instance (set_instance columns i row)) { user_id = u }) e

  read-update :
      (i : Instance) (tag : Outcome ℕ) (hit : Bool) (row row' : Option InstanceRow)
      → row' ≡ (if succeeded tag && hit then changed any_row (set_instance columns i) row else row)
      → ((n : ℕ) → tag ≡ ok n → hit ≡ true → n ≡ count (only any_row row))
      → ((r : InstanceRow) → row ≡ some r → hit ≡ true → r.user_id ≡ i.user_id)
      → read_row row'
        ≡ (if is_none (affected tag) && hit then ok (kept (read_row row) i) else read_row row)
  read-update i (err e) hit row row' h c k = ap read_row h
  read-update i (ok n) false row row' h c k = ap read_row h ∙ ground arith
  read-update i (ok n) true none row' h c k = ap read_row h ∙ rw (c n refl refl) refl
  read-update i (ok n) true (some r) row' h c k =
      ap read_row h ∙ ap ok (updated-kept i r (k r refl refl)) ∙ rw (c n refl refl) refl

  read-insert :
      (i : Instance) (made hit : Bool) (row row' : Option InstanceRow)
      → row' ≡ (if made && hit then some (instance_row columns i) else row)
      → (hit ≡ true → is_none row ≡ false → made ≡ false)
      → read_row row' ≡ (if made && hit then ok (kept (read_row row) i) else read_row row)
  read-insert i false hit row row' h c = ap read_row h
  read-insert i true false row row' h c = ap read_row h
  read-insert i true true none row' h c = ap read_row h
  read-insert i true true (some r) row' h c = absurd (ground (arith, c refl refl))

module _ {I A R V : Type 0} (db : Database I A R V)
    (laws : TableLaws db.instance_table text_eq row_key) where
  get-find :
      (u : Text) (p : Postgres I A R V) → get_instance db u p ≡ read_row (laws.find u p.instances)
  unfolding get_instance
  get-find u p = elim (Option-cases (laws.find u p.instances)) [
    | inl e ↦ rw (laws.select-find u any_row p.instances, e) refl
    | inr (r, e) ↦ rw (laws.select-find u any_row p.instances, e) refl
  ]

  update-law :
      (i : Instance) (u : Text) (p : Postgres I A R V)
      → get_instance db u (update_instance db i p).1 ≡ (
          if is_none (update_instance db i p).0 && text_eq i.user_id u
          then ok (kept db.columns (get_instance db u p) i)
          else get_instance db u p)
  unfolding update_instance set_instance
  update-law i u p =
      let f = set_instance db.columns i in
      let tag = (db.instance_table.update i.user_id any_row f p.instances).0 in
      let row' = laws.find u (db.instance_table.update i.user_id any_row f p.instances).1 in
      rw (get-find u (update_instance db i p).1, get-find u p)
        (read-update db.columns i tag (text_eq i.user_id u) (laws.find u p.instances) row'
          (laws.find-update u i.user_id any_row f p.instances (λ a. refl))
          (λ n e hit.
            subst (λ x. n ≡ count (only any_row (laws.find x p.instances)))
              ((text_eq_iff i.user_id u).0 hit)
              (laws.update-count i.user_id any_row f n p.instances e))
          (λ r e hit.
            (text_eq_iff r.user_id u).0 (laws.key-find u r p.instances e)
            ∙ sym ((text_eq_iff i.user_id u).0 hit)))

  create-law :
      (i : Instance) (u : Text) (p : Postgres I A R V)
      → get_instance db u (create_instance db i p).1 ≡ (
          if is_none (create_instance db i p).0 && text_eq i.user_id u
          then ok (kept db.columns (get_instance db u p) i)
          else get_instance db u p)
  unfolding create_instance instance_row
  create-law i u p =
      rw (get-find u (create_instance db i p).1, get-find u p)
        (read-insert db.columns i (is_none (create_instance db i p).0) (text_eq i.user_id u)
          (laws.find u p.instances) (laws.find u (create_instance db i p).1.instances)
          (laws.find-insert u (instance_row db.columns i) p.instances)
          (λ hit. laws.insert-taken u (instance_row db.columns i) p.instances hit))

  delete-law :
      (v u : Text) (p : Postgres I A R V)
      → get_instance db u (delete_instance db v p).1 ≡ (
          if is_none (delete_instance db v p).0 && text_eq v u
          then err not_found
          else get_instance db u p)
  unfolding delete_instance
  delete-law v u p = elim (Option-cases (db.instance_table.remove v p.instances).0) [
    | inl e ↦
        rw (delete_instance, e)
          (rw (get-find u _, get-find u p, laws.find-remove u v p.instances, e) (ground arith))
    | inr (x, e) ↦
        rw (delete_instance, e)
          (rw (get-find u _, get-find u p, laws.find-remove u v p.instances, e) refl)
  ]

  touch-law :
      (t : ℕ) (v u : Text) (p : Postgres I A R V)
      → get_instance db u (touch_activity db t v p).1 ≡ get_instance db u p
  unfolding touch_activity
  touch-law t v u p = rw (get-find u (touch_activity db t v p).1, get-find u p) refl

  set_ws-law :
      (t : ℕ) (v : Text) (n : ℕ) (u : Text) (p : Postgres I A R V)
      → get_instance db u (set_ws_connections db t v n p).1 ≡ get_instance db u p
  unfolding set_ws_connections
  set_ws-law t v n u p = rw (get-find u (set_ws_connections db t v n p).1, get-find u p) refl

  -- The store in PostgreSQL is an implementation of the interface too, where statements do what they
  -- document: what is created or updated under one user is what is read back, its user, its name,
  -- its status, its workspace, its endpoint, its port, its sandbox and its error as they were written,
  -- and the time of the update as the columns hold it; what is deleted is not found; and neither a
  -- call that fails nor one for another user changes what is read.
  pub postgres_laws : StoreLaws (postgres_ops db)
  postgres_laws = record {
    stored = kept db.columns;
    stamp = db.columns.stamp;
    stored_keeps = kept_keeps db.columns;
    get-create = create-law;
    get-update = update-law;
    get-delete = delete-law;
    get-touch = touch-law;
    get-set_ws = set_ws-law;
  }

  -- A user whose record can be read cannot be created again: the call returns an error, and every
  -- record is read as before.
  pub create_taken :
      (i old : Instance) (p : Postgres I A R V)
      → get_instance db i.user_id p ≡ ok old
      → ((x : Err) × ((create_instance db i p).0 ≡ some x))
        × ((u : Text) → get_instance db u (create_instance db i p).1 ≡ get_instance db u p)
  unfolding create_instance instance_row
  create_taken i old p e =
      let there : is_none (laws.find i.user_id p.instances) ≡ false =
        read-taken (laws.find i.user_id p.instances) old (sym (get-find i.user_id p) ∙ e) in
      let fails =
        laws.insert-taken i.user_id (instance_row db.columns i) p.instances (text_eq_self i.user_id)
          there in
      (
        elim (Option-cases (create_instance db i p).0) [
          | inl k ↦ absurd (ground (arith, k, fails))
          | inr (x, k) ↦ (x, k)
        ],
        λ u.
            create-law i u p
            ∙ ap
                (λ made.
                  if made && text_eq i.user_id u
                  then ok (kept db.columns (get_instance db u p) i)
                  else get_instance db u p)
                fails,
      )
