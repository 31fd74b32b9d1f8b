-- ===== src/Examples/Postgres.antt =====
-- The store in PostgreSQL over tables that are lists, and the manager over it.
use cloudeagent.Prelude.{
  ℕ, ◌≡◌, refl, none, some, List, [], ◌∷◌, ◌++◌, Text, codes, text_eq, if◌then◌else◌,
}
use cloudeagent.Types.{Err, not_found, ok, err, failed, Review, VcsToken, pending, completed}
use cloudeagent.Db.Store.{Activity, StoreLaws}
use cloudeagent.Db.Tables.{Table}
use cloudeagent.Db.Rows.{Columns, InstanceRow, ReviewRow, scan_instance, review_row}
use cloudeagent.Db.Postgres.{
  Postgres, Database, postgres_ops, get_instance, get_review, update_review,
}
use cloudeagent.Db.Postgres.Laws.{postgres_laws, create_taken}
use cloudeagent.Db.Postgres.Reviews.{after_update, get-update_review}
use cloudeagent.Manager.{create}
use cloudeagent.Manager.World.{Env, State}
use cloudeagent.Manager.Recreation.{recreate_fails}
use cloudeagent.Examples.Setup.{alice, env, start}
use cloudeagent.Examples.Findings.{
  encode_findings, decode_findings, decode-encode_findings, encode_findings-full,
}
use cloudeagent.Examples.Tables.{list_table, list_laws, row_at}

abbrev columns : Columns
columns = record { encode = encode_findings; decode = decode_findings; stamp = λ t. t }

abbrev tokens : Table (Text × Text) VcsToken (List VcsToken)
tokens =
    let t : Table Text VcsToken (List VcsToken) = list_table (λ v. v.user_id ++ v.platform) in
    record {
      select = λ k. t.select (k.0 ++ k.1);
      select_all = t.select_all;
      insert = t.insert;
      upsert = t.upsert;
      update = λ k. t.update (k.0 ++ k.1);
      remove = λ k. t.remove (k.0 ++ k.1);
    }

abbrev db : Database (List InstanceRow) (List Activity) (List ReviewRow) (List VcsToken)
db = record {
  columns = columns;
  instance_table = list_table (λ row. row.user_id);
  activity_table = list_table (λ row. row.user_id);
  review_table = list_table (λ row. row.review_id);
  token_table = tokens;
}

postgres_laws_example : StoreLaws (postgres_ops db)
postgres_laws_example = postgres_laws db (list_laws (λ row. row.user_id))

abbrev broken : InstanceRow
broken = record {
  user_id = alice;
  instance_name = codes "agent-alice";
  status = failed;
  workspace = [];
  endpoint = [];
  port = 0;
  sandbox_id = [];
  error = some not_found;
  created_at = 1;
  updated_at = 2;
}

abbrev waiting : Review
waiting = record {
  id = codes "r1";
  user_id = alice;
  repo = codes "/src";
  pr_number = 7;
  status = pending;
  model = codes "m";
  findings = [];
  error = [];
  created_at = 3;
  updated_at = 3;
}

abbrev reviewed : Review
reviewed = record waiting { status = completed; updated_at = 9 }

abbrev stored : Postgres (List InstanceRow) (List Activity) (List ReviewRow) (List VcsToken)
stored = record {
  instances = broken ∷ [];
  activity = [];
  reviews = review_row columns waiting ∷ [];
  tokens = [];
}

abbrev over_postgres :
    Env (Postgres (List InstanceRow) (List Activity) (List ReviewRow) (List VcsToken)) ℕ
over_postgres = record {
  store = postgres_ops db;
  provider = env.provider;
  gateway = env.gateway;
  probes = env.probes;
  resolve_seat = env.resolve_seat;
}

abbrev broken_start :
    State (Postgres (List InstanceRow) (List Activity) (List ReviewRow) (List VcsToken)) ℕ
broken_start = record { store = stored; cache = start.cache; world = start.world }

recreate_fails_example : (x : Err) × ((create over_postgres alice broken_start).0.1 ≡ some x)
unfolding get_instance scan_instance list_table row_at text_eq
recreate_fails_example =
    recreate_fails over_postgres
      (λ i old p e. (create_taken db (list_laws (λ row. row.user_id)) i old p e).0) alice
      (scan_instance broken) broken_start refl refl

updated-done : (update_review db reviewed stored).0 ≡ none
unfolding update_review list_table row_at review_row text_eq
updated-done = refl

get-update_review_example :
    (old : Review) × (get_review db alice (codes "r1") stored ≡ ok old)
    × (get_review db alice (codes "r1") (update_review db reviewed stored).1 ≡ (
        if text_eq alice alice
        then ok (after_update db (list_laws (λ row. row.review_id)) reviewed old)
        else err not_found))
get-update_review_example =
    get-update_review db (list_laws (λ row. row.review_id)) decode-encode_findings
      encode_findings-full reviewed alice stored updated-done
