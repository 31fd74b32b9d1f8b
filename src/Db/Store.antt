-- ===== src/Db/Store.antt =====
-- The interface `Store` of cloud-backend/pkg/db/store.go, as far as the manager and the reaper use
-- it, and what they rely on. A method that fails returns the error beside the state that it left.
use cloudeagent.Prelude.{ℕ, ◌≡◌, ◌&&◌, Option, List, Text, text_eq, is_none, if◌then◌else◌}
use cloudeagent.Types.{Err, not_found, Outcome, ok, err, Instance}

pub record Activity : Type 0 where
  pub user_id : Text
  pub last_active_at : ℕ
  pub ws_connections : ℕ

-- The methods that read the clock take the time.
pub record StoreOps (S : Type 0) : Type 0 where
  pub create_instance : Instance → S → Option Err × S
  pub get_instance : Text → S → Outcome Instance
  pub list_instances : S → Outcome (List Instance)
  pub update_instance : Instance → S → Option Err × S
  pub delete_instance : Text → S → Option Err × S
  pub touch_activity : ℕ → Text → S → Option Err × S
  pub set_ws_connections : ℕ → Text → ℕ → S → Option Err × S
  pub get_activity : ℕ → Text → S → Outcome Activity

-- What a store promises of the instances. `stored` is what it keeps of one, given what it held of the
-- user: the PostgreSQL table has no column for the activity fields, and an update of a row leaves the
-- time of its creation. `stamp` is what it makes of a time. A call that fails changes nothing.
pub record StoreLaws {S : Type 0} (ops : StoreOps S) : Type 0 where
  pub stored : Outcome Instance → Instance → Instance
  pub stamp : ℕ → ℕ
  pub stored_keeps :
      (o : Outcome Instance) (i : Instance)
      → ((stored o i).user_id ≡ i.user_id)
        × ((stored o i).status ≡ i.status)
        × ((stored o i).sandbox_id ≡ i.sandbox_id)
        × ((stored o i).error ≡ i.error)
        × ((stored o i).endpoint ≡ i.endpoint)
        × ((stored o i).instance_name ≡ i.instance_name)
        × ((stored o i).workspace ≡ i.workspace)
        × ((stored o i).port ≡ i.port)
        × ((stored o i).updated_at ≡ stamp i.updated_at)
  pub get-create :
      (i : Instance) (u : Text) (s : S)
      → ops.get_instance u (ops.create_instance i s).1 ≡ (
          if is_none (ops.create_instance i s).0 && text_eq i.user_id u
          then ok (stored (ops.get_instance u s) i)
          else ops.get_instance u s)
  pub get-update :
      (i : Instance) (u : Text) (s : S)
      → ops.get_instance u (ops.update_instance i s).1 ≡ (
          if is_none (ops.update_instance i s).0 && text_eq i.user_id u
          then ok (stored (ops.get_instance u s) i)
          else ops.get_instance u s)
  pub get-delete :
      (v u : Text) (s : S)
      → ops.get_instance u (ops.delete_instance v s).1 ≡ (
          if is_none (ops.delete_instance v s).0 && text_eq v u
          then err not_found
          else ops.get_instance u s)
  pub get-touch :
      (t : ℕ) (v u : Text) (s : S)
      → ops.get_instance u (ops.touch_activity t v s).1 ≡ ops.get_instance u s
  pub get-set_ws :
      (t : ℕ) (v : Text) (n : ℕ) (u : Text) (s : S)
      → ops.get_instance u (ops.set_ws_connections t v n s).1 ≡ ops.get_instance u s
