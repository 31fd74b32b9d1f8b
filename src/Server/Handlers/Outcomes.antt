-- ===== src/Server/Handlers/Outcomes.antt =====
-- What a request answered with 200 has done to the record of its user.
use cloudeagent.Prelude.{
  ◌≡◌, ap, ◌∙◌, inl, inr, true, Option, none, some, Text, text_eq_iff, codes, length, leb, arith,
  Bool-cases, Option-cases,
}
use cloudeagent.Types.{Err, Status, running, suspended, status_none, is_running}
use cloudeagent.Db.Store.{StoreLaws}
use cloudeagent.Manager.{Reply, create, wake}
use cloudeagent.Manager.World.{Env, State}
use cloudeagent.Manager.Step.{M, ◌>>=◌}
use cloudeagent.Manager.Result.{Result, already, done, gave_up, refused, phase}
use cloudeagent.Manager.Waking.{KeyedAt, create-Ends, wake-Ends}
use cloudeagent.Manager.Control.{suspend, delete}
use cloudeagent.Manager.Control.Endings
use cloudeagent.Manager.Control.Endings.{
  SuspendResult, stopped, DeleteResult, deleted, not_deleted, suspend-SuspendResult,
  delete-DeleteResult,
}
use cloudeagent.Server.Handlers.{
  Response, reply, instance_body, handle_create_user, handle_wake, handle_suspend,
  handle_delete_user,
}

-- The four requests that move an instance, how each is handled, and the state that it asks for.
pub data Lifecycle : Type 0 where
  creating waking suspending deleting : Lifecycle

module _ {S W : Type 0} (env : Env S W) where
  unfoldable pub handle : Lifecycle → Text → M S W Response
  handle creating u = handle_create_user env (some u)
  handle waking u = handle_wake env u
  handle suspending u = handle_suspend env u
  handle deleting u = handle_delete_user env u

abbrev pub asked_for : Lifecycle → Status
asked_for creating = running
asked_for waking = running
asked_for suspending = suspended
asked_for deleting = status_none

running_of : (st : Status) → is_running st ≡ true → st ≡ running
running_of st h = ground arith

module _ {S W : Type 0} (env : Env S W) (laws : StoreLaws env.store) (u : Text) where
  Result-running :
      (e : Text) (s s' : S) (r : Reply)
      → Result laws u s r s'
      → (reply e instance_body r).code ≡ 200
      → phase (env.store.get_instance u s') ≡ running
  Result-running e s s' r (already i at up x same) h =
      ap phase (same u ∙ at) ∙ running_of i.status up
  Result-running e s s' r (done i own up clean down x w) h = ground (
    arith,
    w u,
    own.0,
    text_eq_iff i.user_id u,
    (laws.stored_keeps (env.store.get_instance u s) i).1,
  )
  Result-running e s s' r (gave_up i y own up clean down x w) h = absurd (ground arith)
  Result-running e s s' r (refused y x same) h = absurd (ground arith)

  SuspendResult-suspended :
      (s s' : State S W) (r : Reply)
      → SuspendResult env laws u s r s'
      → KeyedAt env laws u s
      → (reply (codes "suspend_failed") instance_body r).code ≡ 200
      → phase (env.store.get_instance u s'.store) ≡ suspended
  SuspendResult-suspended s s' r (stopped old i at up x y w c) keyed h = ground (
    arith,
    w u,
    keyed old at,
    text_eq_iff i.user_id u,
    (laws.stored_keeps (env.store.get_instance u s.store) i).1,
  )
  SuspendResult-suspended s s' r (Endings.refused o y x same) keyed h = absurd (ground arith)

  DeleteResult-gone :
      (s s' : State S W) (r : Option Err)
      → DeleteResult env laws u s r s'
      → r ≡ none
      → phase (env.store.get_instance u s'.store) ≡ status_none
  DeleteResult-gone s s' r (deleted e g c) h = ground (arith, g u, text_eq_iff u u)
  DeleteResult-gone s s' r (not_deleted x e same) h = absurd (ground arith)

  -- From a store whose record of the user names that user: a request to create, wake, suspend or
  -- delete an instance that is answered with 200 leaves the record of the user in the state that was
  -- asked for, and with no record after a deletion.
  pub handle_reaches :
      (l : Lifecycle) (s : State S W)
      → KeyedAt env laws u s
      → (handle env l u s).0.code ≡ 200
      → phase (env.store.get_instance u (handle env l u s).1.store) ≡ asked_for l
  unfolding handle handle_create_user handle_wake handle_suspend handle_delete_user
  handle_reaches creating s keyed h = elim (Bool-cases (leb (length u) 0)) [
    | inl e ↦ absurd (ground arith)
    | inr e ↦
        rw (handle_create_user, e, ◌>>=◌)
          (Result-running (codes "create_failed") s.store (create env u s).1.store
            (create env u s).0 (create-Ends env laws u s keyed) (ground arith))
  ]
  handle_reaches waking s keyed h =
      Result-running (codes "wake_failed") s.store (wake env u s).1.store (wake env u s).0
        (wake-Ends env laws u s keyed) h
  handle_reaches suspending s keyed h =
      SuspendResult-suspended s (suspend env u s).1 (suspend env u s).0
        (suspend-SuspendResult env laws u s) keyed h
  handle_reaches deleting s keyed h = elim (Option-cases (delete env u s).0) [
    | inl e ↦
        rw (handle_delete_user, e, ◌>>=◌)
          (DeleteResult-gone s (delete env u s).1 (delete env u s).0
            (delete-DeleteResult env laws u s) e)
    | inr (x, e) ↦ absurd (ground arith)
  ]
