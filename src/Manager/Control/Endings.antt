-- ===== src/Manager/Control/Endings.antt =====
-- Every way that `Suspend` and `Delete` of cloud-backend/pkg/sandboxruntime/manager.go end.
use cloudeagent.Prelude.{
  ℕ, ◌≡◌, refl, inl, inr, true, Option, none, some, Text, text_eq, lookup-delete, text_eq_self,
  arith, Option-cases, Bool-cases, if◌then◌else◌,
}
use cloudeagent.Types.{
  Outcome-cases, Err, not_found, not_cached, ok, err, running, suspended, is_running, Instance,
  Status, suspend_failed, delete_failed, not_running,
}
use cloudeagent.Db.Cache
use cloudeagent.Db.Cache.{MemoryCache}
use cloudeagent.Db.Store.{StoreLaws}
use cloudeagent.Manager.World.{Env, State}
use cloudeagent.Manager.Step.{◌>>=◌, at_store, at_world}
use cloudeagent.Manager.Result.{Same, Put, update_cases}
use cloudeagent.Manager.{Reply}
use cloudeagent.Manager.Control.{suspend, suspend_running, suspend_record, delete}

-- Nothing is cached for the user, at any time.
abbrev pub NotCached : Text → MemoryCache → Type 0
NotCached u c = (now : ℕ) → Cache.get now u c ≡ err not_cached

get-remove : (u : Text) (c : MemoryCache) → NotCached u (Cache.remove u c)
unfolding Cache.get Cache.remove
get-remove u c now = ground (arith, lookup-delete u u c.entries, text_eq_self u)

pub is_running_iff : (s : Status) → is_running s ≡ true → s ≡ running
is_running_iff s h = ground arith

module _ {S W : Type 0} (env : Env S W) (laws : StoreLaws env.store) (u : Text) where
  -- What a call of `Suspend` may come to.
  pub data SuspendResult (s : State S W) (r : Reply) (s' : State S W) : Type 0 where
    stopped :
        (old i : Instance)
        → env.store.get_instance u s.store ≡ ok old
        → old.status ≡ running
        → i ≡ record old { status = suspended; updated_at = i.updated_at }
        → r ≡ (some i, none)
        → Put laws i s.store s'.store
        → NotCached u s'.cache
        → SuspendResult s r s'
    refused :
        (o : Option Instance) (e : Err)
        → r ≡ (o, some e)
        → Same laws s.store s'.store
        → SuspendResult s r s'

  suspend_record-Result :
      (old : Instance) (s : State S W) (w : W)
      → env.store.get_instance u s.store ≡ ok old
      → old.status ≡ running
      → let out = suspend_record env u old (record s { world = w }) in SuspendResult s out.0 out.1
  unfolding suspend_record
  suspend_record-Result old s w at up =
      let i : Instance = record old { status = suspended; updated_at = env.probes.now w } in
      elim (update_cases laws i s.store) [
        | inl (e, p) ↦
            rw (e, suspend_record, ◌>>=◌, at_store)
              (stopped old i at up refl refl p (get-remove u s.cache))
        | inr (x, e, same) ↦ rw (e, suspend_record, ◌>>=◌, at_store) (refused none x refl same)
      ]

  suspend_running-Result :
      (old : Instance) (s : State S W)
      → env.store.get_instance u s.store ≡ ok old
      → old.status ≡ running
      → SuspendResult s (suspend_running env u old s).0 (suspend_running env u old s).1
  unfolding suspend_running
  suspend_running-Result old s at up =
      let out = env.provider.stop u s.world in
      elim (Option-cases out.0) [
        | inl e ↦ rw (e, suspend_running, ◌>>=◌, at_world) (suspend_record-Result old s out.1 at up)
        | inr (x, e) ↦
            rw (e, suspend_running, ◌>>=◌, at_world)
              (refused none (suspend_failed x) refl (λ v. refl))
      ]

  -- `Suspend` succeeds only for a user whose record is running; then this record is written with
  -- the status suspended and a new time, no other field and no other record changed, and nothing is
  -- cached for the user any more. Otherwise it returns an error, and every record reads as before.
  pub suspend-SuspendResult :
      (s : State S W) → SuspendResult s (suspend env u s).0 (suspend env u s).1
  unfolding suspend
  suspend-SuspendResult s = elim (Outcome-cases (env.store.get_instance u s.store)) [
    | inr (x, e) ↦ rw (e, suspend, ◌>>=◌) (refused none x refl (λ v. refl))
    | inl (i, e) ↦ elim (Bool-cases (is_running i.status)) [
      | inl up ↦
          rw (e, suspend, ◌>>=◌, up) (suspend_running-Result i s e (is_running_iff i.status up))
      | inr down ↦ rw (e, suspend, ◌>>=◌, down) (refused (some i) not_running refl (λ v. refl))
    ]
  ]

  -- What a call of `Delete` may come to.
  pub data DeleteResult (s : State S W) (r : Option Err) (s' : State S W) : Type 0 where
    deleted :
        r ≡ none
        → ((v : Text)
            → env.store.get_instance v s'.store
              ≡ (if text_eq u v then err not_found else env.store.get_instance v s.store))
        → NotCached u s'.cache
        → DeleteResult s r s'
    not_deleted : (e : Err) → r ≡ some e → Same laws s.store s'.store → DeleteResult s r s'

  delete_record-Result :
      (s : State S W) (w : W)
      → let t = env.store.delete_instance u s.store in
        DeleteResult s t.0 (record { store = t.1; cache = Cache.remove u s.cache; world = w })
  delete_record-Result s w = elim (Option-cases (env.store.delete_instance u s.store).0) [
    | inl e ↦ deleted e (λ v. ground (arith, laws.get-delete u v s.store)) (get-remove u s.cache)
    | inr (x, e) ↦ not_deleted x e (λ v. ground (arith, laws.get-delete u v s.store))
  ]

  -- `Delete` either succeeds, and then the user has no record and nothing cached, and the other
  -- records read as before; or it returns an error, and every record reads as before.
  pub delete-DeleteResult : (s : State S W) → DeleteResult s (delete env u s).0 (delete env u s).1
  unfolding delete
  delete-DeleteResult s =
      let out = env.provider.delete u s.world in
      elim (Option-cases out.0) [
        | inr (x, e) ↦
            rw (e, delete, ◌>>=◌, at_world) (not_deleted (delete_failed x) refl (λ v. refl))
        | inl e ↦ rw (e, delete, ◌>>=◌, at_world) (delete_record-Result s _)
      ]
