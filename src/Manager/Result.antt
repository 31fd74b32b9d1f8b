-- ===== src/Manager/Result.antt =====
-- What one call of `Create` or `Wake` may come to, for the store and for the caller.
use cloudeagent.Prelude.{
  ◌≡◌, sym, ◌∙◌, ◌⊎◌, inl, inr, Bool, true, false, none, some, [], Text, text_eq, arith,
  Option-cases, if◌then◌else◌,
}
use cloudeagent.Types.{
  Err, not_found, Outcome, ok, err, Status, status_none, running, suspended, failed, is_running,
  Instance,
}
use cloudeagent.Db.Store.{StoreOps, StoreLaws}
use cloudeagent.Manager.{Reply}

-- Whether a read found a running instance, and the sandbox that it names.
abbrev pub is_up : Outcome Instance → Bool
is_up (err e) = false
is_up (ok i) = is_running i.status

abbrev pub sandbox_of : Outcome Instance → Text
sandbox_of (err e) = []
sandbox_of (ok i) = i.sandbox_id

-- A record for the user that names no sandbox, or the one that was named before.
abbrev pub Owner : Text → Outcome Instance → Instance → Type 0
Owner user_id old i =
    (i.user_id ≡ user_id) × ((i.sandbox_id ≡ []) ⊎ (i.sandbox_id ≡ sandbox_of old))

-- The state of the life cycle that a read shows; no record is `status_none`.
abbrev pub phase : Outcome Instance → Status
phase (err e) = status_none
phase (ok i) = i.status

-- The moves of the life cycle: all but those from running to failed, and to suspended from
-- anything but running.
abbrev pub can_move : Status → Status → Bool
can_move running failed = false
can_move status_none suspended = false
can_move failed suspended = false
can_move _ _ = true

pub to_running : (o : Outcome Instance) → can_move (phase o) running ≡ true
to_running o = ground arith

to_failed : (o : Outcome Instance) → is_up o ≡ false → can_move (phase o) failed ≡ true
to_failed o h = ground arith

module _ {S : Type 0} {ops : StoreOps S} (laws : StoreLaws ops) where
  -- The store reads as before; the store reads `i` for its user, and as before for the others.
  abbrev pub Same : S → S → Type 0
  Same s s' = (v : Text) → ops.get_instance v s' ≡ ops.get_instance v s

  abbrev pub Put : Instance → S → S → Type 0
  Put i s s' =
      (v : Text)
      → ops.get_instance v s' ≡ (
          if text_eq i.user_id v
          then ok (laws.stored (ops.get_instance v s) i)
          else ops.get_instance v s)

  -- What `Create` and `Wake` may come to, from the store `s`, with a reply and the store left.
  pub data Result (user_id : Text) (s : S) (r : Reply) (s' : S) : Type 0 where
    already :
        (i : Instance)
        → ops.get_instance user_id s ≡ ok i
        → is_running i.status ≡ true
        → r ≡ (some i, none)
        → Same s s'
        → Result user_id s r s'
    done :
        (i : Instance)
        → Owner user_id (ops.get_instance user_id s) i
        → i.status ≡ running
        → i.error ≡ none
        → is_up (ops.get_instance user_id s) ≡ false
        → r ≡ (some i, none)
        → Put i s s'
        → Result user_id s r s'
    gave_up :
        (i : Instance) (e : Err)
        → Owner user_id (ops.get_instance user_id s) i
        → i.status ≡ failed
        → i.error ≡ some e
        → is_up (ops.get_instance user_id s) ≡ false
        → r ≡ (some i, some e)
        → Put i s s' ⊎ Same s s'
        → Result user_id s r s'
    refused : (e : Err) → r ≡ (none, some e) → Same s s' → Result user_id s r s'

  pub create_cases :
      (i : Instance) (s : S)
      → (((ops.create_instance i s).0 ≡ none) × Put i s (ops.create_instance i s).1)
        ⊎ ((x : Err) × ((ops.create_instance i s).0 ≡ some x) × Same s (ops.create_instance i s).1)
  create_cases i s = elim (Option-cases (ops.create_instance i s).0) [
    | inl e ↦ inl (e, λ v. ground (arith, laws.get-create i v s))
    | inr (x, e) ↦ inr (x, e, λ v. ground (arith, laws.get-create i v s))
  ]

  pub update_cases :
      (i : Instance) (s : S)
      → (((ops.update_instance i s).0 ≡ none) × Put i s (ops.update_instance i s).1)
        ⊎ ((x : Err) × ((ops.update_instance i s).0 ≡ some x) × Same s (ops.update_instance i s).1)
  update_cases i s = elim (Option-cases (ops.update_instance i s).0) [
    | inl e ↦ inl (e, λ v. ground (arith, laws.get-update i v s))
    | inr (x, e) ↦ inr (x, e, λ v. ground (arith, laws.get-update i v s))
  ]

  -- What one call does to the records: nothing, or one record of the user is written or removed.
  pub data Change (user_id : Text) (s s' : S) : Type 0 where
    kept : Same s s' → Change user_id s s'
    put :
        (i : Instance)
        → Owner user_id (ops.get_instance user_id s) i
        → can_move (phase (ops.get_instance user_id s)) i.status ≡ true
        → Put i s s'
        → Change user_id s s'
    gone :
        ((v : Text)
          → ops.get_instance v s'
            ≡ (if text_eq user_id v then err not_found else ops.get_instance v s))
        → Change user_id s s'

  pub Result-Change : {u : Text} {s : S} {r : Reply} {s' : S} → Result u s r s' → Change u s s'
  Result-Change (already i at up e same) = kept same
  Result-Change {u} {s} (done i own up clean down e w) =
      put i own (rw up (to_running (ops.get_instance u s))) w
  Result-Change {u} {s} (gave_up i x own up clean down e (inl w)) =
      put i own (rw up (to_failed (ops.get_instance u s) down)) w
  Result-Change (gave_up i x own up clean down e (inr same)) = kept same
  Result-Change (refused x e same) = kept same

  -- A result from one of two stores that read alike is a result from the other.
  pub Result-Same :
      {u : Text} {s s1 : S} {r : Reply} {s' : S} → Same s s1 → Result u s1 r s' → Result u s r s'
  Result-Same {u} same (already i at up e k) =
      already i (sym (same u) ∙ at) up e (λ v. k v ∙ same v)
  Result-Same {u} same (done i own up clean down e w) =
      done i (rw (same u) at own) up clean (rw (same u) at down) e (λ v. rw (same v) at (w v))
  Result-Same {u} same (gave_up i x own up clean down e (inl w)) =
      gave_up i x (rw (same u) at own) up clean (rw (same u) at down) e
        (inl (λ v. rw (same v) at (w v)))
  Result-Same {u} same (gave_up i x own up clean down e (inr k)) =
      gave_up i x (rw (same u) at own) up clean (rw (same u) at down) e (inr (λ v. k v ∙ same v))
  Result-Same same (refused x e k) = refused x e (λ v. k v ∙ same v)
