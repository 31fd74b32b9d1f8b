-- ===== src/Manager/Lifecycle.antt =====
-- The manager of cloud-backend/pkg/sandboxruntime/manager.go under any sequence of calls.
pub mod Histories
use cloudeagent.Prelude.{
  ℕ, ◌≡◌, ◌≢◌, refl, sym, subst, ap, ◌∙◌, ◌⊎◌, inl, inr, Bool, true, false, Option, none, some,
  List, [], ◌∷◌, Text, text_eq, text_eq_iff, text_eq_ne, arith, Bool-cases, if◌then◌else◌,
}
use cloudeagent.Types.{
  Outcome, ok, err, Err, Status, running, suspended, failed, status_none, Instance, ModelConfig,
}
use cloudeagent.Db.Store.{StoreOps, StoreLaws}
use cloudeagent.Sandbox.{Info}
use cloudeagent.Manager.World.{Env, State}
use cloudeagent.Manager.Result.{
  Same, Put, Change, kept, put, gone, Result-Change, Owner, phase, can_move, sandbox_of,
}
use cloudeagent.Manager.Waking.{create-Ends, wake-Ends}
use cloudeagent.Manager.{create, wake}
use cloudeagent.Manager.Control.{suspend, delete, seed_one, set_model_config}
use cloudeagent.Manager.Control.Changes.{
  suspend-Change, delete-Change, set_model_config-Same, seed_one-Change,
}
use cloudeagent.Manager.Session.{chat, connect}
use cloudeagent.Manager.Session.Changes.{chat-Same, connect-Same}

-- The calls of the manager that may change its state; `seeds` is one round of `Seed`.
pub data Call : Type 0 where
  creates wakes suspends deletes connects : Text → Call
  seeds : Info → Call
  configures : Text → ModelConfig → Call
  chats : Text → Text → Call

abbrev pub user_of : Call → Text
user_of (creates u) = u
user_of (wakes u) = u
user_of (suspends u) = u
user_of (deletes u) = u
user_of (connects u) = u
user_of (seeds info) = info.user_id
user_of (configures u cfg) = u
user_of (chats u message) = u

stays : (a : Status) → can_move a a ≡ true
stays a = ground arith

leaves : (a : Status) → can_move a status_none ≡ true
leaves a = ground arith

module _ {S : Type 0} (ops : StoreOps S) where
  -- Every record stands under the user that it names.
  abbrev pub IsKeyed : S → Type 0
  IsKeyed t = (v : Text) (i : Instance) → ops.get_instance v t ≡ ok i → i.user_id ≡ v

  -- No record names a sandbox.
  abbrev pub HasNoSandbox : S → Type 0
  HasNoSandbox t = (v : Text) → sandbox_of (ops.get_instance v t) ≡ []

-- What a change of the records under one user means for each user.
module _ {S : Type 0} {ops : StoreOps S} (laws : StoreLaws ops) {u : Text} {s s' : S} where
  pub Change-IsKeyed : Change laws u s s' → IsKeyed ops s → IsKeyed ops s'
  Change-IsKeyed (kept same) h v i e = h v i (sym (same v) ∙ e)
  Change-IsKeyed (put j own mv w) h v i e =
      ground
        (arith, w v, h v i, (laws.stored_keeps (ops.get_instance v s) j).0, text_eq_iff j.user_id v)
  Change-IsKeyed (gone g) h v i e = ground (arith, g v, h v i)

  pub Change-HasNoSandbox : Change laws u s s' → HasNoSandbox ops s → HasNoSandbox ops s'
  Change-HasNoSandbox (kept same) h v = ap sandbox_of (same v) ∙ h v
  Change-HasNoSandbox (put j own mv w) h v =
      ground (arith, w v, h v, h u, own, (laws.stored_keeps (ops.get_instance v s) j).2)
  Change-HasNoSandbox (gone g) h v = ground (arith, g v, h v)

  pub Change-moves :
      Change laws u s s'
      → (v : Text) → can_move (phase (ops.get_instance v s)) (phase (ops.get_instance v s')) ≡ true
  Change-moves (kept same) v = rw (same v) (stays (phase (ops.get_instance v s)))
  Change-moves (put j own mv w) v = elim (Bool-cases (text_eq j.user_id v)) [
    | inl hit ↦
        let e : u ≡ v = sym own.0 ∙ (text_eq_iff j.user_id v).0 hit in
        rw (w v, hit, (laws.stored_keeps (ops.get_instance v s) j).1)
          (subst (λ x. can_move (phase (ops.get_instance x s)) j.status ≡ true) e mv)
    | inr miss ↦ rw (w v, miss) (stays (phase (ops.get_instance v s)))
  ]
  Change-moves (gone g) v = elim (Bool-cases (text_eq u v)) [
    | inl hit ↦ rw (g v, hit) (leaves (phase (ops.get_instance v s)))
    | inr miss ↦ rw (g v, miss) (stays (phase (ops.get_instance v s)))
  ]

  pub Change-others :
      Change laws u s s' → (v : Text) → v ≢ u → ops.get_instance v s' ≡ ops.get_instance v s
  Change-others (kept same) v ne = same v
  Change-others (put j own mv w) v ne = ground (arith, w v, text_eq_iff j.user_id v, own)
  Change-others (gone g) v ne = ground (arith, g v, text_eq_iff u v)

module _ {S W : Type 0} (env : Env S W) where
  pub step : Call → State S W → State S W
  step (creates u) s = (create env u s).1
  step (wakes u) s = (wake env u s).1
  step (suspends u) s = (suspend env u s).1
  step (deletes u) s = (delete env u s).1
  step (connects u) s = (connect env u s).1
  step (seeds info) s = (seed_one env info s).1
  step (configures u cfg) s = (set_model_config env u cfg s).1
  step (chats u message) s = (chat env u message s).1

  unfoldable pub run : List Call → State S W → State S W
  run [] s = s
  run (c ∷ cs) s = run cs (step c s)

module _ {S W : Type 0} (env : Env S W) (laws : StoreLaws env.store) where
  pub step-Change :
      (c : Call) (s : State S W)
      → IsKeyed env.store s.store
      → Change laws (user_of c) s.store (step env c s).store
  unfolding step
  step-Change (creates u) s h = Result-Change laws (create-Ends env laws u s (h u))
  step-Change (wakes u) s h = Result-Change laws (wake-Ends env laws u s (h u))
  step-Change (suspends u) s h = suspend-Change env laws u s (h u)
  step-Change (deletes u) s h = delete-Change env laws u s
  step-Change (connects u) s h = kept (connect-Same env laws u s)
  step-Change (seeds info) s h = seed_one-Change env laws info s
  step-Change (configures u cfg) s h = kept (set_model_config-Same env laws u cfg s)
  step-Change (chats u message) s h = kept (chat-Same env laws u message s)
