-- ===== src/Manager/Session.antt =====
-- cloud-backend/pkg/sandboxruntime/manager.go: the methods that pass a call on to an instance.
pub mod Changes
use cloudeagent.Prelude.{ℕ, true, false, Option, none, some, [], Text, codes}
use cloudeagent.Types.{
  Err, not_running, panicked, Outcome, ok, err, Status, is_running, Instance, ChatResponse,
}
use cloudeagent.Manager.World.{Env, GatewayOps}
use cloudeagent.Manager.Step.{M, pure, at_world, ◌>>=◌, ◌>>◌}
use cloudeagent.Manager.{get_instance}
use cloudeagent.Manager.Control.{touch_activity}

pub record Connection : Type 0 where
  pub user_id : Text
  pub status : Status
  pub endpoint : Text
  pub workspace : Text
  pub kernel : Text
  pub session_id : Text

module _ {S W : Type 0} (env : Env S W) where
  pub ensure_running : Text → M S W (Outcome Instance)
  ensure_running user_id = do
    got ← get_instance env user_id
    elim got [
      | err e ↦ pure (err e)
      | ok inst ↦ elim (is_running inst.status) [
        | true ↦ pure (ok inst)
        | false ↦ pure (err not_running)
      ]
    ]

  -- A call through the gateway of a running instance; without a gateway the call panics.
  pub forward : {A : Type 0} → Text → (GatewayOps W → W → Outcome A × W) → M S W (Outcome A)
  forward user_id call = do
    r ← ensure_running user_id
    elim r [
      | err e ↦ pure (err e)
      | ok _ ↦ elim env.gateway [ none ↦ pure (err panicked) | some gw ↦ at_world (call gw) ]
    ]

  pub chat : Text → Text → M S W (Outcome ChatResponse)
  unfolding touch_activity
  chat user_id message = do
    r ← forward user_id (λ gw. gw.chat user_id message [])
    elim r [ err e ↦ pure (err e) | ok out ↦ do touch_activity env user_id; pure (ok out) ]

  pub workspace : Text → M S W (Outcome Text)
  workspace user_id = forward user_id (λ gw. gw.workspace user_id)

  pub history : Text → ℕ → Text → M S W (Outcome Text)
  history user_id limit session_id = forward user_id (λ gw. gw.history user_id limit session_id)

  pub new_session : Text → M S W (Outcome Text)
  new_session user_id = forward user_id (λ gw. gw.new_session user_id)

  abbrev kernel_of : Outcome (Option Text) → Text
  kernel_of (err e) = codes "{}"
  kernel_of (ok none) = codes "{}"
  kernel_of (ok (some k)) = k

  abbrev session_of : Outcome Text → Text
  session_of (err e) = []
  session_of (ok sid) = sid

  connect_through : GatewayOps W → Text → Instance → M S W (Outcome Connection)
  connect_through gw user_id inst = do
    health ← at_world (gw.health user_id)
    session ← at_world (gw.session_info user_id)
    pure (
        ok (record {
          user_id = user_id;
          status = inst.status;
          endpoint = inst.endpoint;
          workspace = inst.workspace;
          kernel = kernel_of health;
          session_id = session_of session;
        }))

  pub connect : Text → M S W (Outcome Connection)
  unfolding connect_through
  connect user_id = do
    r ← ensure_running user_id
    elim r [
      | err e ↦ pure (err e)
      | ok inst ↦ elim env.gateway [
        | none ↦ pure (err panicked)
        | some gw ↦ connect_through gw user_id inst
      ]
    ]
