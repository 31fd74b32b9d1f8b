-- ===== src/Server/Handlers.antt =====
-- The routes and handlers of cloud-backend/pkg/apiserver/controlplane/server.go, but for the
-- relay of frames. A decoded body is a parameter, `none` where it does not decode.
pub mod Requests
pub mod Reviews
pub mod Outcomes
use cloudeagent.Prelude.{
  ℕ, Bool, true, false, Option, none, some, List, [], ◌∷◌, ◌++◌, Text, codes, length, leb,
  if◌then◌else◌,
}
use cloudeagent.Types.{Err, Outcome, ok, err, Instance, ModelConfig, ChatResponse, Review}
use cloudeagent.Manager.{Reply, get_instance, create, wake, get_model_config}
use cloudeagent.Manager.World.{Env}
use cloudeagent.Manager.Step.{M, pure, ◌>>=◌}
use cloudeagent.Manager.Control.{suspend, delete, list, set_model_config}
use cloudeagent.Manager.Session
use cloudeagent.Manager.Session.{Connection}

-- What is encoded as the body; an error is known by its code.
pub data Body : Type 0 where
  error_body : Text → Body
  health_body : Body
  instance_body : Option Instance → Body
  instances_body : List Instance → Body
  deleted_body : Text → Body
  switched_body : Option Instance → Text → Body
  config_body : ModelConfig → Body
  chat_body : ChatResponse → Body
  page_body : Text → Body
  session_body : Text → Text → Body
  connect_body : Connection → Text → Text → Body
  review_body : Review → Body
  reviews_body : List Review → Body

pub record Response : Type 0 where
  pub code : ℕ
  pub body : Body

abbrev pub failure : ℕ → Text → Response
failure code e = record { code = code; body = error_body e }

abbrev pub success : Body → Response
success b = record { code = 200; body = b }

-- `if err != nil { api.Error(…); return }; api.JSON(…)`, for the two forms of a result.
abbrev pub reply : Text → (Option Instance → Body) → Reply → Response
reply e body (inst, some x) = failure 409 e
reply e body (inst, none) = success (body inst)

abbrev pub answer : {A : Type 0} → ℕ → Text → (A → Body) → Outcome A → Response
answer code e body (err x) = failure code e
answer code e body (ok a) = success (body a)

abbrev pub bad_request : Response
bad_request = failure 400 (codes "bad_request")

module _ {S W : Type 0} (env : Env S W) where
  pub handle_healthz : M S W Response
  handle_healthz = pure (success health_body)

  pub handle_create_user : Option Text → M S W Response
  handle_create_user none = pure bad_request
  handle_create_user (some id) = elim (leb (length id) 0) [
    | true ↦ pure bad_request
    | false ↦ do r ← create env id; pure (reply (codes "create_failed") instance_body r)
  ]

  pub handle_list_users : M S W Response
  handle_list_users = do r ← list env; pure (answer 500 (codes "internal") instances_body r)

  pub handle_get_user : Text → M S W Response
  handle_get_user user_id = do
    r ← get_instance env user_id
    pure (answer 404 (codes "not_found") (λ inst. instance_body (some inst)) r)

  unfoldable pub handle_delete_user : Text → M S W Response
  handle_delete_user user_id = do
    e ← delete env user_id
    elim e [
      | some x ↦ pure (failure 500 (codes "delete_failed"))
      | none ↦ pure (success (deleted_body user_id))
    ]

  pub handle_suspend : Text → M S W Response
  handle_suspend user_id = do
    r ← suspend env user_id
    pure (reply (codes "suspend_failed") instance_body r)

  pub handle_wake : Text → M S W Response
  handle_wake user_id = do r ← wake env user_id; pure (reply (codes "wake_failed") instance_body r)

  pub handle_set_models : Text → Option ModelConfig → M S W Response
  handle_set_models user_id none = pure bad_request
  handle_set_models user_id (some cfg) = elim (leb (length cfg.model) 0) [
    | true ↦ pure bad_request
    | false ↦ do
      r ← set_model_config env user_id cfg
      pure (reply (codes "model_switch_failed") (λ inst. switched_body inst cfg.model) r)
  ]

  pub handle_get_models : Text → M S W Response
  handle_get_models user_id = do
    r ← get_model_config env user_id
    pure (answer 404 (codes "not_found") config_body r)

  pub handle_chat : Text → Option Text → M S W Response
  handle_chat user_id none = pure bad_request
  handle_chat user_id (some message) = elim (leb (length message) 0) [
    | true ↦ pure bad_request
    | false ↦ do
      r ← Session.chat env user_id message
      pure (answer 409 (codes "chat_failed") chat_body r)
  ]

  pub handle_workspace : Text → M S W Response
  handle_workspace user_id = do
    r ← Session.workspace env user_id
    pure (answer 409 (codes "workspace_failed") page_body r)

  -- The token that is handed out is a parameter, and whether the request came over TLS, and its host.
  pub handle_connect : Text → Bool → Text → Text → M S W Response
  handle_connect token tls host user_id = do
    r ← Session.connect env user_id
    let scheme = if tls then codes "wss" else codes "ws"
    let path = codes "/v1/users/" ++ (user_id ++ (codes "/session?token=" ++ token))
    let url = scheme ++ (codes "://" ++ (host ++ path))
    pure (answer 409 (codes "connect_failed") (λ info. connect_body info token url) r)

  -- `limit` is 0 unless the query has a positive number.
  pub handle_history : Text → ℕ → Text → M S W Response
  handle_history user_id limit session_id = do
    r ← Session.history env user_id limit session_id
    pure (answer 409 (codes "history_failed") page_body r)

  pub handle_new_session : Text → M S W Response
  handle_new_session user_id = do
    r ← Session.new_session env user_id
    pure (answer 409 (codes "new_session_failed") (λ out. session_body out user_id) r)
