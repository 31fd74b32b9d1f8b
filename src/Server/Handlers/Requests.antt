-- ===== src/Server/Handlers/Requests.antt =====
-- The table of routes of `Handler` in server.go, whole, and the two wrappers that check tokens. What
-- matches no route is answered by the router, and a request of method OPTIONS by `CORS` before it.
use cloudeagent.Prelude.{
  ℕ, ◌≡◌, ◌≢◌, refl, Bool, true, false, Option, none, some, Text, codes, text_eq_iff, arith,
}
use cloudeagent.Types.{ModelConfig}
use cloudeagent.Manager.World.{Env, State}
use cloudeagent.Manager.Step.{M}
use cloudeagent.Api.Bearer.{bearer_token}
use cloudeagent.Reviews.{ReviewOps}
use cloudeagent.Server.Handlers.Reviews.{
  handle_create_review, handle_list_reviews, handle_get_review, session_refusal,
}
use cloudeagent.Server.Auth.{
  Authenticator, derived_token, authorize_admin, authorize_instance, request_token, is_admin_token,
}
use cloudeagent.Server.Handlers.{
  Response, failure, handle_healthz, handle_create_user, handle_list_users, handle_get_user,
  handle_delete_user, handle_suspend, handle_wake, handle_set_models, handle_get_models,
  handle_chat, handle_workspace, handle_connect, handle_history, handle_new_session,
}

pub data Request : Type 0 where
  healthz list_users : Request
  create_user : Option Text → Request
  get_user delete_user suspend_user wake_user get_models get_workspace new_session : Text → Request
  set_models : Text → Option ModelConfig → Request
  chat : Text → Option Text → Request
  connect : Text → Bool → Text → Request
  history : Text → ℕ → Text → Request
  create_review : Text → Option (Text × ℕ) → Request
  list_reviews session : Text → Request
  get_review : Text → Text → Request

-- An answer, or a session whose checks are passed, which `handleSessionWS` goes on to upgrade.
pub data Served : Type 0 where
  page : Response → Served
  upgrades : Text → Served

abbrev pub unauthorized : Response
unauthorized = failure 401 (codes "unauthorized")

module _ {S W : Type 0} (sha256_hex : Text → Text) (a : Authenticator) (env : Env S W) where
  pub require_admin : Text → M S W Response → M S W Served
  require_admin header next s = elim (authorize_admin sha256_hex a header) [
    | false ↦ (page unauthorized, s)
    | true ↦ let (r, s') = next s in (page r, s')
  ]

  pub require_instance : Text → Text → Text → M S W Response → M S W Served
  require_instance header query user_id next s =
      elim (authorize_instance sha256_hex a user_id (request_token sha256_hex a header query)) [
        | false ↦ (page unauthorized, s)
        | true ↦ let (r, s') = next s in (page r, s')
      ]

  -- The start of `handleSessionWS`, which takes the token of the query alone.
  abbrev begin_session : Text → Text → M S W Served
  begin_session query user_id s = elim (session_refusal sha256_hex a env user_id query s) [
    | some r ↦ (page r, s)
    | none ↦ (upgrades user_id, s)
  ]

  module _ (reviews : ReviewOps S) (new_id : W → Text × W) where
    -- A request with its `Authorization` header and the token in its query.
    pub serve : Text → Text → Request → M S W Served
    unfolding require_admin require_instance session_refusal
    serve header query healthz s = let (r, s') = handle_healthz env s in (page r, s')
    serve header query list_users s = require_admin header (handle_list_users env) s
    serve header query (create_user id) s = require_admin header (handle_create_user env id) s
    serve header query (get_user u) s = require_admin header (handle_get_user env u) s
    serve header query (delete_user u) s = require_admin header (handle_delete_user env u) s
    serve header query (suspend_user u) s = require_admin header (handle_suspend env u) s
    serve header query (wake_user u) s = require_admin header (handle_wake env u) s
    serve header query (get_models u) s = require_admin header (handle_get_models env u) s
    serve header query (set_models u cfg) s = require_admin header (handle_set_models env u cfg) s
    serve header query (get_workspace u) s = require_admin header (handle_workspace env u) s
    serve header query (connect u tls host) s =
        require_admin header (handle_connect env (derived_token sha256_hex a u) tls host u) s
    serve header query (chat u message) s =
        require_instance header query u (handle_chat env u message) s
    serve header query (new_session u) s =
        require_instance header query u (handle_new_session env u) s
    serve header query (history u limit sid) s =
        require_instance header query u (handle_history env u limit sid) s
    serve header query (create_review u body) s =
        require_admin header (handle_create_review env reviews new_id u body) s
    serve header query (list_reviews u) s =
        require_admin header (handle_list_reviews env reviews u) s
    serve header query (get_review u id) s =
        require_admin header (handle_get_review env reviews u id) s
    serve header query (session u) s = begin_session query u s

  -- No user has the token, and it is not the administrator's.
  abbrev pub IsStranger : Text → Type 0
  IsStranger token = (token ≢ a.admin_token) × ((u : Text) → token ≢ derived_token sha256_hex a u)

  require_admin-stranger :
      (header : Text) (next : M S W Response) (s : State S W)
      → bearer_token header ≢ a.admin_token
      → require_admin header next s ≡ (page unauthorized, s)
  unfolding require_admin authorize_admin is_admin_token
  require_admin-stranger header next s h =
      ground (arith, text_eq_iff (bearer_token header) a.admin_token)

  authorize_instance-stranger :
      (u token : Text) → IsStranger token → authorize_instance sha256_hex a u token ≡ false
  unfolding authorize_instance is_admin_token
  authorize_instance-stranger u token h = ground (
    arith,
    text_eq_iff token a.admin_token,
    text_eq_iff token (derived_token sha256_hex a u),
    h.0,
    h.1 u,
  )

  require_instance-stranger :
      (header query u : Text) (next : M S W Response) (s : State S W)
      → IsStranger (request_token sha256_hex a header query)
      → require_instance header query u next s ≡ (page unauthorized, s)
  unfolding require_instance
  require_instance-stranger header query u next s h =
      rw (require_instance, authorize_instance-stranger u _ h) refl

  begin_session-stranger :
      (query u : Text) (s : State S W)
      → IsStranger query
      → begin_session query u s ≡ (page unauthorized, s)
  unfolding session_refusal
  begin_session-stranger query u s h =
      rw (begin_session, session_refusal, authorize_instance-stranger u query h) refl

  module _ (reviews : ReviewOps S) (new_id : W → Text × W) where
    -- A request for any route of the table but the health page: where its header does not carry the
    -- administrator's token, and neither the token in its query nor the one that is taken of the
    -- header or else of the query is the administrator's or any user's, it is answered with 401, and
    -- changes nothing.
    pub serve_stranger :
        (header query : Text) (r : Request) (s : State S W)
        → r ≢ healthz
        → bearer_token header ≢ a.admin_token
        → IsStranger (request_token sha256_hex a header query)
        → IsStranger query
        → serve reviews new_id header query r s ≡ (page unauthorized, s)
    unfolding serve
    serve_stranger header query healthz s other h k q = absurd (other refl)
    serve_stranger header query list_users s other h k q =
        require_admin-stranger header (handle_list_users env) s h
    serve_stranger header query (create_user id) s other h k q =
        require_admin-stranger header (handle_create_user env id) s h
    serve_stranger header query (get_user u) s other h k q =
        require_admin-stranger header (handle_get_user env u) s h
    serve_stranger header query (delete_user u) s other h k q =
        require_admin-stranger header (handle_delete_user env u) s h
    serve_stranger header query (suspend_user u) s other h k q =
        require_admin-stranger header (handle_suspend env u) s h
    serve_stranger header query (wake_user u) s other h k q =
        require_admin-stranger header (handle_wake env u) s h
    serve_stranger header query (get_models u) s other h k q =
        require_admin-stranger header (handle_get_models env u) s h
    serve_stranger header query (get_workspace u) s other h k q =
        require_admin-stranger header (handle_workspace env u) s h
    serve_stranger header query (set_models u cfg) s other h k q =
        require_admin-stranger header (handle_set_models env u cfg) s h
    serve_stranger header query (connect u tls host) s other h k q =
        require_admin-stranger header (handle_connect env (derived_token sha256_hex a u) tls host u)
          s h
    serve_stranger header query (chat u message) s other h k q =
        require_instance-stranger header query u (handle_chat env u message) s k
    serve_stranger header query (new_session u) s other h k q =
        require_instance-stranger header query u (handle_new_session env u) s k
    serve_stranger header query (history u limit sid) s other h k q =
        require_instance-stranger header query u (handle_history env u limit sid) s k
    serve_stranger header query (create_review u body) s other h k q =
        require_admin-stranger header (handle_create_review env reviews new_id u body) s h
    serve_stranger header query (list_reviews u) s other h k q =
        require_admin-stranger header (handle_list_reviews env reviews u) s h
    serve_stranger header query (get_review u id) s other h k q =
        require_admin-stranger header (handle_get_review env reviews u id) s h
    serve_stranger header query (session u) s other h k q = begin_session-stranger query u s q
