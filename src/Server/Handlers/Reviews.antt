-- ===== src/Server/Handlers/Reviews.antt =====
-- The handlers of cloud-backend/pkg/apiserver/controlplane/server.go for reviews, and how it decides
-- whether a session over WebSocket may begin.
use cloudeagent.Prelude.{ℕ, Bool, true, false, Option, none, some, Text, codes, length, leb}
use cloudeagent.Types.{Outcome, ok, err, Instance, Review, is_running}
use cloudeagent.Manager.{get_model_config}
use cloudeagent.Manager.World.{Env, State}
use cloudeagent.Manager.Step.{M, pure, ◌>>=◌, at_store, at_world}
use cloudeagent.Reviews.{ReviewOps, submit}
use cloudeagent.Server.Auth.{Authenticator, authorize_instance}
use cloudeagent.Server.Handlers.{Response, failure, answer, bad_request, review_body, reviews_body}

abbrev review_accepted : Outcome Review → Response
review_accepted (err e) = failure 500 (codes "review_failed")
review_accepted (ok review) = record { code = 202; body = review_body review }

-- The worker is given `GetModelConfig` of the manager; `new_id` is `newReviewID`, by the random
-- numbers of the world.
module _ {S W : Type 0} (env : Env S W) (reviews : ReviewOps S) where
  -- `Submit`, with the call of `getConfig`.
  pub submit_review : (W → Text × W) → Text → Text → ℕ → M S W (Outcome Review)
  submit_review new_id user_id repo pr_number = do
    cfg ← get_model_config env user_id
    now ← (λ s. (env.probes.now s.world, s))
    id ← at_world new_id
    at_store (submit reviews id user_id repo pr_number cfg now)

  -- A decoded body is the repository and the number of the request.
  pub handle_create_review : (W → Text × W) → Text → Option (Text × ℕ) → M S W Response
  unfolding submit_review
  handle_create_review new_id user_id none = pure bad_request
  handle_create_review new_id user_id (some (repo, pr_number)) = elim (leb (length repo) 0) [
    | true ↦ pure bad_request
    | false ↦ do r ← submit_review new_id user_id repo pr_number; pure (review_accepted r)
  ]

  pub handle_list_reviews : Text → M S W Response
  handle_list_reviews user_id s =
      (answer 500 (codes "internal") reviews_body (reviews.list_reviews user_id s.store), s)

  pub handle_get_review : Text → Text → M S W Response
  handle_get_review user_id review_id s =
      (answer 404 (codes "not_found") review_body (reviews.get_review user_id review_id s.store), s)

abbrev is_up : Outcome Instance → Bool
is_up (ok inst) = is_running inst.status
is_up (err e) = false

-- The checks of `handleSessionWS` before it upgrades the connection: the token of the query, and a
-- record that is running.
unfoldable pub session_refusal :
    {S W : Type 0}
    → (Text → Text)
    → Authenticator
    → Env S W
    → Text
    → Text
    → State S W
    → Option Response
session_refusal sha256_hex a env user_id token s =
    elim (authorize_instance sha256_hex a user_id token) [
      | false ↦ some (failure 401 (codes "unauthorized"))
      | true ↦ elim (is_up (env.store.get_instance user_id s.store)) [
        | false ↦ some (failure 409 (codes "not_running"))
        | true ↦ none
      ]
    ]
