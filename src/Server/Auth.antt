-- ===== src/Server/Auth.antt =====
-- cloud-backend/pkg/apiserver/controlplane/auth.go, and the two wrappers of server.go that use it.
-- The hash, in hexadecimal, is a parameter.
pub mod Tokens
use cloudeagent.Prelude.{
  Bool, true, false, not, ◌&&◌, ◌||◌, [], ◌++◌, Text, codes, text_eq, if◌then◌else◌, length, leb,
}
use cloudeagent.Api.Bearer.{bearer_token}

pub record Authenticator : Type 0 where
  pub namespace : Text
  pub admin_token : Text

module _ (sha256_hex : Text → Text) (a : Authenticator) where
  unfoldable pub derived_token : Text → Text
  derived_token user_id = sha256_hex (a.namespace ++ (codes ":" ++ user_id))

  unfoldable pub is_admin_token : Text → Bool
  is_admin_token token = not (text_eq a.admin_token []) && text_eq token a.admin_token

  unfoldable pub authorize_admin : Text → Bool
  unfolding is_admin_token
  authorize_admin auth_header = is_admin_token (bearer_token auth_header)

  unfoldable pub authorize_instance : Text → Text → Bool
  unfolding is_admin_token derived_token
  authorize_instance user_id token = is_admin_token token || text_eq token (derived_token user_id)

  -- The token that `authorizeInstance` of server.go takes from a request: the header's, or else the
  -- one in the query.
  unfoldable pub request_token : Text → Text → Text
  request_token auth_header query_token =
      let token = bearer_token auth_header in if leb (length token) 0 then query_token else token
