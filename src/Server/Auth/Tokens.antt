-- ===== src/Server/Auth/Tokens.antt =====
-- Whom the tokens of auth.go let in.
use cloudeagent.Prelude.{◌≡◌, ◌≢◌, true, [], ◌∷◌, ◌++◌, Text, codes, text_eq, text_eq_iff, arith}
use cloudeagent.Api.Bearer.{bearer_token}
use cloudeagent.Server.Auth.{Authenticator, derived_token, authorize_admin, authorize_instance}

append-cancel : (p s t : Text) → p ++ s ≡ p ++ t → s ≡ t
append-cancel [] s t e = e
append-cancel (c ∷ p) s t e = append-cancel p s t (cc)

module _ (sha256_hex : Text → Text) (a : Authenticator) where
  -- An administrator's request carries the configured token, which is not empty: an empty
  -- configuration lets nobody in.
  pub admin_needs_token :
      (header : Text)
      → authorize_admin sha256_hex a header ≡ true
      → (bearer_token header ≡ a.admin_token) × (a.admin_token ≢ [])
  unfolding authorize_admin
  admin_needs_token header h =
      ground (arith, text_eq_iff (bearer_token header) a.admin_token, text_eq_iff a.admin_token [])

  derived_token-cancel :
      (u v : Text)
      → (derived_token sha256_hex a v ≡ derived_token sha256_hex a u
          → a.namespace ++ (codes ":" ++ v) ≡ a.namespace ++ (codes ":" ++ u))
      → derived_token sha256_hex a v ≡ derived_token sha256_hex a u
      → v ≡ u
  derived_token-cancel u v fits e =
      append-cancel (codes ":") v u (append-cancel a.namespace _ _ (fits e))

  -- Where the hash does not collide at the two texts, and the derived token is not the
  -- administrator's: the token derived for the user `v` opens the instance of `u` exactly if the
  -- two are one user.
  pub derived_opens_own :
      (u v : Text)
      → (derived_token sha256_hex a v ≡ derived_token sha256_hex a u
          → a.namespace ++ (codes ":" ++ v) ≡ a.namespace ++ (codes ":" ++ u))
      → derived_token sha256_hex a v ≢ a.admin_token
      → authorize_instance sha256_hex a u (derived_token sha256_hex a v) ≡ text_eq u v
  unfolding authorize_instance
  derived_opens_own u v fits other =
      let dv = derived_token sha256_hex a v in
      ground (
        arith,
        text_eq_iff dv a.admin_token,
        text_eq_iff dv (derived_token sha256_hex a u),
        text_eq_iff u v,
        derived_token-cancel u v fits,
      )
