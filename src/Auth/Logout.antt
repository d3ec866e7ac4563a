-- ===== src/Auth/Logout.antt =====
-- What `logout` of node/src/auth.ts sends, returns and raises.
use key_cloak_sdk.Common.{ℕ, ◌≡◌, ◌≤◌, refl, ◌++◌, Str, lit, arith, ◌⊎◌, inl, inr, Bool-cases, show}
use key_cloak_sdk.Errors.{Thrown, SdkError, sdk, sdk_error, message_text, no_cause}
use key_cloak_sdk.Errors.Mapping.{class_of}
use key_cloak_sdk.Outcome.{ok, raise, Outcome-cases}
use key_cloak_sdk.Config.{KeycloakConfig}
use key_cloak_sdk.Jwt.{JwtValidator}
use key_cloak_sdk.Endpoints.{oidc_endpoints}
use key_cloak_sdk.Admin.Http.{is_ok}
use key_cloak_sdk.Auth.{
  Platform, auth_error, logout, acknowledged, logout_request, LogoutRequest, logout_form,
}

module _ {W C : Type 0} (p : Platform W C) (cfg : KeycloakConfig) (validator : JwtValidator) where
  -- A logout posts its form to the end-session endpoint and asks for redirects to be handed back
  -- unfollowed. It returns only where the answer has a status of 200 to 299, so a redirect that is
  -- answered is a failure; every failure is a `KeycloakAuthError`.
  pub logout_lem :
      (refresh_token : Str) (w : W)
      → let o = (logout p cfg validator refresh_token w).0 in
        ((r : LogoutRequest) × (status : ℕ) × ((p.post r w).0 ≡ ok status)
          × (200 ≤ status)
          × (status ≤ 299)
          × (r.url ≡ (oidc_endpoints cfg).end_session)
          × (r.method ≡ lit "POST")
          × (r.redirect ≡ lit "manual")
          × (r.form ≡ logout_form cfg refresh_token)
          × (o ≡ ok tt))
        ⊎ ((e : Thrown) × (o ≡ raise e) × (class_of e ≡ sdk SdkError.auth))
  unfolding logout logout_request acknowledged is_ok sdk_error
  logout_lem refresh_token w =
      let r = logout_request p cfg validator refresh_token in
      elim (Outcome-cases (p.post r w).0) [
        | inr (e, q) ↦ inr (
          auth_error (lit "Logout request error: " ++ message_text e) e,
          rw (q, logout) refl,
          refl,
        )
        | inl (status, q) ↦ elim (Bool-cases (is_ok status)) [
          | inl success ↦ inl (
            r,
            status,
            q,
            ground arith,
            ground arith,
            refl,
            refl,
            refl,
            refl,
            rw (q, acknowledged, success, logout) refl,
          )
          | inr failure ↦ inr (
            auth_error (lit "Logout failed (HTTP " ++ (show status ++ lit ")")) no_cause,
            rw (q, acknowledged, failure, logout) refl,
            refl,
          )
        ]
      ]
