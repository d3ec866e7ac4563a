-- ===== src/Auth.antt =====
-- node/src/auth.ts: `AuthClient`. openid-client, `fetch` and the random source are parameters.
-- `#discover()` is the single-flight pattern, in Auth/Discovery: to the operation that awaits it, it
-- is a computation `discover`, which is `#runDiscovery()` or what the caller that is joined gets.
pub mod Laws
pub mod Logout
pub mod Request
pub mod Discovery
pub mod Setup
use key_cloak_sdk.Common.{
  ℕ, ◌+◌, ◌*◌, ◌/◌, max, suc, Bool, true, false, Option, none, some, List, [], ◌∷◌, ◌++◌, Str, lit,
  if◌then◌else◌, show, or_default, join, starts_with,
}
use key_cloak_sdk.Values.{Num, ℤ, pos, nan, infinity, finite, whole}
use key_cloak_sdk.Values.Json.{Value, Members, boolean, get, string_or_undefined}
use key_cloak_sdk.Errors.{Thrown, SdkError, sdk_error, no_cause, message_text}
use key_cloak_sdk.Outcome
use key_cloak_sdk.Outcome.{Outcome, ok, raise}
use key_cloak_sdk.Admin.Http.{is_ok}
use key_cloak_sdk.Config.{KeycloakConfig}
use key_cloak_sdk.Tokens.{TokenSet, token_set_from_response}
use key_cloak_sdk.Transport.{is_transport_error}
use key_cloak_sdk.Capped.{response_too_large}
use key_cloak_sdk.Endpoints.{oidc_endpoints}
use key_cloak_sdk.Jwt.{JwtValidator, ValidatedToken, with_audience}
use key_cloak_sdk.Effects.{Eff, ◌>>=◌, ◌>>◌, pure, throw, lift, attempt}

-- `reasonOf(e)`
unfoldable pub reason_of : Thrown → Str
reason_of e = or_default (response_too_large e) (message_text e)

-- `KeycloakAuthError(message, { cause })`
abbrev pub auth_error : Str → Thrown → Thrown
auth_error message cause = sdk_error SdkError.auth message cause

-- `Math.max(1, Math.round(ms / 1000))`
unfoldable pub discovery_timeout : Num → Num
discovery_timeout nan = nan
discovery_timeout infinity = infinity
discovery_timeout (finite (pos z) d) = whole (max 1 ((2 * z + 1000 * suc d) / (2000 * suc d)))
discovery_timeout _ = whole 1

-- What is asked of `oidc.discovery`; `insecure` is `allowInsecureRequests`.
pub record DiscoveryRequest : Type 0 where
  pub issuer : Str
  pub client_id : Str
  pub client_secret : Option Str
  pub insecure : Bool
  pub timeout : Num

-- The request of `logout`, with `redirect` as `fetch` is given it.
pub record LogoutRequest : Type 0 where
  pub url : Str
  pub method : Str
  pub content_type : Str
  pub form : List (Str × Str)
  pub timeout : Num
  pub redirect : Str

pub record IntrospectionResult : Type 0 where
  pub active : Bool
  pub username : Option Str
  pub client_id : Option Str
  pub claims : Members

-- openid-client's functions over its `Configuration` C, `new URL`, `fetch`, the validator's
-- `validate`, and `Number` of a value. The callback of a code exchange is its address, the code and
-- the issuer, the PKCE verifier and the expected nonce.
pub record Platform (W C : Type 0) : Type 0 where
  pub discovery : DiscoveryRequest → Eff W C
  pub client_credentials_grant : C → Option Str → Eff W Members
  pub authorization_code_grant : C → Str → Str → Str → Str → Option Str → Eff W Members
  pub refresh_token_grant : C → Str → Eff W Members
  pub token_introspection : C → Str → Eff W Members
  pub post : LogoutRequest → Eff W ℕ
  pub parse_url : Str → Outcome Str
  pub validate : JwtValidator → Str → Eff W ValidatedToken
  pub to_number : Value → Num
  pub now_seconds : W → Num

-- `response.active === true`
unfoldable pub is_true : Value → Bool
is_true (boolean b) = b
is_true _ = false

-- The object that `introspect` returns.
unfoldable pub introspection_result : Members → IntrospectionResult
unfolding is_true
introspection_result response = record {
  active = is_true (get response (lit "active"));
  username = string_or_undefined (get response (lit "username"));
  client_id = string_or_undefined (get response (lit "client_id"));
  claims = response;
}

-- `this.#cfg.scopes.length > 0 ? { scope: … } : undefined`
unfoldable pub scope_option : List Str → Option Str
scope_option [] = none
scope_option (s ∷ ss) = some (join (lit " ") (s ∷ ss))

-- The body of the logout request.
unfoldable pub logout_form : KeycloakConfig → Str → List (Str × Str)
logout_form cfg refresh_token =
    (lit "client_id", cfg.client_id)
    ∷ (lit "refresh_token", refresh_token)
    ∷ elim cfg.client_secret [ none ↦ [] | some secret ↦ (lit "client_secret", secret) ∷ [] ]

-- The failure of the discovery.
unfoldable pub discovery_error : Thrown → Thrown
discovery_error e =
    if is_transport_error e
    then sdk_error SdkError.transport (lit "OIDC discovery transport failure") e
    else auth_error (lit "OIDC discovery failed: " ++ reason_of e) e

unfoldable pub missing_id_token : Thrown
missing_id_token =
    auth_error (lit "Authorization code exchange failed: missing id_token for nonce validation")
      no_cause

unfoldable pub invalid_id_token : Thrown → Thrown
invalid_id_token e = auth_error (lit "Authorization code exchange failed: invalid id_token") e

module _ {W C : Type 0} (p : Platform W C) (cfg : KeycloakConfig) (validator : JwtValidator) where
  unfoldable pub discovery_request : DiscoveryRequest
  discovery_request = record {
    issuer = (oidc_endpoints cfg).issuer;
    client_id = cfg.client_id;
    client_secret = cfg.client_secret;
    insecure = starts_with cfg.server_url (lit "http://");
    timeout = discovery_timeout cfg.read_timeout_ms;
  }

  -- `#runDiscovery()`, whose value becomes `#configuration`.
  unfoldable pub run_discovery : Eff W C
  run_discovery = attempt (p.discovery discovery_request) (λ e. throw (discovery_error e))

  -- `tokenSetFromResponse(response)`, with the clock's reading.
  unfoldable pub token_set : Members → Eff W TokenSet
  token_set response w = (token_set_from_response p.to_number response (p.now_seconds w), w)

  -- `#grant(fn, message)`
  unfoldable pub grant : Eff W Members → Str → Eff W TokenSet
  unfolding token_set
  grant fn message =
      attempt (do response ← fn; token_set response)
        (λ e. throw (auth_error (message ++ (lit ": " ++ reason_of e)) e))

  -- `clientCredentialsToken()`
  unfoldable pub client_credentials_token : Eff W C → Eff W TokenSet
  client_credentials_token discover = do
    config ← discover
    grant (p.client_credentials_grant config (scope_option cfg.scopes))
        (lit "Client credentials grant failed")

  -- `#verifyIdToken(idToken)`: the validator for `aud` of the client, over the same key source.
  unfoldable pub verify_id_token : Option Str → Eff W (Unit {0})
  verify_id_token none = throw missing_id_token
  verify_id_token (some id_token) =
      attempt (do _ ← p.validate (with_audience validator cfg.client_id) id_token; pure tt)
        (λ e. throw (invalid_id_token e))

  -- `if (nonce !== undefined) await this.#verifyIdToken(…)`
  unfoldable pub verify_where_asked : Option Str → TokenSet → Eff W (Unit {0})
  verify_where_asked none tokens = pure tt
  verify_where_asked (some nonce) tokens = verify_id_token tokens.id_token

  -- `exchangeCode(code, redirectUri, codeVerifier, nonce)`
  unfoldable pub exchange_code : Eff W C → Str → Str → Str → Option Str → Eff W TokenSet
  exchange_code discover code redirect_uri code_verifier nonce = do
    config ← discover
    current_url ← lift (p.parse_url redirect_uri)
    tokens ←
        grant
          (p.authorization_code_grant config current_url code (oidc_endpoints cfg).issuer
            code_verifier nonce)
          (lit "Authorization code exchange failed")
    _ ← verify_where_asked nonce tokens
    pure tokens

  -- `refresh(refreshToken)`
  unfoldable pub refresh : Eff W C → Str → Eff W TokenSet
  refresh discover refresh_token = do
    config ← discover
    grant (p.refresh_token_grant config refresh_token) (lit "Token refresh failed")

  -- `introspect(token)`
  unfoldable pub introspect : Eff W C → Str → Eff W IntrospectionResult
  introspect discover token = do
    config ← discover
    attempt (do response ← p.token_introspection config token; pure (introspection_result response))
        (λ e. throw (auth_error (lit "Token introspection failed: " ++ reason_of e) e))

  -- `logout(refreshToken)` behind `fetch`: only a status of 200 to 299 is a success.
  unfoldable pub acknowledged : ℕ → Eff W (Unit {0})
  acknowledged status =
      if is_ok status
      then pure tt
      else throw (auth_error (lit "Logout failed (HTTP " ++ (show status ++ lit ")")) no_cause)

  unfoldable pub logout_request : Str → LogoutRequest
  logout_request refresh_token = record {
    url = (oidc_endpoints cfg).end_session;
    method = lit "POST";
    content_type = lit "application/x-www-form-urlencoded";
    form = logout_form cfg refresh_token;
    timeout = cfg.read_timeout_ms;
    redirect = lit "manual";
  }

  -- `logout(refreshToken)`
  unfoldable pub logout : Str → Eff W (Unit {0})
  logout refresh_token = do
    status ←
        attempt (p.post (logout_request refresh_token))
          (λ e. throw (auth_error (lit "Logout request error: " ++ message_text e) e))
    acknowledged status
