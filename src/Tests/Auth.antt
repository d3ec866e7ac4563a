-- ===== src/Tests/Auth.antt =====
-- A client whose identity provider always answers.

use key_cloak_sdk.Auth
use key_cloak_sdk.Auth.{
  auth_error, token_set, grant, verify_id_token, verify_where_asked, exchange_code, logout,
  acknowledged, logout_request, missing_id_token, invalid_id_token, reason_of, LogoutRequest,
  logout_form, scope_option, discovery_timeout, DiscoveryRequest, IntrospectionResult, is_true,
  introspection_result, discovery_error, run_discovery, client_credentials_token, refresh,
  introspect,
}
use key_cloak_sdk.Auth.Discovery.{discover, discover_once}
use key_cloak_sdk.Auth.Laws.{exchange_code_lem, for_client}
use key_cloak_sdk.Auth.Logout.{logout_lem}
use key_cloak_sdk.Common.{ℕ, ◌≡◌, ◌≤◌, none, some, List, [], ◌∷◌, Str, lit, ◌⊎◌, length}
use key_cloak_sdk.Config.{KeycloakConfig}
use key_cloak_sdk.Endpoints.{oidc_endpoints}
use key_cloak_sdk.Errors.{Thrown, SdkError, sdk}
use key_cloak_sdk.Errors.Mapping.{class_of}
use key_cloak_sdk.Jwt.{JwtValidator, ValidatedToken, JwtValidatorOptions}
use key_cloak_sdk.Outcome.{Outcome, ok, raise}
use key_cloak_sdk.SingleFlight.{Flight, served, idle, call}
use key_cloak_sdk.SingleFlight.Once.{always}
use key_cloak_sdk.SingleFlight.Steps.{calls, next, here}
use key_cloak_sdk.Tokens.{TokenSet, token_set_from_response}
use key_cloak_sdk.Values.{whole}
use key_cloak_sdk.Values.Json.{Members, end, member, string}

abbrev config : KeycloakConfig
config = record {
  server_url = lit "https://k";
  realm = lit "r";
  client_id = lit "c";
  client_secret = some (lit "s");
  scopes = [];
  connect_timeout_ms = whole 10000;
  read_timeout_ms = whole 30000;
  clock_skew_seconds = whole 30;
  signature_algorithms = lit "RS256" ∷ [];
  jwks_min_refetch_seconds = whole 30;
  expected_audience = some (lit "api");
}

abbrev options : JwtValidatorOptions
options = record {
  issuer = lit "https://k/realms/r";
  audience = lit "api";
  allowed_algs = lit "RS256" ∷ [];
  clock_skew_seconds = whole 30;
  jwks_min_refetch_seconds = whole 30;
  read_timeout_ms = none;
}

abbrev validator : JwtValidator
validator = record { keys = 0; opts = options }

abbrev granted : Members
granted =
    member (lit "access_token") (string (lit "a")) (member (lit "id_token") (string (lit "i")) end)

abbrev accepted : ValidatedToken
accepted = record {
  subject = [];
  audience = lit "c" ∷ [];
  issuer = [];
  expires_at = none;
  issued_at = none;
  claims = end;
}

-- The world has no state, and every answer is a success.
abbrev platform : Auth.Platform (Unit {0}) (Unit {0})
platform = record {
  discovery = λ d w. (ok tt, w);
  client_credentials_grant = λ c scope w. (ok granted, w);
  authorization_code_grant = λ c url code issuer verifier nonce w. (ok granted, w);
  refresh_token_grant = λ c token w. (ok granted, w);
  token_introspection = λ c token w. (ok end, w);
  post = λ r w. (ok 204, w);
  parse_url = λ url. ok url;
  validate = λ v token w. (ok accepted, w);
  to_number = λ v. whole 0;
  now_seconds = λ w. whole 100;
}

abbrev discovering : Flight ℕ
discovering = (call always 0 idle).0

abbrev Anything : ℕ → Outcome ℕ → Type 0
Anything now o = Unit

abbrev digest : Str → Str
digest s = lit "d"

abbrev href : Str → List (Str × Str) → Str
href address query = address

-- The discovery of a first caller.
abbrev found : Unit {0} → Outcome (Unit {0}) × Unit {0}
found w = run_discovery platform config validator w

exchange_code_lem_example :
    let called =
      exchange_code platform config validator found
        (lit "x")
        (lit "https://a")
        (lit "v")
        (some (lit "n"))
        tt in
    ((e : Thrown) × ((found tt).0 ≡ raise e)
      × (called ≡ (raise e, (found tt).1))
      × ((run_discovery platform config validator tt).0 ≡ raise e
          → (class_of e ≡ sdk SdkError.transport) ⊎ (class_of e ≡ sdk SdkError.auth)))
    ⊎ ((e : Thrown) × (platform.parse_url (lit "https://a") ≡ raise e)
        × (called ≡ (raise e, (found tt).1)))
    ⊎ ((c : Unit {0}) × (url : Str) × ((found tt).0 ≡ ok c)
        × (platform.parse_url (lit "https://a") ≡ ok url)
        × (let ask =
              platform.authorization_code_grant c url
                (lit "x")
                (oidc_endpoints config).issuer
                (lit "v")
                (some (lit "n"))
                (found tt).1 in
            ((response : Members) × (tokens : TokenSet) × (id_token : Str) × (t : ValidatedToken)
              × (ask.0 ≡ ok response)
              × (token_set_from_response platform.to_number response (platform.now_seconds ask.1)
                  ≡ ok tokens)
              × (tokens.id_token ≡ some id_token)
              × ((platform.validate (for_client config validator) id_token ask.1).0 ≡ ok t)
              × (called.0 ≡ ok tokens))
            ⊎ ((e : Thrown) × (called.0 ≡ raise e) × (class_of e ≡ sdk SdkError.auth))))
exchange_code_lem_example =
    exchange_code_lem platform config validator found (lit "x") (lit "https://a") (lit "v")
      (lit "n") tt

logout_lem_example :
    let o = (logout platform config validator (lit "t") tt).0 in
    ((r : LogoutRequest) × (status : ℕ) × ((platform.post r tt).0 ≡ ok status)
      × (200 ≤ status)
      × (status ≤ 299)
      × (r.url ≡ (oidc_endpoints config).end_session)
      × (r.method ≡ lit "POST")
      × (r.redirect ≡ lit "manual")
      × (r.form ≡ logout_form config (lit "t"))
      × (o ≡ ok tt))
    ⊎ ((e : Thrown) × (o ≡ raise e) × (class_of e ≡ sdk SdkError.auth))
logout_lem_example = logout_lem platform config validator (lit "t") tt

discover_once_example :
    (length discovering.pending ≤ 1)
    × ((c : ℕ)
        → discovering.cached ≡ some c
        → (discovering.pending ≡ []) × (discover discovering ≡ (discovering, served c)))
discover_once_example = discover_once Anything discovering (next here (calls 0 idle))
