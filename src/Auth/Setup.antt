-- ===== src/Auth/Setup.antt =====
-- The construction of the clients: node/src/auth.ts (the constructor of `AuthClient`), jwt.ts (the
-- factories of `JwtValidator`) and client.ts (`KeycloakClient.create`). A key source is an object of
-- its own, numbered by the count of those made before it.
use key_cloak_sdk.Common.{ℕ, ◌≡◌, refl, Option, none, some, Str, or_default}
use key_cloak_sdk.Outcome.{Outcome, ok, ◌>>=◌, >>=-eq-ok}
use key_cloak_sdk.Config.{KeycloakConfig, KeycloakConfigInput, define_config}
use key_cloak_sdk.Endpoints.{OidcEndpoints, oidc_endpoints}
use key_cloak_sdk.Jwt.{JwtValidator, JwtValidatorOptions, verify_options, with_audience}

-- `JwtValidator.forKeySource(keys, opts)`
unfoldable pub for_key_source : ℕ → JwtValidatorOptions → JwtValidator
for_key_source keys opts = record { keys = keys; opts = opts }

-- A remote key source: its address, and what of the options it is made with.
pub record KeySource : Type 0 where
  pub jwks_uri : Str
  pub opts : JwtValidatorOptions

-- `JwtValidator.forJwksUri(jwksUri, opts)`: the key source, and the validator that holds it.
unfoldable pub for_jwks_uri : ℕ → Str → JwtValidatorOptions → KeySource × JwtValidator
unfolding for_key_source
for_jwks_uri made jwks_uri opts =
    (record { jwks_uri = jwks_uri; opts = opts }, for_key_source made opts)

-- The options that `AuthClient` builds its validator with.
unfoldable pub validator_options : KeycloakConfig → JwtValidatorOptions
validator_options cfg = record {
  issuer = (oidc_endpoints cfg).issuer;
  audience = or_default cfg.expected_audience cfg.client_id;
  allowed_algs = cfg.signature_algorithms;
  clock_skew_seconds = cfg.clock_skew_seconds;
  jwks_min_refetch_seconds = cfg.jwks_min_refetch_seconds;
  read_timeout_ms = some cfg.read_timeout_ms;
}

pub record AuthClient : Type 0 where
  pub cfg : KeycloakConfig
  pub endpoints : OidcEndpoints
  pub validator : JwtValidator

-- `new AuthClient(cfg, validator)`
unfoldable pub new_auth_client : ℕ → KeycloakConfig → Option JwtValidator → AuthClient
unfolding validator_options for_jwks_uri
new_auth_client made cfg validator = record {
  cfg = cfg;
  endpoints = oidc_endpoints cfg;
  validator =
      or_default validator (for_jwks_uri made (oidc_endpoints cfg).jwks (validator_options cfg)).1;
}

-- `KeycloakClient.create(input)`: the auth client, which holds the configuration.
unfoldable pub create_client : (Str → Option Str) → ℕ → KeycloakConfigInput → Outcome AuthClient
unfolding new_auth_client
create_client protocol made input = do
  config ← define_config protocol input
  ok (new_auth_client made config none)

-- A client is created only from a configuration that `defineConfig` accepts. Its access tokens are
-- checked for the expected audience where one is configured and else for the client's id; its id
-- tokens are checked for the client's id, whatever audience is expected, over the same key source
-- and with the same algorithms, issuer and clock skew.
pub create_client_lem :
    (protocol : Str → Option Str) (made : ℕ) (input : KeycloakConfigInput) (client : AuthClient)
    → create_client protocol made input ≡ ok client
    → let access = verify_options client.validator.opts in
      let for_id = with_audience client.validator client.cfg.client_id in
      (define_config protocol input ≡ ok client.cfg)
      × (access.audience ≡ or_default client.cfg.expected_audience client.cfg.client_id)
      × (access.issuer ≡ client.endpoints.issuer)
      × (access.algorithms ≡ client.cfg.signature_algorithms)
      × (for_id.keys ≡ client.validator.keys)
      × (verify_options for_id.opts ≡ record access { audience = client.cfg.client_id })
unfolding create_client with_audience verify_options
create_client_lem protocol made input client h =
    let (config, accepted, built) = >>=-eq-ok (define_config protocol input) _ h in
    let same : new_auth_client made config none ≡ client = cc in
    rw (← same) (accepted, refl, refl, refl, refl, refl)
