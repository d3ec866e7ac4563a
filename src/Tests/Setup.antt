-- ===== src/Tests/Setup.antt =====
-- A client made from an input with defaults, and a token response.
use key_cloak_sdk.Auth.Setup.{AuthClient, new_auth_client, create_client, create_client_lem}
use key_cloak_sdk.Capped.{deliver, Stream}
use key_cloak_sdk.Common.{lit, str_eq, ◌≡◌, refl, Option, none, some, Str, or_default, [], ◌∷◌}
use key_cloak_sdk.Config.{
  with_defaults, KeycloakConfigInput, define_config, strip_end, strip_trailing_slashes, trim,
  is_missing, require_present, timeout_in_range, not_negative, algorithms_given,
  require_absolute_http_url,
}
use key_cloak_sdk.Jwt.{verify_options, with_audience}
use key_cloak_sdk.Outcome.{ok}

abbrev given : KeycloakConfigInput
given = record {
  server_url = some (lit "https://k/");
  realm = some (lit "r");
  client_id = some (lit "c");
  client_secret = none;
  scopes = none;
  connect_timeout_ms = none;
  read_timeout_ms = none;
  clock_skew_seconds = none;
  signature_algorithms = none;
  jwks_min_refetch_seconds = none;
  expected_audience = some (lit "api");
}

abbrev https : Str → Option Str
https s = some (lit "https:")

abbrev client : AuthClient
client = new_auth_client 0 (with_defaults given) none

abbrev body : Stream
body = record { bytes = 1 ∷ 2 ∷ 3 ∷ []; events = deliver 1 ∷ [] }

create_client_lem_example :
    let access = verify_options client.validator.opts in
    let for_id = with_audience client.validator client.cfg.client_id in
    (define_config https given ≡ ok client.cfg)
    × (access.audience ≡ or_default client.cfg.expected_audience client.cfg.client_id)
    × (access.issuer ≡ client.endpoints.issuer)
    × (access.algorithms ≡ client.cfg.signature_algorithms)
    × (for_id.keys ≡ client.validator.keys)
    × (verify_options for_id.opts ≡ record access { audience = client.cfg.client_id })
unfolding create_client define_config require_present is_missing trim strip_trailing_slashes
    strip_end require_absolute_http_url str_eq algorithms_given timeout_in_range not_negative
create_client_lem_example = create_client_lem https 0 given client refl
