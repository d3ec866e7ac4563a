-- ===== src/Tests/Config.antt =====
-- A configuration with its defaults, and a token set of a minute.
use key_cloak_sdk.Common.{
  [], ◌++◌, ◌≢◌, suc, replicate, length, get_elem?, or_default, none, some, lit, Option, str_eq, ℕ,
  ◌+◌, ◌≤◌, ◌≡◌, ◌↔◌, refl, true, Str, ◌⊎◌,
}
use key_cloak_sdk.Config.{KeycloakConfigInput, define_config}
use key_cloak_sdk.Config.Checks.{IsProper, define_config_iff}
use key_cloak_sdk.Config.Ranges.{filled}
use key_cloak_sdk.Outcome.{ok}
use key_cloak_sdk.Tokens.{is_expired, token_set_from_response, non_empty, token_set_with}
use key_cloak_sdk.Tokens.Expiry.{token_expiry}
use key_cloak_sdk.Values.{Num, whole}
use key_cloak_sdk.Values.Json.{
  Members, member, end, string, number, Value, get, string_or_undefined,
}

abbrev given : KeycloakConfigInput
given = record {
  server_url = some (lit "https://k//");
  realm = some (lit "r");
  client_id = some (lit "c");
  client_secret = none;
  scopes = none;
  connect_timeout_ms = none;
  read_timeout_ms = none;
  clock_skew_seconds = none;
  signature_algorithms = none;
  jwks_min_refetch_seconds = none;
  expected_audience = none;
}

abbrev https : Str → Option Str
https s = some (lit "https:")

abbrev answer : Members
answer =
    member (lit "access_token") (string (lit "a"))
      (member (lit "expires_in") (number (whole 60)) end)

abbrev minute : ℕ
minute = 60

abbrev no_number : Value → Num
no_number v = whole 0

define_config_iff_example :
    ((define_config https given ≡ ok (filled given))
      ↔ (IsProper https given × (filled given ≡ filled given)))
    × ((k : ℕ) × (or_default given.server_url [] ≡ (filled given).server_url ++ replicate k 47)
        × ((j : ℕ)
            → length (filled given).server_url ≡ suc j
            → get_elem? (filled given).server_url j ≢ some 47))
define_config_iff_example = define_config_iff https given (filled given)

token_expiry_example :
    (is_expired (token_set_with no_number answer (whole 100) (lit "a")) (whole 150) (whole 10)
      ≡ true)
    ↔ ((minute ≡ 0) ⊎ (100 + minute ≤ 150 + 10))
unfolding token_set_from_response token_set_with non_empty string_or_undefined get str_eq
token_expiry_example =
    token_expiry no_number answer 100 minute 150 10
      (token_set_with no_number answer (whole 100) (lit "a")) refl refl
