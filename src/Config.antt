-- ===== src/Config.antt =====
-- node/src/config.ts and masking.ts: the configuration, its checks and its masked form. The
-- URL parser of the platform is a parameter.
pub mod Slashes
pub mod Checks
pub mod Blank
pub mod Ranges
pub mod Masking
use key_cloak_sdk.Common.{
  ℕ, zero, suc, ◌-◌, Bool, true, false, ◌&&◌, ◌||◌, not, Option, none, some, List, [], ◌∷◌, ◌++◌,
  Str, lit, str_eq, length, take, get_elem?, leb, ltb, if◌then◌else◌, ◌==◌, or_default, all,
}
use mathlib.Core.List.{reverse}
use key_cloak_sdk.Values.{Num, whole, is_finite, num_lt, num_le}
use key_cloak_sdk.Errors.{Thrown, sdk_error, SdkError, no_cause}
use key_cloak_sdk.Outcome.{Outcome, ok, raise, require, ◌>>=◌, ◌>>◌}

pub record KeycloakConfig : Type 0 where
  pub server_url : Str
  pub realm : Str
  pub client_id : Str
  pub client_secret : Option Str
  pub scopes : List Str
  pub connect_timeout_ms : Num
  pub read_timeout_ms : Num
  pub clock_skew_seconds : Num
  pub signature_algorithms : List Str
  pub jwks_min_refetch_seconds : Num
  pub expected_audience : Option Str

-- A JavaScript caller may leave a required field out too.
pub record KeycloakConfigInput : Type 0 where
  pub server_url : Option Str
  pub realm : Option Str
  pub client_id : Option Str
  pub client_secret : Option Str
  pub scopes : Option (List Str)
  pub connect_timeout_ms : Option Num
  pub read_timeout_ms : Option Num
  pub clock_skew_seconds : Option Num
  pub signature_algorithms : Option (List Str)
  pub jwks_min_refetch_seconds : Option Num
  pub expected_audience : Option Str

-- `mask(value)`
unfoldable pub mask : Option Str → Str
mask _ = lit "***"

abbrev is_slash_at : Option ℕ → Bool
is_slash_at none = false
is_slash_at (some c) = c == 47

-- The loop of `stripTrailingSlashes`: the end that is left.
unfoldable pub strip_end : Str → ℕ → ℕ
strip_end s zero = zero
strip_end s (suc end) = if is_slash_at (get_elem? s end) then strip_end s end else suc end

-- `stripTrailingSlashes(s)`
unfoldable pub strip_trailing_slashes : Str → Str
unfolding strip_end
strip_trailing_slashes s = take (strip_end s (length s)) s

-- The white space and line ends that `trim()` takes off.
unfoldable pub is_space : ℕ → Bool
is_space c =
    (leb 9 c && leb c 13)
    || c == 32
    || c == 160
    || c == 5760
    || (leb 8192 c && leb c 8202)
    || c == 8232
    || c == 8233
    || c == 8239
    || c == 8287
    || c == 12288
    || c == 65279

unfoldable pub trim_start : Str → Str
unfolding is_space
trim_start [] = []
trim_start (c ∷ s) = if is_space c then trim_start s else c ∷ s

-- `s.trim()`
unfoldable pub trim : Str → Str
unfolding trim_start
trim s = reverse (trim_start (reverse (trim_start s)))

-- `!v || v.trim().length === 0`; the empty text is blank too.
unfoldable pub is_missing : Option Str → Bool
unfolding trim
is_missing none = true
is_missing (some s) = length (trim s) == 0

abbrev config_error : Str → Thrown
config_error message = sdk_error SdkError.config message no_cause

-- One round of the loop over the required keys.
unfoldable pub require_present : Str → Option Str → Outcome (Unit {0})
require_present key v =
    require (not (is_missing v)) (config_error (lit "Missing required config: " ++ key))

-- One round of the loop over the timeouts.
unfoldable pub timeout_in_range : Option Num → Bool
unfolding is_finite num_lt num_le
timeout_in_range none = true
timeout_in_range (some v) = is_finite v && (num_lt (whole 0) v && num_le v (whole 2147483647))

-- One round of the loop over the durations in seconds.
unfoldable pub not_negative : Option Num → Bool
unfolding is_finite num_le
not_negative none = true
not_negative (some v) = is_finite v && num_le (whole 0) v

unfoldable pub algorithms_given : Option (List Str) → Bool
algorithms_given none = true
algorithms_given (some []) = false
algorithms_given (some (_ ∷ _)) = true

-- The object literal that `defineConfig` builds.
unfoldable pub with_defaults : KeycloakConfigInput → KeycloakConfig
unfolding strip_trailing_slashes
with_defaults input = record {
  server_url = strip_trailing_slashes (or_default input.server_url []);
  realm = or_default input.realm [];
  client_id = or_default input.client_id [];
  client_secret = input.client_secret;
  scopes = or_default input.scopes [];
  connect_timeout_ms = or_default input.connect_timeout_ms (whole 10000);
  read_timeout_ms = or_default input.read_timeout_ms (whole 30000);
  clock_skew_seconds = or_default input.clock_skew_seconds (whole 30);
  signature_algorithms = or_default input.signature_algorithms (lit "RS256" ∷ []);
  jwks_min_refetch_seconds = or_default input.jwks_min_refetch_seconds (whole 30);
  expected_audience = input.expected_audience;
}

-- The `masked` closure behind `toJSON` and `util.inspect`.
unfoldable pub masked : KeycloakConfig → KeycloakConfig
unfolding mask
masked c = record c {
  client_secret = elim c.client_secret [ none ↦ none | some s ↦ some (mask (some s)) ];
}

-- `protocol` is `new URL(value).protocol`, and `none` where the constructor throws.
module _ (protocol : Str → Option Str) where
  unfoldable pub require_absolute_http_url : Str → Outcome (Unit {0})
  require_absolute_http_url value = elim (protocol value) [
    | none ↦ raise (config_error (lit "serverUrl must be an absolute http(s) URL: unparseable"))
    | some p ↦ require (str_eq p (lit "http:") || str_eq p (lit "https:")) (
        config_error
          (lit "serverUrl must be an absolute http(s) URL: scheme must be http or https"))
  ]

  -- `defineConfig(input)`
  unfoldable pub define_config : KeycloakConfigInput → Outcome KeycloakConfig
  define_config input = do
    require_present (lit "serverUrl") input.server_url
    require_present (lit "realm") input.realm
    require_present (lit "clientId") input.client_id
    require_absolute_http_url (strip_trailing_slashes (or_default input.server_url []))
    require (algorithms_given input.signature_algorithms)
        (config_error (lit "signatureAlgorithms must be non-empty"))
    require (timeout_in_range input.connect_timeout_ms)
        (config_error (lit "connectTimeoutMs must be > 0 and <= 2147483647"))
    require (timeout_in_range input.read_timeout_ms)
        (config_error (lit "readTimeoutMs must be > 0 and <= 2147483647"))
    require (not_negative input.clock_skew_seconds)
        (config_error (lit "clockSkewSeconds must be >= 0"))
    require (not_negative input.jwks_min_refetch_seconds)
        (config_error (lit "jwksMinRefetchSeconds must be >= 0"))
    ok (with_defaults input)
