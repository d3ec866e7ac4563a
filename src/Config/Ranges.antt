-- ===== src/Config/Ranges.antt =====
-- The ranges of the timeouts and durations, and the defaults.
use key_cloak_sdk.Common.{
  ℕ, suc, ◌*◌, ◌≤◌, ◌<◌, ◌≡◌, ◌≢◌, ◌↔◌, refl, true, some, none, Option, List, [], ◌∷◌, Str, lit,
  arith, or_default,
}
use key_cloak_sdk.Values.{Num, finite, pos, negsuc, whole}
use key_cloak_sdk.Config.{
  KeycloakConfig, KeycloakConfigInput, timeout_in_range, not_negative, algorithms_given,
  strip_trailing_slashes,
}

-- A positive fraction of at most 2147483647.
abbrev pub IsTimeout : Num → Type 0
IsTimeout v = (n d : ℕ) × (v ≡ finite (pos n) d) × (0 < n) × (n ≤ 2147483647 * suc d)

-- A fraction that is not negative.
abbrev pub IsDuration : Num → Type 0
IsDuration v = (n d : ℕ) × (v ≡ finite (pos n) d)

pub timeout_sound : (v : Num) → timeout_in_range (some v) ≡ true → IsTimeout v
unfolding timeout_in_range
timeout_sound (finite (pos n) d) h = (n, d, refl, grind arith, grind arith)
timeout_sound (finite (negsuc n) d) h = absurd (grind arith)
timeout_sound _ h = cc

timeout_complete : (v : Num) → IsTimeout v → timeout_in_range (some v) ≡ true
unfolding timeout_in_range
timeout_complete v (n, d, e, low, high) = rw e (grind arith)

IsDuration-complete : (v : Num) → IsDuration v → not_negative (some v) ≡ true
unfolding not_negative
IsDuration-complete v (n, d, e) = rw e (grind arith)

pub IsDuration-sound : (v : Num) → not_negative (some v) ≡ true → IsDuration v
unfolding not_negative
IsDuration-sound (finite (pos n) d) h = (n, d, refl)
IsDuration-sound (finite (negsuc n) d) h = absurd (grind arith)
IsDuration-sound _ h = cc

pub algorithms_iff : (o : Option (List Str)) → (algorithms_given o ≡ true) ↔ (o ≢ some [])
unfolding algorithms_given
algorithms_iff none = (λ h e. cc, λ h. refl)
algorithms_iff (some []) = (λ h. cc, λ h. absurd (h refl))
algorithms_iff (some (a ∷ others)) = (λ h e. cc, λ h. refl)

pub timeout_where_given :
    (o : Option Num) → ((v : Num) → o ≡ some v → IsTimeout v) → timeout_in_range o ≡ true
unfolding timeout_in_range
timeout_where_given none h = refl
timeout_where_given (some v) h = timeout_complete v (h v refl)

pub duration_where_given :
    (o : Option Num) → ((v : Num) → o ≡ some v → IsDuration v) → not_negative o ≡ true
unfolding not_negative
duration_where_given none h = refl
duration_where_given (some v) h = IsDuration-complete v (h v refl)

-- The input with the defaults for what is missing.
abbrev pub filled : KeycloakConfigInput → KeycloakConfig
filled i = record {
  server_url = strip_trailing_slashes (or_default i.server_url []);
  realm = or_default i.realm [];
  client_id = or_default i.client_id [];
  client_secret = i.client_secret;
  scopes = or_default i.scopes [];
  connect_timeout_ms = or_default i.connect_timeout_ms (whole 10000);
  read_timeout_ms = or_default i.read_timeout_ms (whole 30000);
  clock_skew_seconds = or_default i.clock_skew_seconds (whole 30);
  signature_algorithms = or_default i.signature_algorithms (lit "RS256" ∷ []);
  jwks_min_refetch_seconds = or_default i.jwks_min_refetch_seconds (whole 30);
  expected_audience = i.expected_audience;
}
