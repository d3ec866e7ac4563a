-- ===== src/Config/Checks.antt =====
-- What `defineConfig` accepts, and what holds of every configuration that it returns.
use key_cloak_sdk.Common.{
  ℕ, suc, ◌≤◌, ◌<◌, ◌≡◌, ◌≢◌, ◌↔◌, refl, true, false, some, none, Option, List, [], ◌∷◌, ◌++◌,
  replicate, Str, lit, arith, ◌⊎◌, inl, inr, str_eq_iff, or_default, length, get_elem?, str_eq_refl,
  Option-cases,
}
use key_cloak_sdk.Values.{Num, whole}
use key_cloak_sdk.Outcome.{ok}
use key_cloak_sdk.Config.{
  KeycloakConfig, KeycloakConfigInput, is_missing, require_present, timeout_in_range, not_negative,
  algorithms_given, with_defaults, require_absolute_http_url, define_config, strip_trailing_slashes,
}
use key_cloak_sdk.Config.Slashes.{strip_trailing_slashes_lem}
use key_cloak_sdk.Config.Ranges.{
  IsTimeout, IsDuration, timeout_sound, IsDuration-sound, algorithms_iff, timeout_where_given,
  duration_where_given, filled,
}
use key_cloak_sdk.Config.Blank.{HasText, is_missing_iff}

module _ (protocol : Str → Option Str) where
  abbrev pub IsHttp : Str → Type 0
  IsHttp url = (protocol url ≡ some (lit "http:")) ⊎ (protocol url ≡ some (lit "https:"))

  http_sound : (url : Str) → require_absolute_http_url protocol url ≡ ok tt → IsHttp url
  unfolding require_absolute_http_url
  http_sound url h = elim (Option-cases (protocol url)) [
    | inl missing ↦ ground (arith, missing)
    | inr (p, found) ↦
        ground (arith, found, str_eq_iff p (lit "http:"), str_eq_iff p (lit "https:"))
  ]

  -- The input passes every check.
  pub record Accepted (i : KeycloakConfigInput) : Type 0 where
    pub server_url : is_missing i.server_url ≡ false
    pub realm : is_missing i.realm ≡ false
    pub client_id : is_missing i.client_id ≡ false
    pub http : IsHttp (strip_trailing_slashes (or_default i.server_url []))
    pub algorithms : algorithms_given i.signature_algorithms ≡ true
    pub connect : timeout_in_range i.connect_timeout_ms ≡ true
    pub read : timeout_in_range i.read_timeout_ms ≡ true
    pub skew : not_negative i.clock_skew_seconds ≡ true
    pub refetch : not_negative i.jwks_min_refetch_seconds ≡ true

  define_config_inverse :
      (i : KeycloakConfigInput) {c : KeycloakConfig}
      → define_config protocol i ≡ ok c
      → Accepted i × (c ≡ with_defaults i)
  unfolding define_config require_present
  define_config_inverse i h =
      ground (arith, http_sound (strip_trailing_slashes (or_default i.server_url [])))

  http_complete : (url : Str) → IsHttp url → require_absolute_http_url protocol url ≡ ok tt
  unfolding require_absolute_http_url
  http_complete url h = ground (arith, h, str_eq_refl (lit "http:"), str_eq_refl (lit "https:"))

  define_config_accepts :
      (i : KeycloakConfigInput) → Accepted i → define_config protocol i ≡ ok (with_defaults i)
  unfolding define_config require_present
  define_config_accepts i a =
      ground (arith, http_complete (strip_trailing_slashes (or_default i.server_url [])) a.http)

  -- What `defineConfig` asks of its input.
  pub record IsProper (i : KeycloakConfigInput) : Type 0 where
    pub server_url : HasText i.server_url
    pub realm : HasText i.realm
    pub client_id : HasText i.client_id
    pub http : IsHttp (strip_trailing_slashes (or_default i.server_url []))
    pub algorithms : i.signature_algorithms ≢ some []
    pub connect : (v : Num) → i.connect_timeout_ms ≡ some v → IsTimeout v
    pub read : (v : Num) → i.read_timeout_ms ≡ some v → IsTimeout v
    pub skew : (v : Num) → i.clock_skew_seconds ≡ some v → IsDuration v
    pub refetch : (v : Num) → i.jwks_min_refetch_seconds ≡ some v → IsDuration v

  IsProper-of_Accepted : (i : KeycloakConfigInput) → Accepted i → IsProper i
  IsProper-of_Accepted i a = record {
    server_url = (is_missing_iff i.server_url).0 a.server_url;
    realm = (is_missing_iff i.realm).0 a.realm;
    client_id = (is_missing_iff i.client_id).0 a.client_id;
    http = a.http;
    algorithms = (algorithms_iff i.signature_algorithms).0 a.algorithms;
    connect = λ v e. timeout_sound v (rw e at a.connect);
    read = λ v e. timeout_sound v (rw e at a.read);
    skew = λ v e. IsDuration-sound v (rw e at a.skew);
    refetch = λ v e. IsDuration-sound v (rw e at a.refetch);
  }

  Accepted-of_IsProper : (i : KeycloakConfigInput) → IsProper i → Accepted i
  Accepted-of_IsProper i h = record {
    server_url = (is_missing_iff i.server_url).1 h.server_url;
    realm = (is_missing_iff i.realm).1 h.realm;
    client_id = (is_missing_iff i.client_id).1 h.client_id;
    http = h.http;
    algorithms = (algorithms_iff i.signature_algorithms).1 h.algorithms;
    connect = timeout_where_given i.connect_timeout_ms h.connect;
    read = timeout_where_given i.read_timeout_ms h.read;
    skew = duration_where_given i.clock_skew_seconds h.skew;
    refetch = duration_where_given i.jwks_min_refetch_seconds h.refetch;
  }

  -- `defineConfig` returns `c` exactly when each of the three required fields has a character that is
  -- no white space, the address without its trailing slashes parses with the scheme http or https,
  -- the list of algorithms is missing or not empty, each timeout given is above 0 and at most
  -- 2147483647, each duration given is finite and not negative, and `c` is the input, its address
  -- without those slashes, with 10000 and 30000 ms, 30 s and 30 s, RS256 and no scopes for what is
  -- missing. The address that is kept ends in no slash, and only slashes are cut off.
  pub define_config_iff :
      (i : KeycloakConfigInput) (c : KeycloakConfig)
      → ((define_config protocol i ≡ ok c) ↔ (IsProper i × (c ≡ filled i)))
        × ((k : ℕ) × (or_default i.server_url [] ≡ (filled i).server_url ++ replicate k 47)
            × ((j : ℕ)
                → length (filled i).server_url ≡ suc j
                → get_elem? (filled i).server_url j ≢ some 47))
  unfolding with_defaults
  define_config_iff i c = (
    (
      λ h. let (a, e) = define_config_inverse i h in (IsProper-of_Accepted i a, e),
      λ t. rw (t.1) (define_config_accepts i (Accepted-of_IsProper i t.0)),
    ),
    strip_trailing_slashes_lem (or_default i.server_url []),
  )

  pub record IsValid (c : KeycloakConfig) : Type 0 where
    pub realm : is_missing (some c.realm) ≡ false
    pub client_id : is_missing (some c.client_id) ≡ false
    pub http : IsHttp c.server_url
    pub no_slash : (j : ℕ) → length c.server_url ≡ suc j → get_elem? c.server_url j ≢ some 47
    pub algorithms : c.signature_algorithms ≢ []
    pub connect : IsTimeout c.connect_timeout_ms
    pub read : IsTimeout c.read_timeout_ms
    pub skew : IsDuration c.clock_skew_seconds
    pub refetch : IsDuration c.jwks_min_refetch_seconds

  timeout_default :
      (v : Option Num) (n : ℕ)
      → 0 < n
      → n ≤ 2147483647
      → timeout_in_range v ≡ true
      → IsTimeout (or_default v (whole n))
  timeout_default none n p q h = (n, 0, refl, p, omega arith)
  timeout_default (some v) n p q h = timeout_sound v h

  IsDuration-default :
      (v : Option Num) (n : ℕ) → not_negative v ≡ true → IsDuration (or_default v (whole n))
  IsDuration-default none n h = (n, 0, refl)
  IsDuration-default (some v) n h = IsDuration-sound v h

  present_default :
      (v : Option Str) → is_missing v ≡ false → is_missing (some (or_default v [])) ≡ false
  unfolding is_missing
  present_default none h = cc
  present_default (some s) h = h

  algorithms_default :
      (v : Option (List Str)) → algorithms_given v ≡ true → or_default v (lit "RS256" ∷ []) ≢ []
  unfolding algorithms_given
  algorithms_default none h e = cc
  algorithms_default (some []) h e = cc
  algorithms_default (some (_ ∷ _)) h e = cc

  with_defaults-IsValid : (i : KeycloakConfigInput) → Accepted i → IsValid (with_defaults i)
  unfolding with_defaults
  with_defaults-IsValid i a = record {
    realm = present_default i.realm a.realm;
    client_id = present_default i.client_id a.client_id;
    http = a.http;
    no_slash = (strip_trailing_slashes_lem (or_default i.server_url [])).2;
    algorithms = algorithms_default i.signature_algorithms a.algorithms;
    connect = timeout_default i.connect_timeout_ms 10000 (omega arith) (omega arith) a.connect;
    read = timeout_default i.read_timeout_ms 30000 (omega arith) (omega arith) a.read;
    skew = IsDuration-default i.clock_skew_seconds 30 a.skew;
    refetch = IsDuration-default i.jwks_min_refetch_seconds 30 a.refetch;
  }

  -- Every configuration that `defineConfig` returns has a realm and a client id with more than
  -- white space in them, an http or https address with no slash at its end, at least one signature
  -- algorithm, finite timeouts above 0 and of at most 2147483647 ms, and finite durations that are
  -- not negative, the defaults included.
  pub define_config-IsValid :
      (i : KeycloakConfigInput) (c : KeycloakConfig) → define_config protocol i ≡ ok c → IsValid c
  define_config-IsValid i c h =
      let (a, e) = define_config_inverse i h in rw e (with_defaults-IsValid i a)
