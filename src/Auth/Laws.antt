-- ===== src/Auth/Laws.antt =====
-- What `exchangeCode` of node/src/auth.ts returns and raises.
use key_cloak_sdk.Common.{
  ◌≡◌, refl, Option, none, some, ◌++◌, Str, lit, arith, ◌⊎◌, inl, inr, Bool-cases,
}
use key_cloak_sdk.Values.Json.{Members}
use key_cloak_sdk.Errors.{Thrown, SdkError, sdk, sdk_error}
use key_cloak_sdk.Errors.Mapping.{class_of}
use key_cloak_sdk.Outcome.{Outcome, ok, raise, Outcome-cases}
use key_cloak_sdk.Config.{KeycloakConfig}
use key_cloak_sdk.Tokens.{TokenSet, token_set_from_response}
use key_cloak_sdk.Jwt.{JwtValidator, ValidatedToken, with_audience}
use key_cloak_sdk.Effects.{Eff, attempt, throw}
use key_cloak_sdk.Endpoints.{oidc_endpoints}
use key_cloak_sdk.Auth.{
  Platform, auth_error, token_set, grant, verify_id_token, verify_where_asked, exchange_code,
  missing_id_token, invalid_id_token, reason_of, run_discovery, discovery_request, discovery_error,
}
use key_cloak_sdk.Transport.{is_transport_error}

-- The validator with the client's own id for its audience, over the same key source.
abbrev pub for_client : KeycloakConfig → JwtValidator → JwtValidator
for_client cfg v = record { keys = v.keys; opts = record v.opts { audience = cfg.client_id } }

error_class :
    (x : Thrown)
    → (class_of (discovery_error x) ≡ sdk SdkError.transport)
      ⊎ (class_of (discovery_error x) ≡ sdk SdkError.auth)
unfolding discovery_error sdk_error
error_class x = elim (Bool-cases (is_transport_error x)) [
  | inl transport ↦ inl (rw transport refl)
  | inr other ↦ inr (rw other refl)
]

raise_inj : {A : Type 0} {x y : Thrown} → ◌≡◌ {A = Outcome A} (raise x) (raise y) → x ≡ y
raise_inj h = cc

raised_class :
    {W A : Type 0} (m : Eff W A) (w : W) (e : Thrown)
    → (attempt m (λ x. throw (discovery_error x)) w).0 ≡ raise e
    → (class_of e ≡ sdk SdkError.transport) ⊎ (class_of e ≡ sdk SdkError.auth)
raised_class m w e h = elim (Outcome-cases (m w).0) [
  | inl (a, q) ↦ absurd (ground (arith, h, q))
  | inr (x, q) ↦
      let same : discovery_error x ≡ e = raise_inj (rw q at h) in rw (← same) (error_class x)
]

module _ {W C : Type 0} (p : Platform W C) (cfg : KeycloakConfig) (validator : JwtValidator) where
  -- A grant hands on the token set of its response, or raises a `KeycloakAuthError`.
  grant_lem :
      (fn : Eff W Members) (message : Str) (w : W)
      → ((response : Members) × (tokens : TokenSet) × ((fn w).0 ≡ ok response)
          × (token_set_from_response p.to_number response (p.now_seconds (fn w).1) ≡ ok tokens)
          × (grant p cfg validator fn message w ≡ (ok tokens, (fn w).1)))
        ⊎ ((e : Thrown) × ((grant p cfg validator fn message w).0 ≡ raise e)
            × (class_of e ≡ sdk SdkError.auth))
  unfolding grant sdk_error
  grant_lem fn message w = elim (Outcome-cases (fn w).0) [
    | inr (e, q) ↦
        inr (auth_error (message ++ (lit ": " ++ reason_of e)) e, rw (q, grant) refl, refl)
    | inl (response, q) ↦
        elim (Outcome-cases
          (token_set_from_response p.to_number response (p.now_seconds (fn w).1))) [
            | inl (tokens, r) ↦ inl (response, tokens, q, r, rw (q, token_set, r, grant) refl)
            | inr (e, r) ↦ inr (
              auth_error (message ++ (lit ": " ++ reason_of e)) e,
              rw (q, token_set, r, grant) refl,
              refl,
            )
          ]
  ]

  -- An id token is accepted only by the validator.
  verify_lem :
      (id_token : Option Str) (w : W)
      → ((s : Str) × (t : ValidatedToken) × (id_token ≡ some s)
          × ((p.validate (for_client cfg validator) s w).0 ≡ ok t)
          × ((verify_id_token p cfg validator id_token w).0 ≡ ok tt))
        ⊎ ((e : Thrown) × ((verify_id_token p cfg validator id_token w).0 ≡ raise e)
            × (class_of e ≡ sdk SdkError.auth))
  unfolding verify_id_token missing_id_token invalid_id_token sdk_error with_audience
  verify_lem none w = inr (missing_id_token, refl, refl)
  verify_lem (some s) w = elim (Outcome-cases (p.validate (for_client cfg validator) s w).0) [
    | inl (t, q) ↦ inl (s, t, refl, q, rw (q, verify_id_token, with_audience) refl)
    | inr (e, q) ↦ inr (invalid_id_token e, rw (q, verify_id_token, with_audience) refl, refl)
  ]

  -- The exchange behind a discovery that gave `config` and an address that could be parsed.
  exchanged :
      (discover : Eff W C) (config : C) (code redirect_uri code_verifier nonce url : Str) (w : W)
      → (discover w).0 ≡ ok config
      → p.parse_url redirect_uri ≡ ok url
      → let ask =
          p.authorization_code_grant config url code
            (oidc_endpoints cfg).issuer
            code_verifier
            (some nonce)
            (discover w).1 in
        let o =
          (exchange_code p cfg validator discover code redirect_uri code_verifier
            (some nonce)
            w).0 in
        ((response : Members) × (tokens : TokenSet) × (id_token : Str) × (t : ValidatedToken)
          × (ask.0 ≡ ok response)
          × (token_set_from_response p.to_number response (p.now_seconds ask.1) ≡ ok tokens)
          × (tokens.id_token ≡ some id_token)
          × ((p.validate (for_client cfg validator) id_token ask.1).0 ≡ ok t)
          × (o ≡ ok tokens))
        ⊎ ((e : Thrown) × (o ≡ raise e) × (class_of e ≡ sdk SdkError.auth))
  unfolding exchange_code verify_where_asked
  exchanged discover config code redirect_uri code_verifier nonce url w g h =
      let fn =
        p.authorization_code_grant config url code (oidc_endpoints cfg).issuer code_verifier
          (some nonce) in
      let behind = (discover w).1 in
      elim (grant_lem fn (lit "Authorization code exchange failed") behind) [
        | inr (e, q, auth) ↦ inr (e, rw (g, h, q, exchange_code) refl, auth)
        | inl (response, tokens, came, made, q) ↦ elim (verify_lem tokens.id_token (fn behind).1) [
          | inr (e, r, auth) ↦
              inr (e, rw (g, h, q, verify_where_asked, r, exchange_code) refl, auth)
          | inl (s, t, has, accepted, r) ↦ inl (
            response,
            tokens,
            s,
            t,
            came,
            made,
            has,
            accepted,
            rw (g, h, q, verify_where_asked, r, exchange_code) refl,
          )
        ]
      ]

  -- What `#runDiscovery()` raises is one of the SDK's two exceptions.
  discovery_class :
      (w : W) (e : Thrown)
      → (run_discovery p cfg validator w).0 ≡ raise e
      → (class_of e ≡ sdk SdkError.transport) ⊎ (class_of e ≡ sdk SdkError.auth)
  unfolding run_discovery
  discovery_class w e h = raised_class (p.discovery (discovery_request p cfg validator)) w e h

  -- A code exchange that was given a nonce ends in one of four ways. The discovery failed, and what
  -- it raised, a `KeycloakTransportError` or a `KeycloakAuthError` where `#runDiscovery()` raised it,
  -- is passed on with nothing else done; or the redirect address cannot be parsed, and
  -- that is passed on; or it raises a `KeycloakAuthError`; or it returns tokens, and then these are
  -- the token set of the response to the grant that was asked for with this code, this PKCE verifier
  -- and this nonce expected, and they carry an id token that the validator, asked behind that grant
  -- and with the client's own id for the audience, has accepted.
  pub exchange_code_lem :
      (discover : Eff W C) (code redirect_uri code_verifier nonce : Str) (w : W)
      → let called =
          exchange_code p cfg validator discover code redirect_uri code_verifier (some nonce) w in
        ((e : Thrown) × ((discover w).0 ≡ raise e)
          × (called ≡ (raise e, (discover w).1))
          × ((run_discovery p cfg validator w).0 ≡ raise e
              → (class_of e ≡ sdk SdkError.transport) ⊎ (class_of e ≡ sdk SdkError.auth)))
        ⊎ ((e : Thrown) × (p.parse_url redirect_uri ≡ raise e)
            × (called ≡ (raise e, (discover w).1)))
        ⊎ ((config : C) × (url : Str) × ((discover w).0 ≡ ok config)
            × (p.parse_url redirect_uri ≡ ok url)
            × (let ask =
                  p.authorization_code_grant config url code
                    (oidc_endpoints cfg).issuer
                    code_verifier
                    (some nonce)
                    (discover w).1 in
                ((response : Members) × (tokens : TokenSet) × (id_token : Str)
                  × (t : ValidatedToken) × (ask.0 ≡ ok response)
                  × (token_set_from_response p.to_number response (p.now_seconds ask.1) ≡ ok tokens)
                  × (tokens.id_token ≡ some id_token)
                  × ((p.validate (for_client cfg validator) id_token ask.1).0 ≡ ok t)
                  × (called.0 ≡ ok tokens))
                ⊎ ((e : Thrown) × (called.0 ≡ raise e) × (class_of e ≡ sdk SdkError.auth))))
  unfolding exchange_code
  exchange_code_lem discover code redirect_uri code_verifier nonce w =
      elim (Outcome-cases (discover w).0) [
        | inr (e, g) ↦ inl (e, g, rw (g, exchange_code) refl, λ h. discovery_class w e h)
        | inl (config, g) ↦ elim (Outcome-cases (p.parse_url redirect_uri)) [
          | inr (e, h) ↦ inr (inl (e, h, rw (g, h, exchange_code) refl))
          | inl (url, h) ↦ inr (
              inr (
                config,
                url,
                g,
                h,
                exchanged discover config code redirect_uri code_verifier nonce url w g h,
              ))
        ]
      ]
