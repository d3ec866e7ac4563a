-- ===== src/Auth/Request.antt =====
-- node/src/auth.ts: the start of a PKCE flow, and what is logged of it.
use key_cloak_sdk.Common.{◌≡◌, refl, some, List, [], ◌∷◌, ◌++◌, Str, lit, or_default}
use key_cloak_sdk.Values.Json.{Value, string, object, member, end}
use key_cloak_sdk.Config.{KeycloakConfig, mask}
use key_cloak_sdk.Endpoints.{oidc_endpoints}
use key_cloak_sdk.Auth.{scope_option}

pub record AuthorizationRequest : Type 0 where
  pub url : Str
  pub code_verifier : Str
  pub state : Str
  pub nonce : Str

-- `#masked()`, which `toString` and `util.inspect` return.
unfoldable pub masked_text : AuthorizationRequest → Str
unfolding mask
masked_text r =
    lit "AuthorizationRequest { url: "
    ++ (r.url
        ++ (lit ", state: "
            ++ (r.state
                ++ (lit ", nonce: "
                    ++ (r.nonce
                        ++ (lit ", codeVerifier: "
                            ++ (mask (some r.code_verifier) ++ lit " }")))))))

-- `toJSON()`
unfoldable pub to_json : AuthorizationRequest → Value
unfolding mask
to_json r = object (
    member (lit "url") (string r.url) (
      member (lit "state") (string r.state) (
        member (lit "nonce") (string r.nonce)
          (member (lit "codeVerifier") (string (mask (some r.code_verifier))) end))))

-- The query of the authorization address.
unfoldable pub authorization_query : KeycloakConfig → Str → Str → Str → Str → List (Str × Str)
authorization_query cfg redirect_uri challenge state nonce =
    (lit "response_type", lit "code")
    ∷ (lit "client_id", cfg.client_id)
    ∷ (lit "redirect_uri", redirect_uri)
    ∷ (lit "scope", or_default (scope_option cfg.scopes) (lit "openid"))
    ∷ (lit "state", state)
    ∷ (lit "nonce", nonce)
    ∷ (lit "code_challenge", challenge)
    ∷ (lit "code_challenge_method", lit "S256")
    ∷ []

-- `createAuthorizationRequest(redirectUri)`. `random`, `state` and `nonce` are the base64url forms of
-- the bytes drawn, `sha256` is the base64url form of the digest, `href` writes the address.
unfoldable pub create_authorization_request :
    (Str → Str)
    → (Str → List (Str × Str) → Str)
    → KeycloakConfig
    → Str
    → Str
    → Str
    → Str
    → AuthorizationRequest
unfolding authorization_query
create_authorization_request sha256 href cfg redirect_uri random state nonce = record {
  url =
      href (oidc_endpoints cfg).authorization
        (authorization_query cfg redirect_uri (sha256 random) state nonce);
  code_verifier = random;
  state = state;
  nonce = nonce;
}

-- Two verifiers with the same digest give requests whose text and JSON form are the same: of the
-- verifier only the challenge is logged. The verifier itself is what the caller gets.
pub authorization_request_hides :
    (sha256 : Str → Str) (href : Str → List (Str × Str) → Str) (cfg : KeycloakConfig)
    (redirect_uri random other state nonce : Str)
    → sha256 random ≡ sha256 other
    → let r = create_authorization_request sha256 href cfg redirect_uri random state nonce in
      let s = create_authorization_request sha256 href cfg redirect_uri other state nonce in
      (masked_text r ≡ masked_text s) × (to_json r ≡ to_json s) × (r.code_verifier ≡ random)
unfolding masked_text to_json create_authorization_request
authorization_request_hides sha256 href cfg redirect_uri random other state nonce h =
    (rw h refl, rw h refl, refl)
