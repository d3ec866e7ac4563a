-- ===== src/Endpoints.antt =====
-- node/src/oidc-metadata.ts: the addresses of a realm.
use key_cloak_sdk.Common.{◌++◌, Str, lit}
use key_cloak_sdk.Config.{KeycloakConfig}

pub record OidcEndpoints : Type 0 where
  pub issuer : Str
  pub token : Str
  pub authorization : Str
  pub introspection : Str
  pub end_session : Str
  pub jwks : Str

-- `oidcEndpoints(config)`
unfoldable pub oidc_endpoints : KeycloakConfig → OidcEndpoints
oidc_endpoints config =
    let issuer = config.server_url ++ (lit "/realms/" ++ config.realm) in
    let base = issuer ++ lit "/protocol/openid-connect" in
    record {
      issuer = issuer;
      token = base ++ lit "/token";
      authorization = base ++ lit "/auth";
      introspection = base ++ lit "/token/introspect";
      end_session = base ++ lit "/logout";
      jwks = base ++ lit "/certs";
    }
