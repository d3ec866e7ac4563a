-- ===== src/Lib.antt =====
-- The Node SDK for Keycloak (node/src), the harness application that drives it, and tools of the
-- repository, modelled and proved.
--
-- The program. `KeycloakClient` (client.ts) checks a configuration (config.ts) and holds an
-- `AuthClient` (auth.ts), which discovers the identity provider once, runs the OAuth2 grants over
-- openid-client and checks tokens with `JwtValidator` (jwt.ts). `AdminClient` (admin/index.ts)
-- sends REST requests (admin/http.ts) with a token of `ClientCredentialsTokenProvider`
-- (token-provider.ts); its resources turn failures into the SDK's exceptions (admin/call.ts,
-- errors.ts). Response bodies are read up to a cap (token-response-cap.ts).
--
-- The files. Common and Values hold shared helpers, JavaScript numbers and JSON values; Outcome and
-- Effects hold computations that throw.
--   Errors: node/src/errors.ts.              Config: config.ts, masking.ts.
--   Bearer, Provider: token-provider.ts.     Tokens: tokens.ts.
--   Transport: transport.ts.                 Capped: token-response-cap.ts.
--   AdminPath, Admin.Http: admin/http.ts.    Admin.Call: admin/call.ts.
--   Admin.Users and its neighbours: admin/users.ts, groups.ts, clients.ts, roles.ts, realms.ts.
--   Endpoints: oidc-metadata.ts.             Auth: auth.ts.
--   Jwks, Jwt: jwt.ts.                       Client: client.ts, admin/index.ts.
--   SingleFlight: the pattern that token-provider.ts, auth.ts and client.ts share.
--   HarnessApp: harness/apps/node/server.js, over the SDK as an interface.
--   Ledger: scripts/lib/changelog-ledger.mjs.  Rotation: scripts/changelog-rotate.mjs.
--   RepoConfig: scripts/repo-config.mjs. Canonical has the normal form of a setting, Mirror, Security
--     and Workflows the comparisons, Check the command with its exit code.
--   DependabotAlerts: scripts/check-dependabot-alerts.mjs.
--   CoverageGate: scripts/check-coverage.mjs.
--   JobCondition: the evaluator of conditions in scripts/check-ci-permissions.mjs. Tree has the
--     conditions as trees.
--   InstallMatrix: harness/install/report/install-matrix.mjs, harness/security/verdict.mjs.
--   Tests: the theorems at concrete inputs.
-- A function has the source's name in snake case; a child module Laws, or one named for what it
-- proves, holds the theorems.
--
-- How the code is modelled. A text is the list of its UTF-16 units, or of its bytes where the code
-- has bytes. A number is an exact fraction, an infinity or NaN; rounding beyond 2 ^ 53 is left out,
-- but for the percentages of the coverage gate, whose arithmetic is a parameter. A thrown value is
-- an object with its cause or a value that is no object. Code behind an `await` is a step of its
-- own: the single-flight pattern is a relation of calls, answers and `finally` blocks in any order;
-- an operation of `AuthClient` takes what its `#discover()` comes to as a computation. Platform
-- functions (fetch, URL, JSON, TextDecoder, the clock) and libraries (openid-client, jose, express)
-- are parameters, and so are the answers of gh, git and the file system to the tools, the
-- constructor of `Response` and the JSON middleware of express; a message of a tool is a
-- constructor with the values that its text shows. Times in the backoff are whole ticks of half a
-- millionth of a millisecond, in which the jitter is exact.
--
-- Fuel. The reading loops have one round more than the body has bytes, which is enough since a
-- read takes at least one byte; the theorems on them hold for that fuel, with no case of running
-- out. The rotation of the changelog has a round for each release, and each round moves one at
-- least. The evaluator of conditions has a round for each token.
--
-- Not modelled: the headers of rebuilt `Response` objects, the cancelling of streams after an
-- error in the capped readers, `raw()` of the admin client, the links and the volumes of the
-- changelog, `apply` and `pull` of repo-config.mjs, the rules of check-ci-permissions.mjs, the
-- repository's other scripts, and the SDKs in other languages.
pub mod Common
pub mod Values
pub mod Errors
pub mod Outcome
pub mod Config
pub mod Bearer
pub mod Tokens
pub mod SingleFlight
pub mod Provider
pub mod Transport
pub mod Capped
pub mod AdminPath
pub mod Admin
pub mod Jwks
pub mod Effects
pub mod Endpoints
pub mod Jwt
pub mod Auth
pub mod Client
pub mod Ledger
pub mod InstallMatrix
pub mod HarnessApp
pub mod RepoConfig
pub mod JobCondition
pub mod Rotation
pub mod CoverageGate
pub mod DependabotAlerts
mod Tests
