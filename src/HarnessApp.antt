-- ===== src/HarnessApp.antt =====
-- harness/apps/node/server.js: the HTTP application that the harness drives the SDK through. The
-- SDK is an interface. `express.json()`, a package's middleware, is a parameter by what it makes of a
-- request: the parsed body that it hands to the handler, or an answer of its own.
pub mod Session
pub mod Admin
pub mod Laws
use key_cloak_sdk.Common.{
  ℕ, zero, Bool, true, false, Option, none, some, List, [], ◌∷◌, ◌++◌, Str, lit, if◌then◌else◌,
}
use key_cloak_sdk.Values.{Num}
use key_cloak_sdk.Values.Json.{
  Value, undefined, null, boolean, number, string, array, object, Members, end, member, field,
}
use key_cloak_sdk.Errors
use key_cloak_sdk.Errors.{Thrown, other, SdkError, sdk, ErrorClass, type_error, is_a, no_cause}
use key_cloak_sdk.Outcome
use key_cloak_sdk.Outcome.{Outcome, ok, raise}
use key_cloak_sdk.Tokens.{TokenSet}
use key_cloak_sdk.Jwt.{ValidatedToken}
use key_cloak_sdk.Auth.{IntrospectionResult}
use key_cloak_sdk.Auth.Request.{AuthorizationRequest}
use key_cloak_sdk.Admin.Http.{is_truthy}
use key_cloak_sdk.Effects.{Eff, ◌>>=◌, pure, throw, attempt}

-- The operations of the SDK that the application calls, as a JavaScript caller reaches them. The
-- operations of the admin API stand behind `await kc.admin()`. `post_token` is the request to the
-- token endpoint and `resp.json()`, with `resp.ok`.
pub record Sdk (W : Type 0) : Type 0 where
  pub client_credentials_token : Eff W TokenSet
  pub validate : Value → Eff W ValidatedToken
  pub introspect : Value → Eff W IntrospectionResult
  pub refresh : Value → Eff W TokenSet
  pub logout : Value → Eff W (Unit {0})
  pub create_authorization_request : Value → Outcome AuthorizationRequest
  pub post_token : List (Str × Value) → Eff W (Bool × Value)
  pub admin : Eff W (Unit {0})
  pub users_create : Members → Eff W Str
  pub users_get : Str → Eff W Value
  pub users_search : Value → ℕ → ℕ → Eff W Value
  pub users_delete : Str → Eff W (Unit {0})
  pub clients_create : Members → Eff W Str
  pub clients_get : Str → Eff W Value
  pub clients_delete : Str → Eff W (Unit {0})
  pub roles_create : Members → Eff W (Unit {0})
  pub roles_get : Str → Eff W Value
  pub roles_delete : Str → Eff W (Unit {0})
  pub groups_create : Members → Eff W Str
  pub groups_get : Str → Eff W Value
  pub groups_delete : Str → Eff W (Unit {0})
  pub realms_create : Members → Eff W (Unit {0})

-- The state of the application: the world outside, and the module's variable `lastRefreshToken`.
pub record App (W : Type 0) : Type 0 where
  pub outer : W
  pub last_refresh_token : Value

pub record Config : Type 0 where
  pub server_url : Str
  pub realm : Str
  pub client_id : Str
  pub client_secret : Str

-- `res.status(status).json(body)`; none is `res.status(status).end()`.
pub record Reply : Type 0 where
  pub status : ℕ
  pub body : Option Value

-- What `express.json()` makes of a request: a body over its limit of 100 kB, or one that is no JSON,
-- is answered by express.
pub data Received : Type 0 where
  parsed : Value → Received
  answered_by_express : Reply → Received

-- `app.use(express.json())` before a handler that takes `req.body`.
unfoldable pub behind_json :
    {W : Type 0} → Received → (Value → Eff (App W) Reply) → Eff (App W) Reply
behind_json (parsed body) handler = handler body
behind_json (answered_by_express r) handler = pure r

-- `process.env[k] || d`
unfoldable pub env_or : Option Str → Str → Str
env_or none d = d
env_or (some []) d = d
env_or (some (c ∷ s)) d = c ∷ s

-- The configuration from the environment.
unfoldable pub config_of : (Str → Option Str) → Config
unfolding env_or
config_of env = record {
  server_url = env_or (env (lit "KC_SERVER_URL")) (lit "http://localhost:8080");
  realm = env_or (env (lit "KC_REALM")) (lit "it-realm");
  client_id = env_or (env (lit "KC_CLIENT_ID")) (lit "it-client");
  client_secret = env_or (env (lit "KC_CLIENT_SECRET")) (lit "it-secret");
}

-- `!value` is false.
unfoldable pub is_present : Value → Bool
unfolding is_truthy
is_present undefined = false
is_present null = false
is_present (boolean b) = b
is_present (number n) = is_truthy n
is_present (string []) = false
is_present (string (c ∷ s)) = true
is_present (array vs) = true
is_present (object ms) = true

unfoldable pub not_readable : Str → Str → Thrown
not_readable what key =
    Errors.object
      (record {
        class = type_error;
        name = string (lit "TypeError");
        message =
            lit "Cannot read properties of " ++ (what ++ (lit " (reading '" ++ (key ++ lit "')")));
        code = undefined;
        stack = none;
        status = none;
        response_data = undefined;
      })
      no_cause

-- `value[key]`, which throws on `undefined` and `null`.
unfoldable pub prop : Value → Str → Outcome Value
unfolding field
prop undefined key = raise (not_readable (lit "undefined") key)
prop null key = raise (not_readable (lit "null") key)
prop v key = ok (field v key)

-- `e.message`
unfoldable pub message_value : Thrown → Value
message_value (other v) = undefined
message_value (Errors.object f cause) = string f.message

-- `e instanceof C`, for a class of the SDK.
unfoldable pub is_instance : SdkError → Thrown → Bool
is_instance c (other v) = false
is_instance c (Errors.object f cause) = elim f.class [ sdk d ↦ is_a d c | _ ↦ false ]

unfoldable pub json : Members → Reply
json ms = record { status = 200; body = some (object ms) }

-- `fail(res, code, msg)`
unfoldable pub fail : ℕ → Value → Reply
fail code msg = record { status = code; body = some (object (member (lit "error") msg end)) }

-- `res.status(204).end()`
unfoldable pub no_content : Reply
no_content = record { status = 204; body = none }

-- A call of the SDK leaves the application's own variable alone.
unfoldable pub calls : {W A : Type 0} → Eff W A → Eff (App W) A
calls m s = let (o, w) = m s.outer in (o, record s { outer = w })

-- `try { … } catch (e) { fail(res, code, e.message) }`
unfoldable pub or_fail : {W : Type 0} → ℕ → Eff (App W) Reply → Eff (App W) Reply
unfolding fail message_value
or_fail code handler = attempt handler (λ e. pure (fail code (message_value e)))

-- The same with an exception class that has a status of its own.
unfoldable pub or_fail_as : {W : Type 0} → SdkError → ℕ → ℕ → Eff (App W) Reply → Eff (App W) Reply
unfolding fail message_value is_instance
or_fail_as c own code handler =
    attempt handler (λ e. pure (fail (if is_instance c e then own else code) (message_value e)))
