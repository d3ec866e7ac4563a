-- ===== src/Tests/HarnessApp.antt =====
-- The harness application over an SDK that accepts every token.

use key_cloak_sdk.HarnessApp
use key_cloak_sdk.Jwt
use key_cloak_sdk.Errors.{Thrown}
use key_cloak_sdk.Common.{◌<◌, ℕ, ◌≡◌, ◌≤◌, refl, true, none, some, [], ◌∷◌, Str, lit, length, ◌⊎◌}
use key_cloak_sdk.Effects.{Eff, pure}
use key_cloak_sdk.Errors.{other}
use key_cloak_sdk.HarnessApp.{
  parsed, answered_by_express, behind_json, Sdk, App, Config, Reply, is_instance, calls, or_fail_as,
  is_present, fail, json, message_value, or_fail, prop, no_content, env_or, config_of, not_readable,
}
use key_cloak_sdk.HarnessApp.Laws.{validate_defended}
use key_cloak_sdk.HarnessApp.Session.{validate, validated_reply}
use key_cloak_sdk.InstallMatrix.{is_defended}
use key_cloak_sdk.Jwt
use key_cloak_sdk.Jwt.Laws.{pinned}
use key_cloak_sdk.Jwt.{ValidatedToken, JwtValidatorOptions, JwtValidator, VerifyOptions}
use key_cloak_sdk.Outcome.{Outcome, ok, raise}
use key_cloak_sdk.Tokens.{TokenSet}
use key_cloak_sdk.Values.{whole}
use key_cloak_sdk.Values.Json.{undefined, object, member, end, Value, field, Members, string, get}

abbrev options : JwtValidatorOptions
options = record {
  issuer = lit "https://k/realms/r";
  audience = lit "api";
  allowed_algs = lit "RS256" ∷ [];
  clock_skew_seconds = whole 30;
  jwks_min_refetch_seconds = whole 30;
  read_timeout_ms = none;
}

abbrev validator : JwtValidator
validator = record { keys = 0; opts = options }

abbrev accepts_all : Str → ℕ → VerifyOptions → Eff (Unit {0}) Members
accepts_all t keys opts w = (ok end, w)

abbrev no_text : Value → Str
no_text v = []

abbrev tokens : TokenSet
tokens = record {
  access_token = lit "a";
  token_type = lit "Bearer";
  expires_in = whole 60;
  expires_at = none;
  refresh_token = some (lit "r2");
  id_token = none;
  scope = none;
}

abbrev refused : {A : Type 0} → Eff (Unit {0}) A
refused w = (raise (other undefined), w)

abbrev kc : Sdk (Unit {0})
kc = record {
  client_credentials_token = pure tokens;
  validate = λ v w. elim v as (λ _. Outcome ValidatedToken × Unit {0}) [
    | string t ↦ Jwt.validate accepts_all no_text validator t w
    | _ ↦ refused w
  ];
  introspect = λ v w. refused w;
  refresh = λ v. pure tokens;
  logout = λ v. pure tt;
  create_authorization_request = λ v. raise (other undefined);
  post_token = λ form. pure (true, undefined);
  admin = pure tt;
  users_create = λ ms. pure (lit "id");
  users_get = λ id. pure undefined;
  users_search = λ v first max. pure undefined;
  users_delete = λ id. pure tt;
  clients_create = λ ms. pure (lit "id");
  clients_get = λ id. pure undefined;
  clients_delete = λ id. pure tt;
  roles_create = λ ms. pure tt;
  roles_get = λ id. pure undefined;
  roles_delete = λ id. pure tt;
  groups_create = λ ms. pure (lit "id");
  groups_get = λ id. pure undefined;
  groups_delete = λ id. pure tt;
  realms_create = λ ms. pure tt;
}

abbrev cfg : HarnessApp.Config
cfg = config_of (λ k. none)

abbrev app : App (Unit {0})
app = record { outer = tt; last_refresh_token = string (lit "r1") }

abbrev body : Value
body = object (member (lit "token") (string (lit "e30")) end)

validate_defended_example :
    let asked = accepts_all (101 ∷ lit "30") validator.keys (pinned validator.opts) app.outer in
    ((refusal : Reply)
      → behind_json (answered_by_express refusal) (validate kc cfg) app ≡ (ok refusal, app))
    × ((r : Reply) × ((behind_json (parsed body) (validate kc cfg) app).0 ≡ ok r)
        × (((payload : Members) × (length (101 ∷ lit "30") ≤ 256000)
              × (asked.0 ≡ ok payload)
              × (r.status ≡ 200)
              × (r ≡ validated_reply (Jwt.validated no_text payload)))
            ⊎ (((256000 < length (101 ∷ lit "30")) ⊎ ((cause : Thrown) × (asked.0 ≡ raise cause)))
                × (r.status ≡ 401)
                × (is_defended r.status ≡ true))))
unfolding field get
validate_defended_example =
    validate_defended accepts_all no_text kc cfg validator body 101 (lit "30") app (λ t w. refl)
      refl
