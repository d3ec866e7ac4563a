-- ===== src/Client.antt =====
-- node/src/client.ts: `KeycloakClient`, and node/src/admin/index.ts: `AdminClient.create`.
use key_cloak_sdk.Common.{ℕ, ◌≤◌, ◌≡◌, refl, false, none, some, List, [], ◌∷◌, Str, lit, length}
use key_cloak_sdk.Errors.{Thrown, SdkError, sdk, sdk_error, no_cause}
use key_cloak_sdk.Errors.Mapping.{class_of}
use key_cloak_sdk.Outcome.{Outcome, ok, raise}
use key_cloak_sdk.Bearer.{sendable_bearer}
use key_cloak_sdk.Config.{KeycloakConfig}
use key_cloak_sdk.SingleFlight.{Flight, Answer, served, idle, call, settle, clear}
use key_cloak_sdk.SingleFlight.Steps.{Reach}
use key_cloak_sdk.SingleFlight.Once.{always, once_lem}
use key_cloak_sdk.Admin.Platform.{Platform, M, ◌>>=◌, pure, lift, throw}
use key_cloak_sdk.Admin.Http.{AdminHttp, get_token}
use key_cloak_sdk.Admin.Call

-- What `admin()` does before its `await`: it throws, or it is given an answer.
unfoldable pub admin : {A : Type 0} → KeycloakConfig → Flight A → Outcome (Flight A × Answer A)
admin config s = elim config.client_secret [
  | none ↦ raise (
      sdk_error SdkError.config (lit "admin API requires clientSecret (client-credentials grant)")
        no_cause)
  | some _ ↦ ok (call always 0 s)
]

-- `AdminClient.create` settles with `o`.
unfoldable pub create_settles : {A : Type 0} → ℕ → Outcome A → Flight A → Flight A
create_settles id o s = settle false id o s

-- The rest of the `admin()` that began the creation: it stores the client, and its `finally` runs.
unfoldable pub admin_resumes : {A : Type 0} → ℕ → Outcome A → Flight A → Flight A
admin_resumes id o s = clear false id o s

-- What `close()` closes, in its order.
pub data Closed (A : Type 0) : Type 0 where
  admin_client : A → Closed A
  auth_client : Closed A

unfoldable pub close : {A : Type 0} → Flight A → List (Closed A)
close s = elim s.cached [ none ↦ auth_client ∷ [] | some a ↦ admin_client a ∷ auth_client ∷ [] ]

-- `AdminClient.create(config, tokenProvider)`: the destination of the facade's requests.
unfoldable pub create : {W : Type 0} → Platform W → KeycloakConfig → M W AdminHttp
create p config = elim config.client_secret [
  | none ↦ throw (
      sdk_error SdkError.config (lit "clientSecret is required for admin client-credentials")
        no_cause)
  | some _ ↦ (do
    _ ← Call.call (do token ← get_token p; lift (sendable_bearer token))
    pure (record { server_url = config.server_url; timeout_ms = config.read_timeout_ms }))
]

-- Without a client secret `admin()` throws a `KeycloakConfigError` in every state. With one, in every
-- interleaving at most one creation is on its way, and once there is an admin client none is, and
-- every call is served that client.
pub admin_once :
    {A : Type 0} (Made : ℕ → Outcome A → Type 0) (config : KeycloakConfig) (s : Flight A)
    → Reach always false Made idle s
    → (config.client_secret ≡ none
        → (e : Thrown) × (admin config s ≡ raise e) × (class_of e ≡ sdk SdkError.config))
      × (length s.pending ≤ 1)
      × ((a : A) (secret : Str)
          → s.cached ≡ some a
          → config.client_secret ≡ some secret
          → (s.pending ≡ []) × (admin config s ≡ ok (s, served a)))
unfolding admin sdk_error
admin_once Made config s r =
    let (few, all_served) = once_lem false Made s r in
    (
      λ h. (
        sdk_error SdkError.config (lit "admin API requires clientSecret (client-credentials grant)")
            no_cause,
        rw (h, admin) refl,
        refl,
      ),
      few,
      λ a secret e h.
          let (none_left, answer) = all_served a 0 e in (none_left, rw (h, answer, admin) refl),
    )
