-- ===== src/HarnessApp/Laws.antt =====
-- What the harness application answers.
use key_cloak_sdk.Common.{
  ℕ, ◌≡◌, ◌≤◌, ◌<◌, refl, ap, true, Option, none, some, [], ◌∷◌, Str, lit, length, ◌⊎◌, inl, inr,
}
use key_cloak_sdk.Values.Json.{field, Value, Members, string}
use key_cloak_sdk.Errors
use key_cloak_sdk.Tokens.{TokenSet}
use key_cloak_sdk.Errors.{Thrown, SdkError, sdk, is_a}
use key_cloak_sdk.Errors.Mapping.{class_of}
use key_cloak_sdk.Outcome.{ok, raise, Outcome-cases}
use key_cloak_sdk.Effects.{Eff}
use key_cloak_sdk.Jwt.{JwtValidator, VerifyOptions}
use key_cloak_sdk.Jwt
use key_cloak_sdk.Jwt.Laws.{validate_lem, pinned}
use key_cloak_sdk.InstallMatrix.{is_defended, classify}
use key_cloak_sdk.HarnessApp.{
  parsed, answered_by_express, behind_json, Sdk, App, Config, Reply, is_instance, calls, or_fail_as,
  is_present, fail, json, message_value, or_fail,
}
use key_cloak_sdk.HarnessApp.Session.{
  validate, validated, validated_reply, token_reply, refresh, refreshed, remember,
  remember_where_given,
}

is_instance_of :
    (c : SdkError) (e : Thrown) → class_of e ≡ sdk c → is_a c c ≡ true → is_instance c e ≡ true
unfolding is_instance
is_instance_of c (Errors.other v) h k = cc
is_instance_of c (Errors.object f cause) h k = rw (h, k) refl

module _ {W : Type 0} (verify : Str → ℕ → VerifyOptions → Eff W Members)
    (value_text : Value → Str) where
  answered_401 :
      (kc : Sdk W) (cfg : Config) (v : JwtValidator) (body : Value) (c : ℕ) (s : Str) (a : App W)
      (e : Thrown)
      → ((t : Str) (w : W) → kc.validate (string t) w ≡ Jwt.validate verify value_text v t w)
      → field body (lit "token") ≡ string (c ∷ s)
      → (Jwt.validate verify value_text v (c ∷ s) a.outer).0 ≡ raise e
      → class_of e ≡ sdk SdkError.token_validation
      → (validate kc cfg body a).0 ≡ ok (fail 401 (message_value e))
  unfolding validate validated validated_reply or_fail_as calls is_present is_instance is_a fail
      json
  answered_401 kc cfg v body c s a e law h refused kind =
      rw
        (
          h,
          law (c ∷ s) a.outer,
          refused,
          is_instance_of SdkError.token_validation e kind refl,
          validate,
          validated,
        )
        refl

  -- Where the SDK's `validate` is `JwtValidator.validate`, `/validate` always answers a request whose
  -- body was parsed and has a token that is a text and not empty, and never with a crash: with 200
  -- and the subject, audience, issuer and expiry of the payload where the token is within the cap and
  -- jose, asked for the validator's pinned checks, gives a payload, and with 401, a status that the
  -- security probe counts as a defence, where the token is over the cap or jose raises. Where express
  -- answers for itself, that is the answer and nothing is asked of the SDK.
  pub validate_defended :
      (kc : Sdk W) (cfg : Config) (v : JwtValidator) (body : Value) (c : ℕ) (s : Str) (a : App W)
      → ((t : Str) (w : W) → kc.validate (string t) w ≡ Jwt.validate verify value_text v t w)
      → field body (lit "token") ≡ string (c ∷ s)
      → let asked = verify (c ∷ s) v.keys (pinned v.opts) a.outer in
        ((refusal : Reply)
          → behind_json (answered_by_express refusal) (validate kc cfg) a ≡ (ok refusal, a))
        × ((r : Reply) × ((behind_json (parsed body) (validate kc cfg) a).0 ≡ ok r)
            × (((payload : Members) × (length (c ∷ s) ≤ 256000)
                  × (asked.0 ≡ ok payload)
                  × (r.status ≡ 200)
                  × (r ≡ validated_reply (Jwt.validated value_text payload)))
                ⊎ (((256000 < length (c ∷ s)) ⊎ ((cause : Thrown) × (asked.0 ≡ raise cause)))
                    × (r.status ≡ 401)
                    × (is_defended r.status ≡ true))))
  unfolding behind_json validate validated validated_reply or_fail_as calls is_present is_instance
      is_a fail json is_defended classify
  validate_defended kc cfg v body c s a law h = (
    λ refusal. refl,
    elim (validate_lem verify value_text v (c ∷ s) a.outer) [
      | inl (payload, short, accepted, answered) ↦ (
        validated_reply (Jwt.validated value_text payload),
        rw (h, law (c ∷ s) a.outer, answered, validate, validated) refl,
        inl (payload, short, accepted, refl, refl),
      )
      | inr (inl (e, long, refused, kind)) ↦ (
        fail 401 (message_value e),
        answered_401 kc cfg v body c s a e law h (ap (λ q. q.0) refused) kind,
        inr (inl long, refl, refl),
      )
      | inr (inr (cause, e, raised, refused, kind)) ↦ (
        fail 401 (message_value e),
        answered_401 kc cfg v body c s a e law h refused kind,
        inr (inr (cause, raised), refl, refl),
      )
    ],
  )

module _ {W : Type 0} (kc : Sdk W) (cfg : Config) where
  refreshed_with :
      (a : App W) (ts : TokenSet) (t : Option Str)
      → (kc.refresh a.last_refresh_token a.outer).0 ≡ ok ts
      → ts.refresh_token ≡ t
      → (r : Reply) × ((refresh kc cfg a).0 ≡ ok r)
        × (((r.status ≡ 401) × ((refresh kc cfg a).1.last_refresh_token ≡ a.last_refresh_token))
            ⊎ ((ts : TokenSet) × ((kc.refresh a.last_refresh_token a.outer).0 ≡ ok ts)
                × (r.status ≡ 200)
                × (((ts.refresh_token ≡ none)
                      × ((refresh kc cfg a).1.last_refresh_token ≡ a.last_refresh_token))
                    ⊎ ((ts.refresh_token ≡ some [])
                        × ((refresh kc cfg a).1.last_refresh_token ≡ a.last_refresh_token))
                    ⊎ ((c : ℕ) × (s : Str) × (ts.refresh_token ≡ some (c ∷ s))
                        × ((refresh kc cfg a).1.last_refresh_token ≡ string (c ∷ s))))))
  unfolding refresh refreshed or_fail calls remember_where_given remember fail json token_reply
  refreshed_with a ts none came h =
      (token_reply ts, rw (came, h) refl, inr (ts, came, refl, inl (h, rw (came, h) refl)))
  refreshed_with a ts (some []) came h =
      (token_reply ts, rw (came, h) refl, inr (ts, came, refl, inr (inl (h, rw (came, h) refl))))
  refreshed_with a ts (some (c ∷ s)) came h = (
    token_reply ts,
    rw (came, h) refl,
    inr (ts, came, refl, inr (inr (c, s, h, rw (came, h) refl))),
  )

  -- `/refresh` sends the refresh token that the application has. It always answers. Either the
  -- answer is 401 and the token is kept, or it is 200; and then the new token is what the SDK
  -- brought where that is not empty, and the old one where it is missing or empty.
  pub refresh_lem :
      (a : App W)
      → (r : Reply) × ((refresh kc cfg a).0 ≡ ok r)
        × (((r.status ≡ 401) × ((refresh kc cfg a).1.last_refresh_token ≡ a.last_refresh_token))
            ⊎ ((ts : TokenSet) × ((kc.refresh a.last_refresh_token a.outer).0 ≡ ok ts)
                × (r.status ≡ 200)
                × (((ts.refresh_token ≡ none)
                      × ((refresh kc cfg a).1.last_refresh_token ≡ a.last_refresh_token))
                    ⊎ ((ts.refresh_token ≡ some [])
                        × ((refresh kc cfg a).1.last_refresh_token ≡ a.last_refresh_token))
                    ⊎ ((c : ℕ) × (s : Str) × (ts.refresh_token ≡ some (c ∷ s))
                        × ((refresh kc cfg a).1.last_refresh_token ≡ string (c ∷ s))))))
  unfolding refresh refreshed or_fail calls remember_where_given remember fail json token_reply
  refresh_lem a = elim (Outcome-cases (kc.refresh a.last_refresh_token a.outer).0) [
    | inr (e, refused) ↦ (fail 401 (message_value e), rw refused refl, inl (refl, rw refused refl))
    | inl (ts, came) ↦ refreshed_with a ts ts.refresh_token came refl
  ]
