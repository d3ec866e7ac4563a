-- ===== src/HarnessApp/Session.antt =====
-- harness/apps/node/server.js: the routes of tokens and sessions.
use key_cloak_sdk.Common.{
  Bool, true, false, Option, none, some, List, [], ◌∷◌, Str, lit, if◌then◌else◌,
}
use key_cloak_sdk.Values.Json.{
  field, Value, undefined, boolean, number, string, array, Elements, nil, cons, end, member,
}
use key_cloak_sdk.Errors.{SdkError}
use key_cloak_sdk.Outcome.{ok}
use key_cloak_sdk.Tokens.{TokenSet, or_undefined}
use key_cloak_sdk.Jwt.{ValidatedToken}
use key_cloak_sdk.Effects.{Eff, ◌>>=◌, pure, lift}
use key_cloak_sdk.HarnessApp.{
  Sdk, App, Config, Reply, is_present, prop, json, fail, no_content, calls, or_fail, or_fail_as,
}

-- A text that may be `undefined`.
unfoldable pub text_value : Option Str → Value
text_value none = undefined
text_value (some s) = string s

unfoldable pub texts_value : List Str → Elements
texts_value [] = nil
texts_value (s ∷ ss) = cons (string s) (texts_value ss)

-- `a || b`
unfoldable pub or_else : Value → Value → Value
or_else a b = if is_present a then a else b

-- `app.get('/healthz', …)`
unfoldable pub healthz : {W : Type 0} → Eff (App W) Reply
healthz = pure (json (member (lit "status") (string (lit "ok")) end))

-- `res.json({ subject: vt.subject, … })`
unfoldable pub validated_reply : ValidatedToken → Reply
validated_reply vt = json (
    member (lit "subject") (string vt.subject) (
      member (lit "audience") (array (texts_value vt.audience)) (
        member (lit "issuer") (string vt.issuer)
          (member (lit "expiresAt") (or_undefined vt.expires_at) end))))

-- `res.json({ tokenType: ts.tokenType, expiresIn: ts.expiresIn })`
unfoldable pub token_reply : TokenSet → Reply
token_reply ts = json (
    member (lit "tokenType") (string ts.token_type)
      (member (lit "expiresIn") (number ts.expires_in) end))

module _ {W : Type 0} (kc : Sdk W) (cfg : Config) where
  -- `app.post('/token', …)`
  unfoldable pub token : Eff (App W) Reply
  token = or_fail 500 (do ts ← calls kc.client_credentials_token; pure (token_reply ts))

  -- The `try` of `/validate`.
  unfoldable pub validated : Value → Eff (App W) Reply
  validated t = do vt ← calls (kc.validate t); pure (validated_reply vt)

  -- `app.post('/validate', …)`
  unfoldable pub validate : Value → Eff (App W) Reply
  validate body =
      let t = field body (lit "token") in
      let answer = or_fail_as SdkError.token_validation 401 500 (validated t) in
      if is_present t then answer else pure (fail 400 (string (lit "token required")))

  -- `app.post('/introspect', …)`
  unfoldable pub introspect : Value → Eff (App W) Reply
  introspect body =
      let t = field body (lit "token") in
      let answer = or_fail 500 (do
        ir ← calls (kc.introspect t)
        pure (
            json (
              member (lit "active") (boolean ir.active) (
                member (lit "username") (text_value ir.username)
                  (member (lit "clientId") (text_value ir.client_id) end))))) in
      if is_present t then answer else pure (fail 400 (string (lit "token required")))

  -- `lastRefreshToken = value`
  unfoldable pub remember : Value → Eff (App W) (Unit {0})
  remember value s = (ok tt, record s { last_refresh_token = value })

  -- What `/token/password` makes of the answer of the token endpoint.
  unfoldable pub password_answer : Bool → Value → Eff (App W) Reply
  password_answer false body = do
    description ← lift (prop body (lit "error_description"))
    error ← lift (prop body (lit "error"))
    pure (fail 401 (or_else description (or_else error (string (lit "ROPC failed")))))
  password_answer true body = do
    refresh_token ← lift (prop body (lit "refresh_token"))
    _ ← remember refresh_token
    pure (
        json (
          member (lit "tokenType") (field body (lit "token_type")) (
            member (lit "expiresIn") (field body (lit "expires_in"))
              (member (lit "hasRefresh") (boolean (is_present refresh_token)) end))))

  -- The form of the password grant.
  unfoldable pub password_form : Value → List (Str × Value)
  password_form body =
      (lit "grant_type", string (lit "password"))
      ∷ (lit "client_id", string cfg.client_id)
      ∷ (lit "client_secret", string cfg.client_secret)
      ∷ (lit "username", field body (lit "username"))
      ∷ (lit "password", field body (lit "password"))
      ∷ []

  -- `app.post('/token/password', …)`
  unfoldable pub token_password : Value → Eff (App W) Reply
  token_password body =
      or_fail 401
        (do answer ← calls (kc.post_token (password_form body)); password_answer answer.0 answer.1)

  -- `if (ts.refreshToken) lastRefreshToken = ts.refreshToken`
  unfoldable pub remember_where_given : Option Str → Eff (App W) (Unit {0})
  remember_where_given none = pure tt
  remember_where_given (some []) = pure tt
  remember_where_given (some (c ∷ s)) = remember (string (c ∷ s))

  -- The `try` of `/refresh`.
  unfoldable pub refreshed : Value → Eff (App W) Reply
  refreshed last = do
    ts ← calls (kc.refresh last)
    _ ← remember_where_given ts.refresh_token
    pure (token_reply ts)

  -- `app.post('/refresh', …)`
  unfoldable pub refresh : Eff (App W) Reply
  refresh s = or_fail 401 (refreshed s.last_refresh_token) s

  -- The `try` of `/logout`.
  unfoldable pub logged_out : Value → Eff (App W) Reply
  logged_out last = do _ ← calls (kc.logout last); pure no_content

  -- `app.post('/logout', …)`
  unfoldable pub logout : Eff (App W) Reply
  logout s = or_fail 500 (logged_out s.last_refresh_token) s

  -- `app.get('/authz-url', …)`, for the query's `redirect_uri`.
  unfoldable pub authz_url : Value → Eff (App W) Reply
  authz_url redirect_uri = or_fail 500 (do
    ar ← lift (kc.create_authorization_request (or_else redirect_uri (string (lit "http://x/cb"))))
    pure (json (member (lit "url") (string ar.url) (member (lit "state") (string ar.state) end))))
