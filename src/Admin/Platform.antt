-- ===== src/Admin/Platform.antt =====
-- What the admin facade uses of its platform, and the monad of its requests.
use key_cloak_sdk.Common.{ℕ, Option, List, ◌∷◌, Str}
use key_cloak_sdk.Values.{Num}
use key_cloak_sdk.Values.Json.{Value}
use key_cloak_sdk.Errors.{Thrown}
use key_cloak_sdk.Outcome.{Outcome, ok, raise}
use key_cloak_sdk.Capped.{Stream}

-- A request as it is given to `fetch`, with its `redirect`.
pub record Request : Type 0 where
  pub method : Str
  pub url : Str
  pub headers : List (Str × Str)
  pub body : Option Str
  pub timeout : Option Num
  pub redirect : Str

pub record Response : Type 0 where
  pub status : ℕ
  pub url : Str
  pub content_length : Option Str
  pub location : Option Str
  pub body : Option Stream

-- The state of the outside world is any type `W`. `token` is `tokenProvider.getAccessToken()`,
-- `exchange` is `fetch`, `text` is `res.text()`, `pathname` is `new URL(s).pathname` and throws where
-- the constructor does, `href` is the address with its path and query set anew.
pub record Platform (W : Type 0) : Type 0 where
  pub token : W → Outcome Str × W
  pub exchange : Request → W → Outcome Response × W
  pub text : Option Stream → Outcome Str
  pub pathname : Str → Outcome Str
  pub href : Str → Str → Str → Str
  pub query_text : List (Str × Str) → Str
  pub value_text : Value → Str
  pub stringify : Value → Option Str
  pub parse_json : Str → Option Value
  pub decode_utf8 : Str → Str
  pub number_of : Str → Num

-- What became of a response's body: cancelled, read up to the cap, or read whole.
pub data Use : Type 0 where
  cancelled capped whole_body : Use

-- The world, with the requests sent and the uses of bodies, the latest first.
pub record Session (W : Type 0) : Type 0 where
  pub outer : W
  pub sent : List Request
  pub uses : List Use

abbrev pub M : Type 0 → Type 0 → Type 0
M W A = Session W → Outcome A × Session W

abbrev pub bind_result :
    {W A B : Type 0} → Outcome A × Session W → (A → M W B) → Outcome B × Session W
bind_result (ok a, s) f = f a s
bind_result (raise e, s) f = (raise e, s)

abbrev pub catch_result :
    {W A : Type 0} → Outcome A × Session W → (Thrown → M W A) → Outcome A × Session W
catch_result (ok a, s) handler = (ok a, s)
catch_result (raise e, s) handler = handler e s

infixl 5 ◌>>=◌ ◌>>◌
abbrev pub ◌>>=◌ : {W A B : Type 0} → M W A → (A → M W B) → M W B
◌>>=◌ m f s = bind_result (m s) f

abbrev pub ◌>>◌ : {W B : Type 0} → M W (Unit {0}) → M W B → M W B
m >> k = m >>= λ _. k

abbrev pub pure : {W A : Type 0} → A → M W A
pure a s = (ok a, s)

abbrev pub throw : {W A : Type 0} → Thrown → M W A
throw e s = (raise e, s)

abbrev pub lift : {W A : Type 0} → Outcome A → M W A
lift o s = (o, s)

-- `try { m } catch (e) { handler(e) }`
abbrev pub attempt : {W A : Type 0} → M W A → (Thrown → M W A) → M W A
attempt m handler s = catch_result (m s) handler

abbrev pub note : {W : Type 0} → Use → M W (Unit {0})
note u s = (ok tt, record s { uses = u ∷ s.uses })
