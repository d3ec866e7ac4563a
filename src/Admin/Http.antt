-- ===== src/Admin/Http.antt =====
-- node/src/admin/http.ts: the requests of the admin facade. The platform is a parameter; the
-- paths are `AdminPath`, the Bearer is `Bearer`, the capped read is `Capped`.
pub mod Omission
pub mod Laws
use key_cloak_sdk.Common.{
  ℕ, zero, suc, ◌-◌, Bool, true, false, ◌&&◌, ◌||◌, not, Option, none, some, List, [], ◌∷◌, ◌++◌,
  Str, lit, length, take, ltb, leb, ◌==◌, if◌then◌else◌, get_elem?, includes, str_eq,
}
use key_cloak_sdk.Values.{Num, nan, finite, ℤ, pos, negsuc, whole, num_lt}
use key_cloak_sdk.Values.Json.{
  Value, undefined, null, string, object, array, Members, end, member, get, is_nullish,
  string_or_undefined,
}
use key_cloak_sdk.Errors
use key_cloak_sdk.Errors.{Thrown, error, no_cause}
use key_cloak_sdk.Outcome.{Outcome, ok, raise}
use key_cloak_sdk.Bearer.{sendable_bearer}
use key_cloak_sdk.Tokens.{plain_error}
use key_cloak_sdk.Capped.{read_capped, token_response_max_bytes, Stream}
use key_cloak_sdk.Admin.Platform.{
  Request, Response, Platform, Use, cancelled, capped, whole_body, Session, M, ◌>>=◌, ◌>>◌, pure,
  throw, lift, attempt, note,
}

-- `AdminHttp`; its token provider is the platform's `token`.
pub record AdminHttp : Type 0 where
  pub server_url : Str
  pub timeout_ms : Num

-- The filter of `Object.entries` in `omit`.
unfoldable pub omit : Members → List Str → Members
unfolding includes
omit end keys = end
omit (member k v ms) keys =
    let rest = omit ms keys in if includes keys k then rest else member k v rest

-- `{ ...rep, [key]: v }`: an own property keeps its place.
unfoldable pub spread_with : Members → Str → Value → Members
unfolding str_eq
spread_with end key v = member key v end
spread_with (member k w ms) key v =
    let rest = spread_with ms key v in if str_eq k key then member k v ms else member k w rest

-- `orEmpty(value)`
unfoldable pub or_empty : Value → Value
or_empty undefined = object end
or_empty v = v

-- `value === undefined || value === null || value === ''`
unfoldable pub is_left_out : Value → Bool
is_left_out (string []) = true
is_left_out v = is_nullish v

-- A number is a condition: neither 0 nor NaN.
unfoldable pub is_truthy : Num → Bool
is_truthy nan = false
is_truthy (finite (pos zero) d) = false
is_truthy _ = true

-- `path.endsWith('/') ? path.slice(0, -1) : path`
unfoldable pub without_slash : Str → Str
without_slash path = elim (get_elem? path (length path - 1)) [
  | none ↦ path
  | some c ↦ if c == 47 then take (length path - 1) path else path
]

-- `res.ok`
unfoldable pub is_ok : ℕ → Bool
is_ok status = leb 200 status && leb status 299

-- `getErrorMessage`: the text of the first of the two keys that holds one.
unfoldable pub lower_message : Value → Str
lower_message (object ms) = elim (string_or_undefined (get ms (lit "error"))) [
  | some s ↦ s
  | none ↦ elim (string_or_undefined (get ms (lit "errorMessage"))) [
    | some s ↦ s
    | none ↦ lit "Network response was not OK."
  ]
]
lower_message (array vs) = lit "Network response was not OK."
lower_message _ = lit "Unable to determine error message."

-- The error of `reject`.
unfoldable pub network_error : ℕ → Value → Thrown
network_error status data_value =
    Errors.object
      (record {
        class = error;
        name = string (lit "Error");
        message = lower_message data_value;
        code = undefined;
        stack = none;
        status = some status;
        response_data = data_value;
      })
      no_cause

unfoldable pub has_slash : Str → Bool
has_slash [] = false
has_slash (c ∷ s) = c == 47 || has_slash s

-- `location.split('/').pop()`
unfoldable pub last_segment : Str → Str
unfolding has_slash
last_segment [] = []
last_segment (c ∷ s) = let rest = last_segment s in if c == 47 || has_slash s then rest else c ∷ s

-- The id at the end of `Location`.
unfoldable pub created_id : Response → Outcome Str
created_id res = elim res.location [
  | none ↦ raise (plain_error (lit "location header is not found in request: " ++ res.url))
  | some location ↦ elim (last_segment location) [
    | [] ↦
        raise
          (plain_error (lit "resourceId is not found in Location header from request: " ++ res.url))
    | c ∷ s ↦ ok (c ∷ s)
  ]
]

-- `if (json !== undefined) headers.set('content-type', …)`
unfoldable pub content_headers : Option Str → List (Str × Str)
content_headers none = []
content_headers (some json) = (lit "content-type", lit "application/json") ∷ []

module _ {W : Type 0} (p : Platform W) where
  -- `search(query)`, before `URLSearchParams` writes it.
  unfoldable pub search_pairs : List (Str × Value) → List (Str × Str)
  search_pairs [] = []
  search_pairs ((key, value) ∷ query) =
      let rest = search_pairs query in
      if is_left_out value then rest else (key, p.value_text value) ∷ rest

  -- `await http.tokenProvider.getAccessToken()`
  unfoldable pub get_token : M W Str
  get_token s = let (o, w) = p.token s.outer in (o, record s { outer = w })

  -- `fetch(url, init)`
  unfoldable pub fetch : Request → M W Response
  fetch r s = let (o, w) = p.exchange r s.outer in (o, record s { outer = w; sent = r ∷ s.sent })

  -- `body === undefined ? undefined : JSON.stringify(body)`
  unfoldable pub json_of : Value → Option Str
  json_of undefined = none
  json_of v = p.stringify v

  -- The request that `send` gives to `fetch`.
  unfoldable pub request_of :
      AdminHttp → Str → Str → List (Str × Value) → Option Str → Str → Str → Request
  request_of http method path query json bearer pathname = record {
    method = method;
    url =
        p.href http.server_url (without_slash pathname ++ path) (p.query_text (search_pairs query));
    headers =
        (lit "authorization", lit "Bearer " ++ bearer)
        ∷ (lit "accept", lit "application/json, text/plain, */*")
        ∷ content_headers json;
    body = json;
    timeout = if is_truthy http.timeout_ms then some http.timeout_ms else none;
    redirect = lit "manual";
  }

  -- `send(http, method, path, query, body)`
  unfoldable pub send : AdminHttp → Str → Str → List (Str × Value) → Value → M W Response
  send http method path query body = do
    token ← get_token
    bearer ← lift (sendable_bearer token)
    let json = json_of body
    pathname ← lift (p.pathname http.server_url)
    fetch (request_of http method path query json bearer pathname)

  -- `parse(text)`
  unfoldable pub parse : Str → Value
  parse text = elim (p.parse_json text) [ none ↦ string text | some v ↦ v ]

  -- `declared !== null && Number(declared) > TOKEN_RESPONSE_MAX_BYTES`
  unfoldable pub declares_too_much : Option Str → Bool
  declares_too_much none = false
  declares_too_much (some declared) = num_lt (whole token_response_max_bytes) (p.number_of declared)

  -- The `try` of `errorBody`: a body over the cap, or that fails, counts as empty.
  unfoldable pub parse_capped : Outcome Str → Value
  parse_capped (ok bytes) = parse (p.decode_utf8 bytes)
  parse_capped (raise e) = string []

  -- `readCapped(res.body, TOKEN_RESPONSE_MAX_BYTES)` and what it has for an outcome, noted as a read
  -- of no more than the cap.
  unfoldable pub read_noted : Stream → M W (Outcome Str)
  read_noted body = do note capped; pure (read_capped body token_response_max_bytes)

  -- `res.text()`, noted as a read of the whole body.
  unfoldable pub text_noted : Response → M W Str
  text_noted res = do note whole_body; lift (p.text res.body)

  -- `errorBody(res)`
  unfoldable pub error_body : Response → M W Value
  unfolding read_noted
  error_body res = elim res.body [
    | none ↦ pure (string [])
    | some body ↦
        if declares_too_much res.content_length
        then (do note cancelled; pure (string []))
        else (do read ← read_noted body; pure (parse_capped read))
  ]

  -- `reject(res)`
  unfoldable pub reject : {A : Type 0} → Response → M W A
  reject res = do content ← error_body res; throw (network_error res.status content)

  -- `discard(res)`
  unfoldable pub discard : Response → M W (Unit {0})
  discard res = elim res.body [ none ↦ pure tt | some _ ↦ note cancelled ]

  -- `successBody(res)`
  unfoldable pub success_body : Response → M W Value
  unfolding text_noted
  success_body res = do text ← text_noted res; pure (parse text)

  -- What `read` makes of a response.
  unfoldable pub receive : Response → M W Value
  receive res = if is_ok res.status then success_body res else reject res

  -- `read(http, path, query)`
  unfoldable pub read : AdminHttp → Str → List (Str × Value) → M W Value
  read http path query = do res ← send http (lit "GET") path query undefined; receive res

  -- What `readOne` makes of a response: `null` on a 404, whose body is drained too.
  unfoldable pub receive_one : Response → M W Value
  receive_one res = if res.status == 404 then (do _ ← error_body res; pure null) else receive res

  -- `readOne(http, path)`
  unfoldable pub read_one : AdminHttp → Str → M W Value
  read_one http path = do res ← send http (lit "GET") path [] undefined; receive_one res

  -- What `write` makes of a response.
  unfoldable pub acknowledge : Response → M W (Unit {0})
  acknowledge res = if is_ok res.status then discard res else reject res

  -- `write(http, method, path, body)`
  unfoldable pub write : AdminHttp → Str → Str → Value → M W (Unit {0})
  write http method path body = do res ← send http method path [] body; acknowledge res

  -- `create(http, path, body)`
  unfoldable pub create : AdminHttp → Str → Value → M W Str
  create http path body = do
    res ← send http (lit "POST") path [] body
    _ ← acknowledge res
    lift (created_id res)
