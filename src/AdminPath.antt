-- ===== src/AdminPath.antt =====
-- node/src/admin/http.ts, the paths of admin requests: `segment` and `adminPath`.
pub mod Utf8
pub mod Decode
pub mod Escape
pub mod Laws
pub mod Address
use key_cloak_sdk.Common.{
  ℕ, ◌+◌, ◌-◌, ◌*◌, ◌/◌, ◌%◌, Bool, true, false, ◌&&◌, ◌||◌, not, Option, none, some, List, [], ◌∷◌,
  ◌++◌, Str, lit, leb, ltb, ◌==◌, if◌then◌else◌, join,
}
use key_cloak_sdk.Values.Json.{undefined, string}
use key_cloak_sdk.Errors.{Thrown, object, uri_error, no_cause}
use key_cloak_sdk.Outcome.{Outcome, ok, raise, ◌>>=◌}

-- The `URIError` of `encodeURIComponent`.
unfoldable pub malformed : Thrown
malformed =
    object
      (record {
        class = uri_error;
        name = string (lit "URIError");
        message = lit "URI malformed";
        code = undefined;
        stack = none;
        status = none;
        response_data = undefined;
      })
      no_cause

-- A-Z a-z 0-9 - . _ ~
unfoldable pub is_unreserved : ℕ → Bool
is_unreserved c =
    (leb b'A' c && leb c b'Z')
    || (leb b'a' c && leb c b'z')
    || (leb b'0' c && leb c b'9')
    || c == b'-'
    || c == b'.'
    || c == b'_'
    || c == b'~'

-- ! ' ( ) *
unfoldable pub is_mark : ℕ → Bool
is_mark c = c == 33 || c == 39 || c == 40 || c == 41 || c == 42

unfoldable pub is_lead : ℕ → Bool
is_lead c = leb 55296 c && leb c 56319

unfoldable pub is_trail : ℕ → Bool
is_trail c = leb 56320 c && leb c 57343

-- An upper-case hexadecimal digit.
unfoldable pub hex : ℕ → ℕ
hex d = if ltb d 10 then 48 + d else 55 + d

-- `%XX`
unfoldable pub escape_byte : ℕ → Str
unfolding hex
escape_byte b = 37 ∷ hex (b / 16) ∷ hex (b % 16) ∷ []

unfoldable pub escape_bytes : List ℕ → Str
escape_bytes [] = []
escape_bytes (b ∷ bs) = escape_byte b ++ escape_bytes bs

-- The UTF-8 bytes of a code point.
unfoldable pub utf8 : ℕ → List ℕ
utf8 p =
    if ltb p 128
    then p ∷ []
    else if ltb p 2048
    then (192 + p / 64) ∷ (128 + p % 64) ∷ []
    else if ltb p 65536
    then (224 + p / 4096) ∷ (128 + p / 64 % 64) ∷ (128 + p % 64) ∷ []
    else (240 + p / 262144) ∷ (128 + p / 4096 % 64) ∷ (128 + p / 64 % 64) ∷ (128 + p % 64) ∷ []

-- The code point of a surrogate pair.
unfoldable pub code_point : ℕ → ℕ → ℕ
code_point c d = 65536 + (c - 55296) * 1024 + (d - 56320)

-- One code unit that is no part of a pair.
unfoldable pub encode_unit : ℕ → Outcome Str
encode_unit c =
    if is_unreserved c || is_mark c
    then ok (c ∷ [])
    else if is_lead c || is_trail c
    then raise malformed
    else ok (escape_bytes (utf8 c))

unfoldable pub prepend : Outcome Str → Outcome Str → Outcome Str
prepend m rest = do s ← m; t ← rest; ok (s ++ t)

-- `encodeURIComponent(s)`
unfoldable pub encode_uri_component : Str → Outcome Str
encode_uri_component [] = ok []
encode_uri_component (c ∷ []) = prepend (encode_unit c) (ok [])
encode_uri_component (c ∷ d ∷ s) = elim (is_lead c && is_trail d) [
  | true ↦ prepend (ok (escape_bytes (utf8 (code_point c d)))) (encode_uri_component s)
  | false ↦ prepend (encode_unit c) (encode_uri_component (d ∷ s))
]

-- `.replace(/[!'()*]/g, …)`
unfoldable pub replace_marks : Str → Str
replace_marks [] = []
replace_marks (c ∷ s) = (if is_mark c then escape_byte c else c ∷ []) ++ replace_marks s

-- `segment(value)`; `none` is `undefined` or `null`.
unfoldable pub segment : Option Str → Outcome Str
segment none = ok []
segment (some v) = do encoded ← encode_uri_component v; ok (replace_marks encoded)

-- `segments.map(segment)`
unfoldable pub segment_all : List (Option Str) → Outcome (List Str)
segment_all [] = ok []
segment_all (s ∷ ss) = do x ← segment s; xs ← segment_all ss; ok (x ∷ xs)

-- `adminPath(...segments)`
unfoldable pub admin_path : List (Option Str) → Outcome Str
admin_path segments = do
  parts ← segment_all segments
  ok (lit "/admin/realms/" ++ join (lit "/") parts)
