-- ===== src/Bearer.antt =====
-- node/src/token-provider.ts, the rule for the Bearer that admin requests carry.
pub mod Grammar
pub mod Trimming
pub mod Laws
use key_cloak_sdk.Common.{
  ℕ, zero, suc, ◌-◌, Bool, true, false, ◌&&◌, ◌||◌, Option, none, some, [], ◌∷◌, Str, lit, length,
  take, drop, get_elem?, leb, ltb, if◌then◌else◌, ◌==◌,
}
use key_cloak_sdk.Errors.{Thrown, sdk_error, SdkError, no_cause}
use key_cloak_sdk.Outcome.{Outcome, ok, raise}

-- `isEdge(code)`: SP, HTAB, CR and LF.
unfoldable pub is_edge : ℕ → Bool
is_edge code = code == 0x20 || code == 0x09 || code == 0x0d || code == 0x0a

-- The class of `B64TOKEN`: `[A-Za-z0-9\-._~+/]`.
unfoldable pub is_b64 : ℕ → Bool
is_b64 c =
    (leb b'A' c && leb c b'Z')
    || (leb b'a' c && leb c b'z')
    || (leb b'0' c && leb c b'9')
    || c == b'-'
    || c == b'.'
    || c == b'_'
    || c == b'~'
    || c == b'+'
    || c == b'/'

-- `=*$`
unfoldable pub b64_padding : Str → Bool
b64_padding [] = true
b64_padding (c ∷ s) = c == b'=' && b64_padding s

-- `[A-Za-z0-9\-._~+/]*=*$`
unfoldable pub b64_rest : Str → Bool
b64_rest [] = true
b64_rest (c ∷ s) = if is_b64 c then b64_rest s else b64_padding (c ∷ s)

-- `B64TOKEN.test(s)`
unfoldable pub b64_token : Str → Bool
b64_token [] = false
b64_token (c ∷ s) = is_b64 c && b64_rest s

-- The first loop: where `start` stands when it ends.
unfoldable pub edge_start : Str → ℕ
edge_start [] = 0
edge_start (c ∷ s) = if is_edge c then suc (edge_start s) else 0

unfoldable pub is_edge_at : Option ℕ → Bool
is_edge_at none = false
is_edge_at (some c) = is_edge c

-- The second loop: where `end` stands when it ends.
unfoldable pub edge_end : Str → ℕ → ℕ → ℕ
edge_end s start zero = zero
edge_end s start (suc end) =
    if ltb start (suc end) && is_edge_at (get_elem? s end) then edge_end s start end else suc end

-- `text.slice(start, end)`
unfoldable pub trimmed : Str → Str
trimmed s = let start = edge_start s in take (edge_end s start (length s) - start) (drop start s)

unfoldable pub unsendable : Thrown
unsendable =
    sdk_error SdkError.auth
      (lit "admin access token cannot be sent: it is not an RFC 6750 bearer token (b64token)")
      no_cause

-- `sendableBearer(token)`
unfoldable pub sendable_bearer : Str → Outcome Str
sendable_bearer token =
    let text = trimmed token in if b64_token text then ok text else raise unsendable
