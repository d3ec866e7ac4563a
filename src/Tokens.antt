-- ===== src/Tokens.antt =====
-- node/src/tokens.ts: the token set, made from a token response, its expiry and its masked forms.
pub mod Expiry
pub mod Masking
use key_cloak_sdk.Common.{
  ℕ, Bool, true, false, Option, none, some, [], ◌∷◌, ◌++◌, Str, lit, length, if◌then◌else◌, ◌==◌,
}
use key_cloak_sdk.Values.{Num, whole, num_lt, num_le, num_add}
use key_cloak_sdk.Values.Json.{
  Value, undefined, null, number, string, Members, end, member, get, string_or_undefined,
}
use key_cloak_sdk.Errors.{Thrown, object, error, no_cause}
use key_cloak_sdk.Outcome.{Outcome, ok, raise}
use key_cloak_sdk.Config.{mask}

pub record TokenSet : Type 0 where
  pub access_token : Str
  pub token_type : Str
  pub expires_in : Num
  pub expires_at : Option Num
  pub refresh_token : Option Str
  pub id_token : Option Str
  pub scope : Option Str

-- `new Error(message)`
unfoldable pub plain_error : Str → Thrown
plain_error message =
    object
      (record {
        class = error;
        name = string (lit "Error");
        message = message;
        code = undefined;
        stack = none;
        status = none;
        response_data = undefined;
      })
      no_cause

-- `isExpired(nowSeconds, skewSeconds)`
unfoldable pub is_expired : TokenSet → Num → Num → Bool
is_expired t now_seconds skew_seconds = elim t.expires_at [
  | none ↦ true
  | some at ↦ num_le at (num_add now_seconds skew_seconds)
]

-- A present value, or `undefined`, as a property.
unfoldable pub or_undefined : Option Num → Value
or_undefined none = undefined
or_undefined (some n) = number n

-- `toJSON()`
unfoldable pub to_json : TokenSet → Value
unfolding or_undefined mask
to_json t = Value.object (
    member (lit "tokenType") (string t.token_type) (
      member (lit "expiresIn") (number t.expires_in) (
        member (lit "expiresAt") (or_undefined t.expires_at) (
          member (lit "accessToken") (string (mask (some t.access_token)))
            (member (lit "refreshToken") (string (mask t.refresh_token)) end)))))

-- `masked()`, which `toString` and `util.inspect` return; `number_text` is `String` of a number.
unfoldable pub masked_text : (Num → Str) → TokenSet → Str
unfolding mask
masked_text number_text t =
    lit "TokenSet(tokenType="
    ++ (t.token_type
        ++ (lit ", expiresIn="
            ++ (number_text t.expires_in
                ++ (lit ", accessToken="
                    ++ (mask (some t.access_token)
                        ++ (lit ", refreshToken=" ++ (mask t.refresh_token ++ lit ")")))))))

-- `typeof raw === 'number' ? raw : Number(raw ?? 0)`; `to_number` is `Number` of a value.
unfoldable pub expires_in_of : (Value → Num) → Value → Num
expires_in_of to_number (number n) = n
expires_in_of to_number undefined = to_number (number (whole 0))
expires_in_of to_number null = to_number (number (whole 0))
expires_in_of to_number v = to_number v

-- `typeof at !== 'string' || at.length === 0`, with the text where the test fails.
unfoldable pub non_empty : Option Str → Option Str
non_empty none = none
non_empty (some []) = none
non_empty (some (c ∷ s)) = some (c ∷ s)

unfoldable pub token_type_of : Option Str → Str
token_type_of none = lit "Bearer"
token_type_of (some s) = s

-- The `new TokenSet(...)` at the end of `tokenSetFromResponse`, with `at` the access token.
unfoldable pub token_set_with : (Value → Num) → Members → Num → Str → TokenSet
token_set_with to_number json issued_at_seconds at =
    let expires_in = expires_in_of to_number (get json (lit "expires_in")) in
    record {
      access_token = at;
      token_type = token_type_of (string_or_undefined (get json (lit "token_type")));
      expires_in = expires_in;
      expires_at =
          if num_lt (whole 0) expires_in then some (num_add issued_at_seconds expires_in) else none;
      refresh_token = string_or_undefined (get json (lit "refresh_token"));
      id_token = string_or_undefined (get json (lit "id_token"));
      scope = string_or_undefined (get json (lit "scope"));
    }

-- `tokenSetFromResponse(json, issuedAtSeconds)`
unfoldable pub token_set_from_response : (Value → Num) → Members → Num → Outcome TokenSet
unfolding token_set_with
token_set_from_response to_number json issued_at_seconds =
    elim (non_empty (string_or_undefined (get json (lit "access_token")))) [
      | none ↦ raise (plain_error (lit "token response missing access_token"))
      | some at ↦ ok (token_set_with to_number json issued_at_seconds at)
    ]
