-- ===== src/Tokens/Expiry.antt =====
-- When a token set made from a response counts as expired, and what makes a response one.
use key_cloak_sdk.Common.{
  ℕ, ◌+◌, ◌≤◌, ◌≡◌, ◌≢◌, ◌↔◌, refl, true, none, some, Str, lit, arith, [], ◌∷◌, inl, inr, ◌⊎◌,
}
use key_cloak_sdk.Values.{Num, whole}
use key_cloak_sdk.Values.Whole.{num_add-whole, num_le-whole, num_lt-whole}
use key_cloak_sdk.Values.Json.{Value, number, string, Members, get, string_or_undefined}
use key_cloak_sdk.Outcome.{ok, raise}
use key_cloak_sdk.Tokens.{
  TokenSet, is_expired, token_set_from_response, expires_in_of, non_empty, plain_error,
  token_set_with,
}

-- For a token made from a response at a whole second that says a whole `expires_in` of `n`: with
-- `n` above 0 it counts as expired exactly from `skew` seconds before `issued + n`, and with
-- `n` at 0 always.
pub token_expiry :
    (to_number : Value → Num) (json : Members) (issued n now skew : ℕ) (t : TokenSet)
    → get json (lit "expires_in") ≡ number (whole n)
    → token_set_from_response to_number json (whole issued) ≡ ok t
    → (is_expired t (whole now) (whole skew) ≡ true) ↔ ((n ≡ 0) ⊎ (issued + n ≤ now + skew))
unfolding is_expired token_set_from_response expires_in_of
token_expiry to_number json issued n now skew t e h = ground (
  arith,
  num_add-whole issued n,
  num_add-whole now skew,
  num_le-whole (issued + n) (now + skew),
  num_lt-whole 0 n,
)

non_empty-cases :
    (v : Value)
    → ((s : Str) × (non_empty (string_or_undefined v) ≡ some s) × (v ≡ string s) × (s ≢ []))
      ⊎ ((non_empty (string_or_undefined v) ≡ none) × ((s : Str) → v ≡ string s → s ≡ []))
unfolding non_empty string_or_undefined
non_empty-cases (string []) = inr (refl, λ s e. ground arith)
non_empty-cases (string (c ∷ s)) = inl (c ∷ s, refl, refl, λ e. cc)
non_empty-cases _ = inr (refl, λ s e. absurd (cc))

-- A token response makes a token set exactly when its `access_token` is a text that is not empty;
-- that text is then the access token, and any other response is refused with one plain error.
pub token_set_from_response_cases :
    (to_number : Value → Num) (json : Members) (issued : Num)
    → ((t : TokenSet) × (token_set_from_response to_number json issued ≡ ok t)
        × (get json (lit "access_token") ≡ string t.access_token)
        × (t.access_token ≢ []))
      ⊎ ((token_set_from_response to_number json issued
            ≡ raise (plain_error (lit "token response missing access_token")))
          × ((s : Str) → get json (lit "access_token") ≡ string s → s ≡ []))
unfolding token_set_from_response
token_set_from_response_cases to_number json issued =
    elim (non_empty-cases (get json (lit "access_token"))) [
      | inl (s, found, is_text, filled) ↦ inl (
        token_set_with to_number json issued s,
        rw (found, token_set_from_response) refl,
        is_text,
        filled,
      )
      | inr (missing, blank) ↦ inr (rw (missing, token_set_from_response) refl, blank)
    ]
