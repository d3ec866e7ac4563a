-- ===== src/Errors/Scrubbing.antt =====
-- What the copy of a cause keeps, and what it cannot show.
use key_cloak_sdk.Common.{ℕ, zero, suc, ◌+◌, ◌≡◌, refl, false, none, arith, Str, or_default}
use key_cloak_sdk.Values.Json.{Value, undefined, string}
use key_cloak_sdk.Errors.{
  Thrown, other, object, Facts, error, is_error, is_syntax_error, string_code, scrub_cause, copy_of,
  sdk_error, SdkError, no_cause,
}

-- Two objects that differ only in what must not be logged: the HTTP status, the response data, a
-- code that is no string, and the message and stack of a `SyntaxError`.
pub record SameVisible (f g : Facts) : Type 0 where
  pub kind : is_error f.class ≡ is_error g.class
  pub syntax : is_syntax_error f.class ≡ is_syntax_error g.class
  pub name : f.name ≡ g.name
  pub code : string_code f.code ≡ string_code g.code
  pub message : is_syntax_error f.class ≡ false → f.message ≡ g.message
  pub stack : is_syntax_error f.class ≡ false → f.stack ≡ g.stack

abbrev pub Alike : Thrown → Thrown → Type 0
Alike (other v) (other w) = Unit
Alike (other v) (object g d) = is_error g.class ≡ false
Alike (object f c) (other w) = is_error f.class ≡ false
Alike (object f c) (object g d) = SameVisible f g × Alike c d

copy_of-eq : (f g : Facts) → SameVisible f g → copy_of f ≡ copy_of g
unfolding copy_of
copy_of-eq f g s = ground arith

pub scrub_cause_hides :
    (t u : Thrown) (depth : ℕ) → Alike t u → scrub_cause t depth ≡ scrub_cause u depth
unfolding scrub_cause
scrub_cause_hides (other v) (other w) depth h = refl
scrub_cause_hides (other v) (object g d) depth h = ground arith
scrub_cause_hides (object f c) (other w) depth h = ground arith
scrub_cause_hides (object f c) (object g d) depth (s, h) =
    ground (arith, copy_of-eq f g s, scrub_cause_hides c d (depth + 1) h)

-- A chain of at most `n` copies: each holds no status, no response data and no code but text.
abbrev pub IsCopy : ℕ → Thrown → Type 0
IsCopy n (other v) = v ≡ undefined
IsCopy zero (object f c) = ⊥
IsCopy (suc n) (object f c) =
    (f.class ≡ error)
    × (f.status ≡ none)
    × (f.response_data ≡ undefined)
    × (string_code f.code ≡ f.code)
    × IsCopy n c

string_code_again : (v : Value) → string_code (string_code v) ≡ string_code v
unfolding string_code
string_code_again (string s) = refl
string_code_again _ = refl

scrub_cause-IsCopy_from :
    (t : Thrown) (depth n : ℕ)
    → depth + n ≡ 9
    → IsCopy n (or_default (scrub_cause t depth) no_cause)
unfolding scrub_cause
scrub_cause-IsCopy_from (other v) depth zero e = refl
scrub_cause-IsCopy_from (other v) depth (suc n) e = refl
scrub_cause-IsCopy_from (object f c) depth zero e = ground arith
scrub_cause-IsCopy_from (object f c) depth (suc n) e =
    ground (arith, string_code_again f.code, scrub_cause-IsCopy_from c (depth + 1) n)

-- The cause of a thrown value.
abbrev pub cause_of : Thrown → Thrown
cause_of (other v) = no_cause
cause_of (object f c) = c

-- The cause that an SDK error carries is a chain of at most nine copies, each a plain `Error` with
-- no status, no response data and no code but text, whatever the failure below it held.
pub sdk_error-IsCopy :
    (c : SdkError) (message : Str) (cause : Thrown)
    → IsCopy 9 (cause_of (sdk_error c message cause))
unfolding sdk_error
sdk_error-IsCopy c message cause = scrub_cause-IsCopy_from cause 0 9 (omega arith)

-- Two failures that agree on what may be seen make the same SDK error: no response body, no
-- status, no code that is no string and no text quoted by a `SyntaxError` reaches it.
pub sdk_error_hides :
    (c : SdkError) (message : Str) (t u : Thrown)
    → Alike t u
    → sdk_error c message t ≡ sdk_error c message u
unfolding sdk_error
sdk_error_hides c message t u h = rw (scrub_cause_hides t u 0 h)
