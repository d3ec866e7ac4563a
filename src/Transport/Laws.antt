-- ===== src/Transport/Laws.antt =====
-- What counts as a failure of the transport, as a relation.
use mathlib.Core.List.{Memᴰ}
use key_cloak_sdk.Common.{
  ◌≡◌, ◌↔◌, refl, sym, ap, Bool, true, false, ◌||◌, ◌&&◌, none, List, [], ◌∷◌, Str, lit, str_eq,
  includes, arith, str_eq_iff, Bool-cases, inl, inr, ◌⊎◌,
}
use key_cloak_sdk.Values.Json.{Value, string, is_nullish, string_or_undefined}
use key_cloak_sdk.Errors.{Thrown, other, object, Facts, ErrorClass, type_error}
use key_cloak_sdk.Transport.{
  transport_codes, is_text, is_type_error, has_cause, is_transport_code, code_of,
  is_transport_error,
}

-- A present cause: Anything but `undefined` and `null`.
pub data IsPresent : Thrown → Type 0 where
  an_object : {f : Facts} {c : Thrown} → IsPresent (object f c)
  a_value : {v : Value} → is_nullish v ≡ false → IsPresent (other v)

-- The code of an object is one of the listed ones.
pub data HasCode : Thrown → Type 0 where
  listed :
      {f : Facts} {c : Thrown} {code : Str}
      → f.code ≡ string code
      → Memᴰ code transport_codes
      → HasCode (object f c)

pub data IsTransport : Thrown → Type 0 where
  aborted : {f : Facts} {c : Thrown} → f.name ≡ string (lit "AbortError") → IsTransport (object f c)
  timed_out :
      {f : Facts} {c : Thrown} → f.name ≡ string (lit "TimeoutError") → IsTransport (object f c)
  fetch_failed :
      {f : Facts} {c : Thrown} → f.class ≡ type_error → IsPresent c → IsTransport (object f c)
  own_code : {f : Facts} {c : Thrown} → HasCode (object f c) → IsTransport (object f c)
  cause_code : {f : Facts} {c : Thrown} → HasCode c → IsTransport (object f c)

includes_sound : (l : List Str) (s : Str) → includes l s ≡ true → Memᴰ s l
unfolding includes
includes_sound [] s h = absurd (cc)
includes_sound (x ∷ l) s h = elim (Bool-cases (str_eq x s)) [
  | inl e ↦ Memᴰ.head (sym ((str_eq_iff x s).0 e))
  | inr e ↦ Memᴰ.tail (includes_sound l s (ground (arith, e)))
]

includes_complete : {s : Str} {l : List Str} → Memᴰ s l → includes l s ≡ true
unfolding includes
includes_complete {s} (Memᴰ.head {x} e) = ground (arith, (str_eq_iff x s).1 (sym e))
includes_complete (Memᴰ.tail m) = ground (arith, includes_complete m)

one_of_five :
    (a b c d e : Bool)
    → (a || b || c || d || e) ≡ true
    → (a ≡ true) ⊎ ((b ≡ true) ⊎ ((c ≡ true) ⊎ ((d ≡ true) ⊎ (e ≡ true))))
one_of_five a b c d e h = ground arith

is_text_sound : (v : Value) (t : Str) → is_text v t ≡ true → v ≡ string t
unfolding is_text
is_text_sound (string s) t h = ap string ((str_eq_iff s t).0 h)
is_text_sound _ t h = absurd (cc)

IsPresent-sound : (c : Thrown) → has_cause c ≡ true → IsPresent c
unfolding has_cause
IsPresent-sound (other v) h = a_value (ground arith)
IsPresent-sound (object f c) h = an_object

text_cases : (v : Value) → ((s : Str) × (v ≡ string s)) ⊎ (string_or_undefined v ≡ none)
unfolding string_or_undefined
text_cases (string s) = inl (s, refl)
text_cases _ = inr refl

failed_sound :
    (f : Facts) (c : Thrown)
    → (is_type_error f.class && has_cause c) ≡ true
    → IsTransport (object f c)
unfolding is_type_error
failed_sound f c h = fetch_failed (ground arith) (IsPresent-sound c (ground arith))

type_error_complete : (k : ErrorClass) → k ≡ type_error → is_type_error k ≡ true
unfolding is_type_error
type_error_complete k e = rw e

code_sound :
    (f : Facts) (c : Thrown)
    → is_transport_code (string_or_undefined f.code) ≡ true
    → HasCode (object f c)
unfolding is_transport_code string_or_undefined
code_sound f c h = elim (text_cases f.code) [
  | inl (code, e) ↦ listed e (includes_sound transport_codes code (rw e at h))
  | inr e ↦ absurd (ground (arith, e))
]

text_sound : (c : Thrown) → is_transport_code (code_of c) ≡ true → HasCode c
unfolding code_of is_transport_code
text_sound (other v) h = absurd (cc)
text_sound (object f c) h = code_sound f c h

IsTransport-sound : (t : Thrown) → is_transport_error t ≡ true → IsTransport t
unfolding is_transport_error
IsTransport-sound (other v) h = absurd (cc)
IsTransport-sound (object f c) h = elim (one_of_five _ _ _ _ _ h) [
  | inl a ↦ aborted (is_text_sound f.name _ a)
  | inr (inl a) ↦ timed_out (is_text_sound f.name _ a)
  | inr (inr (inl a)) ↦ failed_sound f c a
  | inr (inr (inr (inl a))) ↦ own_code (code_sound f c a)
  | inr (inr (inr (inr a))) ↦ cause_code (text_sound c a)
]

present_complete : {c : Thrown} → IsPresent c → has_cause c ≡ true
unfolding has_cause
present_complete an_object = refl
present_complete (a_value e) = ground arith

code_complete : {c : Thrown} → HasCode c → is_transport_code (code_of c) ≡ true
unfolding is_transport_code code_of string_or_undefined
code_complete (listed {f} e m) = ground (arith, e, includes_complete m)

text_complete : (v : Value) (t : Str) → v ≡ string t → is_text v t ≡ true
unfolding is_text
text_complete v t e = rw e ((str_eq_iff t t).1 refl)

transport_complete : {t : Thrown} → IsTransport t → is_transport_error t ≡ true
unfolding is_transport_error
transport_complete (aborted {f} e) = ground (arith, text_complete f.name (lit "AbortError") e)
transport_complete (timed_out {f} e) = ground (arith, text_complete f.name (lit "TimeoutError") e)
transport_complete (fetch_failed {f} e p) =
    ground (arith, present_complete p, type_error_complete f.class e)
transport_complete (own_code {f} {c} h) =
    let e : is_transport_code (string_or_undefined f.code) ≡ true =
      unfold code_of in code_complete h in
    ground (arith, e)
transport_complete (cause_code h) = ground (arith, code_complete h)

-- `isTransportError` holds exactly of an abort, a timeout, a `TypeError` with a cause that is
-- there, and an object whose own code or whose cause's code is one of the listed system codes.
pub is_transport_error_iff : (t : Thrown) → (is_transport_error t ≡ true) ↔ IsTransport t
is_transport_error_iff t = (IsTransport-sound t, transport_complete)
