-- ===== src/AdminPath/Escape.antt =====
-- The characters that an encoded segment can hold.
use key_cloak_sdk.Common.{
  ℕ, ◌/◌, ◌%◌, ◌<◌, ◌≡◌, refl, Bool, true, some, List, [], ◌∷◌, ◌++◌, Str, arith, ◌==◌, ◌||◌, ◌&&◌,
  all, all-append, Bool-cases, inl, inr, All,
}
use key_cloak_sdk.Outcome.{Outcome, ok, raise, >>=-eq-ok}
use key_cloak_sdk.AdminPath.Decode.{IsBytes, utf8-IsBytes, units_pair}
use key_cloak_sdk.AdminPath.{
  is_unreserved, is_mark, is_lead, is_trail, hex, escape_byte, escape_bytes, utf8, encode_unit,
  prepend, encode_uri_component, replace_marks, segment, code_point,
}

-- A character of a percent-encoded text: unreserved, or the percent sign.
abbrev pub is_encoded : ℕ → Bool
is_encoded c = is_unreserved c || c == 37

-- The same before the last replacement: a mark is still there.
abbrev is_half_encoded : ℕ → Bool
is_half_encoded c = is_encoded c || is_mark c

pub prepend_inverse :
    (m rest : Outcome Str) (e : Str)
    → prepend m rest ≡ ok e
    → (y : Str) × (t : Str) × (m ≡ ok y) × (rest ≡ ok t) × (y ++ t ≡ e)
unfolding prepend
prepend_inverse (raise x) rest e h = absurd (cc)
prepend_inverse (ok y) (raise x) e h = absurd (cc)
prepend_inverse (ok y) (ok t) e h = (y, t, refl, refl, ground arith)

hex_encoded : (d : ℕ) → d < 16 → is_encoded (hex d) ≡ true
unfolding is_unreserved hex
hex_encoded d h = ground arith

byte_encoded : (b : ℕ) → b < 256 → all is_encoded (escape_byte b) ≡ true
unfolding escape_byte is_unreserved
byte_encoded b h = ground (arith, hex_encoded (b / 16), hex_encoded (b % 16))

all_half : (s : Str) → all is_encoded s ≡ true → all is_half_encoded s ≡ true
all_half [] h = refl
all_half (c ∷ s) h = ground (arith, all_half s)

mark_small : (c : ℕ) → is_mark c ≡ true → c < 256
unfolding is_mark
mark_small c h = ground arith

bytes_half : (bs : List ℕ) → IsBytes bs → all is_half_encoded (escape_bytes bs) ≡ true
unfolding escape_bytes
bytes_half [] h = refl
bytes_half (b ∷ bs) (hb, h) =
    all-append is_half_encoded (escape_byte b) (escape_bytes bs)
      (all_half (escape_byte b) (byte_encoded b hb)) (bytes_half bs h)

unit_half : (c : ℕ) (y : Str) → c < 65536 → encode_unit c ≡ ok y → all is_half_encoded y ≡ true
unfolding encode_unit
unit_half c y h e = elim (Bool-cases (is_unreserved c || is_mark c)) [
  | inl u ↦ let same : c ∷ [] ≡ y = ground arith in rw (← same) (ground arith)
  | inr u ↦ elim (Bool-cases (is_lead c || is_trail c)) [
    | inl l ↦ absurd (ground arith)
    | inr l ↦
        let same : escape_bytes (utf8 c) ≡ y = ground arith in
        rw (← same) (bytes_half (utf8 c) (utf8-IsBytes c (omega arith)))
  ]
]

abbrev pub IsUnits : Str → Type 0
IsUnits = All (λ c. c < 65536)

pub encode_half :
    (s e : Str) → IsUnits s → encode_uri_component s ≡ ok e → all is_half_encoded e ≡ true
unfolding encode_uri_component
encode_half [] e h q = let same : [] ≡ e = ground arith in rw (← same) refl
encode_half (c ∷ []) e (hc, h) q =
    let (y, t, a, b, same) = prepend_inverse (encode_unit c) (ok []) e q in
    let last : [] ≡ t = ground arith in
    rw (← same, ← last) (all-append is_half_encoded y [] (unit_half c y hc a) refl)
encode_half (c ∷ d ∷ s) e (hc, (hd, h)) q = elim (Bool-cases (is_lead c && is_trail d)) [
  | inl pair ↦
      let (y, t, a, b, same) =
        prepend_inverse (ok (escape_bytes (utf8 (code_point c d)))) (encode_uri_component s) e
          (rw (pair, encode_uri_component) at q) in
      let first : escape_bytes (utf8 (code_point c d)) ≡ y = ground arith in
      rw (← same, ← first)
        (all-append is_half_encoded (escape_bytes (utf8 (code_point c d))) t
          (bytes_half (utf8 (code_point c d))
            (utf8-IsBytes (code_point c d) (units_pair c d pair).1))
          (encode_half s t h b))
  | inr alone ↦
      let (y, t, a, b, same) =
        prepend_inverse (encode_unit c) (encode_uri_component (d ∷ s)) e
          (rw (alone, encode_uri_component) at q) in
      rw (← same)
        (all-append is_half_encoded y t (unit_half c y hc a) (encode_half (d ∷ s) t (hd, h) b))
]

replaced_encoded :
    (s : Str) → all is_half_encoded s ≡ true → all is_encoded (replace_marks s) ≡ true
unfolding replace_marks
replaced_encoded [] h = refl
replaced_encoded (c ∷ s) h = elim (Bool-cases (is_mark c)) [
  | inl m ↦
      rw (m, replace_marks)
        (all-append is_encoded (escape_byte c) (replace_marks s) (byte_encoded c (mark_small c m))
          (replaced_encoded s (ground (arith, h))))
  | inr m ↦ ground (arith, h, m, replaced_encoded s)
]

-- A segment of a path holds nothing but unreserved characters and percent signs; no slash, no
-- question mark and no number sign of a value reaches the path.
pub segment_encoded : (s x : Str) → IsUnits s → segment (some s) ≡ ok x → all is_encoded x ≡ true
unfolding segment
segment_encoded s x h q =
    let (e, a, b) = >>=-eq-ok (encode_uri_component s) _ q in
    let same : replace_marks e ≡ x = ground arith in
    rw (← same) (replaced_encoded e (encode_half s e h a))
