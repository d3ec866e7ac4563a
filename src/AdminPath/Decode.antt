-- ===== src/AdminPath/Decode.antt =====
-- A decoder of percent-encoded text, and what it makes of each piece of an encoded segment.
use key_cloak_sdk.Common.{
  ℕ, zero, suc, ◌+◌, ◌-◌, ◌*◌, ◌/◌, ◌%◌, ◌<◌, ◌≡◌, ◌≢◌, refl, ap, ◌∙◌, true, false, none, some,
  List, [], ◌∷◌, ◌++◌, Str, ltb, arith, if◌then◌else◌, ◌==◌, ◌||◌, ◌&&◌, All, append_assoc,
  Bool-cases, inl, inr,
}
use key_cloak_sdk.Outcome.{ok}
use key_cloak_sdk.AdminPath.{
  is_unreserved, is_mark, is_lead, is_trail, hex, escape_byte, escape_bytes, utf8, code_point,
  encode_unit, replace_marks,
}
use key_cloak_sdk.AdminPath.Utf8.{next_point, next_point-utf8}

unhex : ℕ → ℕ
unhex h = if ltb h 65 then h - 48 else h - 55

-- The bytes of a percent-encoded text.
unfoldable pub unescape : Str → List ℕ
unfolding unhex
unescape [] = []
unescape (c ∷ []) = c ∷ []
unescape (c ∷ h ∷ []) = c ∷ h ∷ []
unescape (c ∷ h ∷ l ∷ s) = elim (c == 37) [
  | true ↦ (unhex h * 16 + unhex l) ∷ unescape s
  | false ↦ c ∷ unescape (h ∷ l ∷ s)
]

unescape_byte : (b : ℕ) (r : Str) → b < 256 → unescape (escape_byte b ++ r) ≡ b ∷ unescape r
unfolding unescape escape_byte
unescape_byte b r h = ap (λ t. t ∷ unescape r) (ground arith)

unescape_plain : (c : ℕ) (r : Str) → c ≢ 37 → unescape (c ∷ r) ≡ c ∷ unescape r
unfolding unescape
unescape_plain c [] h = refl
unescape_plain c (d ∷ []) h = refl
unescape_plain c (d ∷ e ∷ r) h = ground arith

abbrev pub IsBytes : List ℕ → Type 0
IsBytes = All (λ b. b < 256)

mark_no : (c : ℕ) (r : Str) → is_mark c ≡ false → replace_marks (c ∷ r) ≡ c ∷ replace_marks r
unfolding replace_marks
mark_no c r h = ground arith

hex_plain : (d : ℕ) → d < 16 → is_mark (hex d) ≡ false
unfolding is_mark hex
hex_plain d h = ground arith

replace_escape :
    (b : ℕ) (r : Str)
    → b < 256
    → replace_marks (escape_byte b ++ r) ≡ escape_byte b ++ replace_marks r
unfolding escape_byte is_mark
replace_escape b r h =
    mark_no 37 _ refl
    ∙ ap (λ t. 37 ∷ t)
        (mark_no (hex (b / 16)) _ (hex_plain (b / 16) (omega arith))
          ∙ ap (λ t. hex (b / 16) ∷ t)
              (mark_no (hex (b % 16)) r (hex_plain (b % 16) (omega arith))))

unescape_bytes :
    (bs : List ℕ) (r : Str)
    → IsBytes bs
    → unescape (replace_marks (escape_bytes bs ++ r)) ≡ bs ++ unescape (replace_marks r)
unfolding escape_bytes
unescape_bytes [] r h = refl
unescape_bytes (b ∷ bs) r (hb, h) = rw append_assoc (
    rw
      (
        replace_escape b (escape_bytes bs ++ r) hb,
        unescape_byte b (replace_marks (escape_bytes bs ++ r)) hb,
        unescape_bytes bs r h,
      )
      refl)

pub utf8-IsBytes : (p : ℕ) → p < 1114112 → IsBytes (utf8 p)
unfolding utf8
utf8-IsBytes p h = ground arith

unreserved_lem :
    (c : ℕ)
    → is_unreserved c ≡ true
    → (is_mark c ≡ false) × (c ≢ 37) × (c < 128) × (is_lead c || is_trail c ≡ false)
unfolding is_unreserved is_mark is_lead is_trail
unreserved_lem c h = ground arith

mark_lem : (c : ℕ) → is_mark c ≡ true → (c < 128) × (is_lead c || is_trail c ≡ false)
unfolding is_mark is_lead is_trail
mark_lem c h = ground arith

utf8_ascii : (c : ℕ) → c < 128 → utf8 c ≡ c ∷ []
unfolding utf8
utf8_ascii c h = ground arith

mark_yes :
    (c : ℕ) (r : Str) → is_mark c ≡ true → replace_marks (c ∷ r) ≡ escape_byte c ++ replace_marks r
unfolding replace_marks
mark_yes c r h = rw (h, replace_marks) refl

abbrev Decodes : ℕ → Str → Str → Type 0
Decodes c y r =
    (unescape (replace_marks (y ++ r)) ≡ utf8 c ++ unescape (replace_marks r))
    × (is_lead c || is_trail c ≡ false)

Decodes-unreserved : (c : ℕ) (r : Str) → is_unreserved c ≡ true → Decodes c (c ∷ []) r
Decodes-unreserved c r h =
    let (unmarked, other, ascii, alone) = unreserved_lem c h in
    (
      rw (mark_no c r unmarked, unescape_plain c (replace_marks r) other, utf8_ascii c ascii) refl,
      alone,
    )

Decodes-mark : (c : ℕ) (r : Str) → is_mark c ≡ true → Decodes c (c ∷ []) r
Decodes-mark c r h =
    let (ascii, alone) = mark_lem c h in
    (
      rw (mark_yes c r h, unescape_byte c (replace_marks r) (omega arith), utf8_ascii c ascii) refl,
      alone,
    )

-- A code unit that stands alone: its text decodes to its own bytes, and it is no surrogate.
pub unit_lem : (c : ℕ) (y r : Str) → c < 65536 → encode_unit c ≡ ok y → Decodes c y r
unfolding encode_unit
unit_lem c y r h e = elim (Bool-cases (is_unreserved c)) [
  | inl u ↦ let same : c ∷ [] ≡ y = ground arith in rw (← same) (Decodes-unreserved c r u)
  | inr u ↦ elim (Bool-cases (is_mark c)) [
    | inl m ↦ let same : c ∷ [] ≡ y = ground arith in rw (← same) (Decodes-mark c r m)
    | inr m ↦ elim (Bool-cases (is_lead c || is_trail c)) [
      | inl l ↦ absurd (ground arith)
      | inr l ↦
          let same : escape_bytes (utf8 c) ≡ y = ground arith in
          rw (← same) (unescape_bytes (utf8 c) r (utf8-IsBytes c (omega arith)), l)
    ]
  ]
]

-- The code units of a code point.
pub units : ℕ → Str
units p =
    if ltb p 65536 then p ∷ [] else (55296 + (p - 65536) / 1024) ∷ (56320 + (p - 65536) % 1024) ∷ []

-- The text of a sequence of UTF-8 bytes, of at most so many code points.
pub decode : ℕ → List ℕ → Str
unfolding units
decode zero bytes = []
decode (suc fuel) bytes = elim (next_point bytes) [
  | none ↦ []
  | some (p, rest) ↦ units p ++ decode fuel rest
]

pub decode_step :
    (fuel p : ℕ) (rest : List ℕ)
    → p < 1114112
    → decode (suc fuel) (utf8 p ++ rest) ≡ units p ++ decode fuel rest
unfolding decode
decode_step fuel p rest h = rw (next_point-utf8 p rest h, decode) refl

pub decode_nil : (fuel : ℕ) → decode fuel [] ≡ []
unfolding decode next_point
decode_nil zero = refl
decode_nil (suc fuel) = refl

pub units_alone : (c : ℕ) → c < 65536 → units c ≡ c ∷ []
unfolding units
units_alone c h = ground arith

pub units_pair :
    (c d : ℕ)
    → (is_lead c && is_trail d) ≡ true
    → (units (code_point c d) ≡ c ∷ d ∷ []) × (code_point c d < 1114112)
unfolding units code_point is_lead is_trail
units_pair c d h = ground arith

pub pair_lem :
    (c d : ℕ) (r : Str)
    → (is_lead c && is_trail d) ≡ true
    → unescape (replace_marks (escape_bytes (utf8 (code_point c d)) ++ r))
      ≡ utf8 (code_point c d) ++ unescape (replace_marks r)
pair_lem c d r h =
    unescape_bytes (utf8 (code_point c d)) r (utf8-IsBytes (code_point c d) (units_pair c d h).1)
