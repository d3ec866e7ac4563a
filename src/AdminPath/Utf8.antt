-- ===== src/AdminPath/Utf8.antt =====
-- A decoder of UTF-8, and that it undoes the encoder.
use native.Mathlib.Decide.{dec_lt}
use key_cloak_sdk.Common.{
  ℕ, ◌+◌, ◌-◌, ◌*◌, ◌/◌, ◌%◌, ◌≤◌, ◌<◌, ◌≡◌, false, Option, none, some, List, [], ◌∷◌, ◌++◌, ltb,
  lt→ltb, arith, if◌then◌else◌,
}
use key_cloak_sdk.AdminPath.{utf8}

two : ℕ → List ℕ → Option (ℕ × List ℕ)
two a [] = none
two a (b ∷ r) = some ((a - 192) * 64 + (b - 128), r)

three : ℕ → List ℕ → Option (ℕ × List ℕ)
three a (b ∷ c ∷ r) = some ((a - 224) * 4096 + (b - 128) * 64 + (c - 128), r)
three a _ = none

four : ℕ → List ℕ → Option (ℕ × List ℕ)
four a (b ∷ c ∷ d ∷ r) =
    some ((a - 240) * 262144 + (b - 128) * 4096 + (c - 128) * 64 + (d - 128), r)
four a _ = none

-- The first code point of a sequence of bytes, and the bytes behind it.
unfoldable pub next_point : List ℕ → Option (ℕ × List ℕ)
unfolding two three four
next_point [] = none
next_point (a ∷ r) =
    if ltb a 128
    then some (a, r)
    else if ltb a 224
    then two a r
    else if ltb a 240
    then three a r
    else four a r

ltb_no : (a b : ℕ) → ¬ (a < b) → ltb a b ≡ false
ltb_no a b h = ground arith

module _ (p : ℕ) (r : List ℕ) where
  point_one : p < 128 → next_point (p ∷ r) ≡ some (p, r)
  unfolding next_point
  point_one h = ground arith

  point_two : 128 ≤ p → p < 2048 → next_point ((192 + p / 64) ∷ (128 + p % 64) ∷ r) ≡ some (p, r)
  unfolding next_point
  point_two g h = ground arith

  point_three :
      2048 ≤ p
      → p < 65536
      → next_point ((224 + p / 4096) ∷ (128 + p / 64 % 64) ∷ (128 + p % 64) ∷ r) ≡ some (p, r)
  unfolding next_point
  point_three g h = ground arith

  point_four :
      65536 ≤ p
      → p < 1114112
      → next_point
          ((240 + p / 262144) ∷ (128 + p / 4096 % 64) ∷ (128 + p / 64 % 64) ∷ (128 + p % 64) ∷ r)
        ≡ some (p, r)
  unfolding next_point
  point_four g h = ground arith

-- Decoding what `utf8` makes of a code point gives it back, with what follows.
pub next_point-utf8 : (p : ℕ) (r : List ℕ) → p < 1114112 → next_point (utf8 p ++ r) ≡ some (p, r)
unfolding utf8
next_point-utf8 p r h = elim (dec_lt p 128) [
  | yes a ↦ rw (lt→ltb _ _ a, utf8) (point_one p r a)
  | no a ↦ elim (dec_lt p 2048) [
    | yes b ↦ rw (ltb_no _ _ a, lt→ltb _ _ b, utf8) (point_two p r (omega arith) b)
    | no b ↦ elim (dec_lt p 65536) [
      | yes c ↦
          rw (ltb_no _ _ a, ltb_no _ _ b, lt→ltb _ _ c, utf8) (point_three p r (omega arith) c)
      | no c ↦ rw (ltb_no _ _ a, ltb_no _ _ b, ltb_no _ _ c, utf8) (point_four p r (omega arith) h)
    ]
  ]
]
