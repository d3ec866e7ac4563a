-- ===== src/Values.antt =====
-- The values of the program: JavaScript numbers, and the values that `JSON.parse` and untyped
-- arguments bring. A finite number is an exact fraction, so every double has its value; sums and
-- products are exact, where a double would round them beyond 2 ^ 53.
pub mod Json
pub mod Whole
use key_cloak_sdk.Common.{
  ℕ, zero, suc, ◌+◌, ◌-◌, ◌*◌, ◌/◌, ◌%◌, Bool, true, false, ◌&&◌, ◌||◌, ltb, leb, if◌then◌else◌,
  ◌==◌, not,
}

-- `negsuc n` is -(n + 1).
pub data ℤ : Type 0 where
  pos negsuc : ℕ → ℤ

-- a - b, as an integer.
abbrev pub sub_ℕ : ℕ → ℕ → ℤ
sub_ℕ a b = if leb b a then pos (a - b) else negsuc (b - a - 1)

abbrev pub pos_part : ℤ → ℕ
pos_part (pos n) = n
pos_part (negsuc n) = 0

abbrev pub neg_part : ℤ → ℕ
neg_part (pos n) = 0
neg_part (negsuc n) = suc n

-- `finite z d` is z / (d + 1).
pub data Num : Type 0 where
  nan infinity neg_infinity : Num
  finite : ℤ → ℕ → Num

abbrev pub whole : ℕ → Num
whole n = finite (pos n) 0

-- `Number.isFinite(v)`
unfoldable pub is_finite : Num → Bool
is_finite (finite _ _) = true
is_finite _ = false

abbrev scale : ℤ → ℕ → ℤ
scale (pos n) k = pos (n * k)
scale (negsuc n) k = sub_ℕ 0 (suc n * k)

abbrev add_ℤ : ℤ → ℤ → ℤ
add_ℤ a b = sub_ℕ (pos_part a + pos_part b) (neg_part a + neg_part b)

abbrev negate_ℤ : ℤ → ℤ
negate_ℤ a = sub_ℕ (neg_part a) (pos_part a)

abbrev lt_ℤ : ℤ → ℤ → Bool
lt_ℤ a b = ltb (pos_part a + neg_part b) (pos_part b + neg_part a)

-- `a < b`; no comparison with NaN holds.
unfoldable pub num_lt : Num → Num → Bool
num_lt nan b = false
num_lt a nan = false
num_lt infinity b = false
num_lt a neg_infinity = false
num_lt neg_infinity b = true
num_lt a infinity = true
num_lt (finite a d) (finite b e) = lt_ℤ (scale a (suc e)) (scale b (suc d))

-- `a <= b`
unfoldable pub num_le : Num → Num → Bool
num_le nan b = false
num_le a nan = false
num_le neg_infinity b = true
num_le a infinity = true
num_le infinity b = false
num_le a neg_infinity = false
num_le (finite a d) (finite b e) = not (lt_ℤ (scale b (suc d)) (scale a (suc e)))

-- `a + b`
unfoldable pub num_add : Num → Num → Num
num_add nan b = nan
num_add a nan = nan
num_add infinity neg_infinity = nan
num_add neg_infinity infinity = nan
num_add infinity b = infinity
num_add neg_infinity b = neg_infinity
num_add a infinity = infinity
num_add a neg_infinity = neg_infinity
num_add (finite a d) (finite b e) =
    finite (add_ℤ (scale a (suc e)) (scale b (suc d))) (suc d * suc e - 1)

unfoldable pub num_negate : Num → Num
num_negate nan = nan
num_negate infinity = neg_infinity
num_negate neg_infinity = infinity
num_negate (finite a d) = finite (negate_ℤ a) d

-- `a - b`
unfoldable pub num_sub : Num → Num → Num
unfolding num_add num_negate
num_sub a b = num_add a (num_negate b)

-- `a * k`, for a positive whole number k.
unfoldable pub num_scale : Num → ℕ → Num
num_scale (finite a d) k = finite (scale a k) d
num_scale a k = a

-- `Math.max(0, a)`
unfoldable pub max_zero : Num → Num
unfolding num_lt
max_zero nan = nan
max_zero a = if num_lt a (whole 0) then whole 0 else a
