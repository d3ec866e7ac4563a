-- ===== src/Values/Whole.antt =====
-- The operations on whole numbers.
use key_cloak_sdk.Common.{ℕ, ◌+◌, ◌*◌, ◌-◌, ◌≡◌, leb, ltb, arith}
use key_cloak_sdk.Values.{whole, num_lt, num_le, num_add, num_sub, max_zero, num_scale}

pub num_add-whole : (a b : ℕ) → num_add (whole a) (whole b) ≡ whole (a + b)
unfolding num_add
num_add-whole a b = ground arith

pub num_le-whole : (a b : ℕ) → num_le (whole a) (whole b) ≡ leb a b
unfolding num_le
num_le-whole a b = ground arith

pub num_lt-whole : (a b : ℕ) → num_lt (whole a) (whole b) ≡ ltb a b
unfolding num_lt
num_lt-whole a b = ground arith

-- `Math.max(0, a - b) * k`
pub ttl_whole :
    (a b k : ℕ) → num_scale (max_zero (num_sub (whole a) (whole b))) k ≡ whole ((a - b) * k)
unfolding num_scale max_zero num_sub
ttl_whole a b k = ground arith
