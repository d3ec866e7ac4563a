-- ===== src/JobCondition/Levels.antt =====
-- What reads an operand of `!` reads it at each level of the evaluator.
use key_cloak_sdk.Common.{
  ℕ, ◌≤◌, ◌≡◌, refl, Option, none, some, List, [], ◌∷◌, ◌++◌, length, append_assoc,
}
use key_cloak_sdk.JobCondition.{
  Scalar, Scenario, Token, op, paren_open, paren_close, ◌>>=◌, Parsed, expect_close, prim, un_e,
  eq_loop, eq_e, and_loop, and_e, or_loop, or_with,
}
use key_cloak_sdk.JobCondition.Ends.{
  is_after_name, is_after_or, is_after_and, is_after_eq, with_rest, eq_ends, and_ends, or_ends,
  after_or, after_and, after_eq,
}
use key_cloak_sdk.JobCondition.Loops.{Reads, Goes, Goes-one, reads_all}

module _ (s : Scenario) (rec : List Token → Parsed) (g : ℕ) where
  pub reads_eq :
      (ts : List Token) (o : Option Scalar)
      → length ts ≤ g
      → Goes g (un_e s rec g) (eq_loop s rec g) is_after_name ts o
      → Reads g (eq_e s rec g) is_after_eq ts o
  unfolding eq_e
  reads_eq ts o le goes =
      reads_all g (un_e s rec g) (eq_loop s rec g) is_after_name is_after_eq ts o (eq_ends s rec g)
        (after_eq s rec g) le goes

  pub reads_and :
      (ts : List Token) (o : Option Scalar)
      → length ts ≤ g
      → Goes g (eq_e s rec g) (and_loop s rec g) is_after_eq ts o
      → Reads g (and_e s rec g) is_after_and ts o
  unfolding and_e
  reads_and ts o le goes =
      reads_all g (eq_e s rec g) (and_loop s rec g) is_after_eq is_after_and ts o (and_ends s rec g)
        (after_and s rec g) le goes

  pub reads_or :
      (ts : List Token) (o : Option Scalar)
      → length ts ≤ g
      → Goes g (and_e s rec g) (or_loop s rec g) is_after_and ts o
      → Reads g (or_with s rec g) is_after_or ts o
  unfolding or_with
  reads_or ts o le goes =
      reads_all g (and_e s rec g) (or_loop s rec g) is_after_and is_after_or ts o (or_ends s rec g)
        (after_or s rec g) le goes

  -- The parser below reads the tokens at each level.
  pub up2 :
      (ts : List Token) (o : Option Scalar)
      → 1 ≤ length ts
      → Reads g (un_e s rec g) is_after_name ts o
      → Goes g (un_e s rec g) (eq_loop s rec g) is_after_name ts o
  up2 ts o filled r = Goes-one g (un_e s rec g) (eq_loop s rec g) is_after_name ts o filled r

  pub up1 :
      (ts : List Token) (o : Option Scalar)
      → 1 ≤ length ts
      → length ts ≤ g
      → Goes g (un_e s rec g) (eq_loop s rec g) is_after_name ts o
      → Goes g (eq_e s rec g) (and_loop s rec g) is_after_eq ts o
  up1 ts o filled le r =
      Goes-one g (eq_e s rec g) (and_loop s rec g) is_after_eq ts o filled (reads_eq ts o le r)

  pub up0 :
      (ts : List Token) (o : Option Scalar)
      → 1 ≤ length ts
      → length ts ≤ g
      → Goes g (eq_e s rec g) (and_loop s rec g) is_after_eq ts o
      → Goes g (and_e s rec g) (or_loop s rec g) is_after_and ts o
  up0 ts o filled le r =
      Goes-one g (and_e s rec g) (or_loop s rec g) is_after_and ts o filled (reads_and ts o le r)

  -- A condition in parentheses.
  pub reads_group :
      (ts : List Token) (o : Option Scalar)
      → ((rest : List Token)
          → rec (ts ++ (op paren_close ∷ rest)) ≡ with_rest o (op paren_close ∷ rest))
      → Reads g (un_e s rec g) is_after_name (op paren_open ∷ (ts ++ (op paren_close ∷ []))) o
  unfolding Reads un_e prim expect_close
  reads_group ts o inner rest h =
      rw (append_assoc ts (op paren_close ∷ []) rest, inner rest) (closed o rest)
    where
      closed :
          (o : Option Scalar) (rest : List Token)
          → with_rest o (op paren_close ∷ rest) >>= expect_close s ≡ with_rest o rest
      closed none rest = refl
      closed (some v) rest = refl

  -- Tokens that an operand of `!` reads are read at each level.
  pub all_levels :
      (ts : List Token) (o : Option Scalar)
      → 1 ≤ length ts
      → (length ts ≤ g → Reads g (un_e s rec g) is_after_name ts o)
      → (length ts ≤ g → Goes g (and_e s rec g) (or_loop s rec g) is_after_and ts o)
        × (length ts ≤ g → Goes g (eq_e s rec g) (and_loop s rec g) is_after_eq ts o)
        × (length ts ≤ g → Goes g (un_e s rec g) (eq_loop s rec g) is_after_name ts o)
        × (length ts ≤ g → Reads g (un_e s rec g) is_after_name ts o)
  all_levels ts o filled r = (
    λ le. up0 ts o filled le (up1 ts o filled le (up2 ts o filled (r le))),
    λ le. up1 ts o filled le (up2 ts o filled (r le)),
    λ le. up2 ts o filled (r le),
    r,
  )
