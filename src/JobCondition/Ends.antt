-- ===== src/JobCondition/Ends.antt =====
-- Where the loops of the evaluator end.
use key_cloak_sdk.Common.{ℕ, suc, ◌≡◌, refl, Bool, true, false, Option, some, List, [], ◌∷◌}
use key_cloak_sdk.JobCondition.{
  Scalar, Scenario, Token, literal, id, op, or_op, and_op, eq_op, ne_op, lt_op, le_op, gt_op, ge_op,
  paren_open, paren_close, bang, comma, ◌>>=◌, Parsed, name_value, name_prim, eq_loop, and_loop,
  or_loop,
}

-- What may follow an operand of `!`, of `==`, of `&&` and of `||`.
abbrev pub is_after_name : List Token → Bool
is_after_name (op paren_open ∷ ts) = false
is_after_name _ = true

abbrev pub is_after_or : List Token → Bool
is_after_or [] = true
is_after_or (op paren_close ∷ ts) = true
is_after_or _ = false

abbrev pub is_after_and : List Token → Bool
is_after_and (op or_op ∷ ts) = true
is_after_and ts = is_after_or ts

abbrev pub is_after_eq : List Token → Bool
is_after_eq (op and_op ∷ ts) = true
is_after_eq ts = is_after_and ts

-- The value with the tokens that are left.
abbrev pub with_rest : Option Scalar → List Token → Parsed
with_rest o rest = o >>= (λ v. some (v, rest))

module _ (s : Scenario) (rec : List Token → Parsed) (g : ℕ) where
  pub name_lem :
      (name : List ℕ) (rest : List Token)
      → is_after_name rest ≡ true
      → name_prim s rec g name rest ≡ with_rest (name_value s name) rest
  unfolding name_prim
  name_lem name [] h = refl
  name_lem name (literal v ∷ ts) h = refl
  name_lem name (id x ∷ ts) h = refl
  name_lem name (op or_op ∷ ts) h = refl
  name_lem name (op and_op ∷ ts) h = refl
  name_lem name (op eq_op ∷ ts) h = refl
  name_lem name (op ne_op ∷ ts) h = refl
  name_lem name (op lt_op ∷ ts) h = refl
  name_lem name (op le_op ∷ ts) h = refl
  name_lem name (op gt_op ∷ ts) h = refl
  name_lem name (op ge_op ∷ ts) h = refl
  name_lem name (op paren_open ∷ ts) h = cc
  name_lem name (op paren_close ∷ ts) h = refl
  name_lem name (op bang ∷ ts) h = refl
  name_lem name (op comma ∷ ts) h = refl

  pub eq_ends :
      (n : ℕ) (v : Scalar) (rest : List Token)
      → is_after_eq rest ≡ true
      → eq_loop s rec g (suc n) (v, rest) ≡ some (v, rest)
  unfolding eq_loop
  eq_ends n w [] h = refl
  eq_ends n w (literal v ∷ ts) h = cc
  eq_ends n w (id x ∷ ts) h = cc
  eq_ends n w (op or_op ∷ ts) h = refl
  eq_ends n w (op and_op ∷ ts) h = refl
  eq_ends n w (op eq_op ∷ ts) h = cc
  eq_ends n w (op ne_op ∷ ts) h = cc
  eq_ends n w (op lt_op ∷ ts) h = cc
  eq_ends n w (op le_op ∷ ts) h = cc
  eq_ends n w (op gt_op ∷ ts) h = cc
  eq_ends n w (op ge_op ∷ ts) h = cc
  eq_ends n w (op paren_open ∷ ts) h = cc
  eq_ends n w (op paren_close ∷ ts) h = refl
  eq_ends n w (op bang ∷ ts) h = cc
  eq_ends n w (op comma ∷ ts) h = cc

  pub and_ends :
      (n : ℕ) (v : Scalar) (rest : List Token)
      → is_after_and rest ≡ true
      → and_loop s rec g (suc n) (v, rest) ≡ some (v, rest)
  unfolding and_loop
  and_ends n w [] h = refl
  and_ends n w (literal v ∷ ts) h = cc
  and_ends n w (id x ∷ ts) h = cc
  and_ends n w (op or_op ∷ ts) h = refl
  and_ends n w (op and_op ∷ ts) h = cc
  and_ends n w (op eq_op ∷ ts) h = cc
  and_ends n w (op ne_op ∷ ts) h = cc
  and_ends n w (op lt_op ∷ ts) h = cc
  and_ends n w (op le_op ∷ ts) h = cc
  and_ends n w (op gt_op ∷ ts) h = cc
  and_ends n w (op ge_op ∷ ts) h = cc
  and_ends n w (op paren_open ∷ ts) h = cc
  and_ends n w (op paren_close ∷ ts) h = refl
  and_ends n w (op bang ∷ ts) h = cc
  and_ends n w (op comma ∷ ts) h = cc

  pub or_ends :
      (n : ℕ) (v : Scalar) (rest : List Token)
      → is_after_or rest ≡ true
      → or_loop s rec g (suc n) (v, rest) ≡ some (v, rest)
  unfolding or_loop
  or_ends n w [] h = refl
  or_ends n w (literal v ∷ ts) h = cc
  or_ends n w (id x ∷ ts) h = cc
  or_ends n w (op or_op ∷ ts) h = cc
  or_ends n w (op and_op ∷ ts) h = cc
  or_ends n w (op eq_op ∷ ts) h = cc
  or_ends n w (op ne_op ∷ ts) h = cc
  or_ends n w (op lt_op ∷ ts) h = cc
  or_ends n w (op le_op ∷ ts) h = cc
  or_ends n w (op gt_op ∷ ts) h = cc
  or_ends n w (op ge_op ∷ ts) h = cc
  or_ends n w (op paren_open ∷ ts) h = cc
  or_ends n w (op paren_close ∷ ts) h = refl
  or_ends n w (op bang ∷ ts) h = cc
  or_ends n w (op comma ∷ ts) h = cc

  pub after_or : (rest : List Token) → is_after_or rest ≡ true → is_after_and rest ≡ true
  after_or [] h = refl
  after_or (literal v ∷ ts) h = cc
  after_or (id x ∷ ts) h = cc
  after_or (op or_op ∷ ts) h = cc
  after_or (op and_op ∷ ts) h = cc
  after_or (op eq_op ∷ ts) h = cc
  after_or (op ne_op ∷ ts) h = cc
  after_or (op lt_op ∷ ts) h = cc
  after_or (op le_op ∷ ts) h = cc
  after_or (op gt_op ∷ ts) h = cc
  after_or (op ge_op ∷ ts) h = cc
  after_or (op paren_open ∷ ts) h = cc
  after_or (op paren_close ∷ ts) h = refl
  after_or (op bang ∷ ts) h = cc
  after_or (op comma ∷ ts) h = cc

  pub after_and : (rest : List Token) → is_after_and rest ≡ true → is_after_eq rest ≡ true
  after_and [] h = refl
  after_and (literal v ∷ ts) h = cc
  after_and (id x ∷ ts) h = cc
  after_and (op or_op ∷ ts) h = refl
  after_and (op and_op ∷ ts) h = cc
  after_and (op eq_op ∷ ts) h = cc
  after_and (op ne_op ∷ ts) h = cc
  after_and (op lt_op ∷ ts) h = cc
  after_and (op le_op ∷ ts) h = cc
  after_and (op gt_op ∷ ts) h = cc
  after_and (op ge_op ∷ ts) h = cc
  after_and (op paren_open ∷ ts) h = cc
  after_and (op paren_close ∷ ts) h = refl
  after_and (op bang ∷ ts) h = cc
  after_and (op comma ∷ ts) h = cc

  pub after_eq : (rest : List Token) → is_after_eq rest ≡ true → is_after_name rest ≡ true
  after_eq [] h = refl
  after_eq (literal v ∷ ts) h = cc
  after_eq (id x ∷ ts) h = cc
  after_eq (op or_op ∷ ts) h = refl
  after_eq (op and_op ∷ ts) h = refl
  after_eq (op eq_op ∷ ts) h = cc
  after_eq (op ne_op ∷ ts) h = cc
  after_eq (op lt_op ∷ ts) h = cc
  after_eq (op le_op ∷ ts) h = cc
  after_eq (op gt_op ∷ ts) h = cc
  after_eq (op ge_op ∷ ts) h = cc
  after_eq (op paren_open ∷ ts) h = cc
  after_eq (op paren_close ∷ ts) h = refl
  after_eq (op bang ∷ ts) h = cc
  after_eq (op comma ∷ ts) h = cc
