-- ===== src/JobCondition/Tree.antt =====
-- Conditions as trees: what they mean, and how they are written with as few parentheses as the
-- precedence of the operators allows.
use key_cloak_sdk.Common.{ℕ, Bool, true, false, not, Option, some, List, [], ◌∷◌, ◌++◌, Str, ltb}
use key_cloak_sdk.JobCondition.{
  Scalar, Scenario, Token, literal, id, or_op, and_op, eq_op, ne_op, paren_open, paren_close, bang,
  ◌>>=◌, or_value, and_value, not_value, expr_eq, name_value,
}

-- A condition without calls.
pub data Expr : Type 0 where
  constant : Scalar → Expr
  context : Str → Expr
  negation : Expr → Expr
  equal unequal both either : Expr → Expr → Expr

-- The value of a condition, with none where a name is not in the scenario, in any of its parts.
unfoldable pub meaning : Scenario → Expr → Option Scalar
unfolding or_value and_value not_value expr_eq name_value
meaning s (constant v) = some v
meaning s (context name) = name_value s (s.lower name)
meaning s (negation e) = meaning s e >>= (λ v. some (not_value v))
meaning s (equal a b) =
    meaning s a >>= (λ v. meaning s b >>= (λ w. some (Scalar.boolean (expr_eq s v w))))
meaning s (unequal a b) =
    meaning s a >>= (λ v. meaning s b >>= (λ w. some (Scalar.boolean (not (expr_eq s v w)))))
meaning s (both a b) = meaning s a >>= (λ v. meaning s b >>= (λ w. some (and_value v w)))
meaning s (either a b) = meaning s a >>= (λ v. meaning s b >>= (λ w. some (or_value v w)))

abbrev wrap : Bool → List Token → List Token
wrap false ts = ts
wrap true ts = Token.op paren_open ∷ (ts ++ (Token.op paren_close ∷ []))

-- The tokens of a condition, where an operand may stand whose operator binds at least as tightly as
-- the level: 0 is `||`, 1 is `&&`, 2 is `==` and `!=`, 3 is `!`.
unfoldable pub written : ℕ → Expr → List Token
written l (constant v) = literal v ∷ []
written l (context name) = id name ∷ []
written l (negation e) = wrap (ltb 3 l) (Token.op bang ∷ written 3 e)
written l (equal a b) = wrap (ltb 2 l) (written 2 a ++ (Token.op eq_op ∷ written 3 b))
written l (unequal a b) = wrap (ltb 2 l) (written 2 a ++ (Token.op ne_op ∷ written 3 b))
written l (both a b) = wrap (ltb 1 l) (written 1 a ++ (Token.op and_op ∷ written 2 b))
written l (either a b) = wrap (ltb 0 l) (written 0 a ++ (Token.op or_op ∷ written 1 b))
