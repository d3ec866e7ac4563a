-- ===== src/JobCondition/Laws.antt =====
-- The evaluator reads a condition as the tree that it is written from.
use key_cloak_sdk.Common.{
  ℕ, zero, suc, ◌≤◌, ◌≡◌, refl, sym, ap, ◌∙◌, true, not, Option, none, some, List, [], ◌∷◌, ◌++◌,
  length, length-append, append-nil, arith,
}
use key_cloak_sdk.JobCondition.{
  Scalar, Scenario, Token, literal, id, op, or_op, and_op, eq_op, ne_op, paren_open, paren_close,
  bang, ◌>>=◌, Parsed, or_value, and_value, not_value, expr_eq, name_value, prim, un_e, eq_loop,
  eq_e, and_loop, and_e, or_loop, or_e, eval_tokens,
}
use key_cloak_sdk.JobCondition.Tree.{
  Expr, constant, context, negation, equal, unequal, both, either, meaning, written,
}
use key_cloak_sdk.JobCondition.Ends.{
  is_after_name, is_after_or, is_after_and, is_after_eq, with_rest, name_lem,
}
use key_cloak_sdk.JobCondition.Loops.{Reads, Goes, Goes-more}
use key_cloak_sdk.JobCondition.Levels.{
  reads_eq, reads_and, reads_or, up1, up0, reads_group, all_levels,
}

written_filled : (e : Expr) → 1 ≤ length (written 0 e)
unfolding written
written_filled (constant v) = omega arith
written_filled (context name) = omega arith
written_filled (negation e) = omega arith
written_filled (equal a b) = omega (arith, length-append (written 2 a) (op eq_op ∷ written 3 b))
written_filled (unequal a b) = omega (arith, length-append (written 2 a) (op ne_op ∷ written 3 b))
written_filled (both a b) = omega (arith, length-append (written 1 a) (op and_op ∷ written 2 b))
written_filled (either a b) = omega (arith, length-append (written 0 a) (op or_op ∷ written 1 b))

module _ (s : Scenario) (rec : List Token → Parsed) (g : ℕ) where
  -- What is read of a condition at each level.
  Fine : Expr → Type 0
  Fine e =
      (length (written 0 e) ≤ g
        → Goes g (and_e s rec g) (or_loop s rec g) is_after_and (written 0 e) (meaning s e))
      × (length (written 1 e) ≤ g
          → Goes g (eq_e s rec g) (and_loop s rec g) is_after_eq (written 1 e) (meaning s e))
      × (length (written 2 e) ≤ g
          → Goes g (un_e s rec g) (eq_loop s rec g) is_after_name (written 2 e) (meaning s e))
      × (length (written 3 e) ≤ g
          → Reads g (un_e s rec g) is_after_name (written 3 e) (meaning s e))

  module _
      (inner : (e : Expr) (rest : List Token)
        → suc (length (written 0 e)) ≤ g
        → rec (written 0 e ++ (op paren_close ∷ rest))
          ≡ with_rest (meaning s e) (op paren_close ∷ rest)) where
    grouped :
        (e : Expr)
        → length (op paren_open ∷ (written 0 e ++ (op paren_close ∷ []))) ≤ g
        → Reads g
            (un_e s rec g)
            is_after_name
            (op paren_open ∷ (written 0 e ++ (op paren_close ∷ [])))
            (meaning s e)
    grouped e le =
        let len = length-append (written 0 e) (op paren_close ∷ []) in
        reads_group s rec g (written 0 e) (meaning s e) (λ rest. inner e rest (omega arith))

    group_levels :
        (e : Expr)
        → let ts : List Token = op paren_open ∷ (written 0 e ++ (op paren_close ∷ [])) in
          (length ts ≤ g → Goes g (and_e s rec g) (or_loop s rec g) is_after_and ts (meaning s e))
          × (length ts ≤ g → Goes g (eq_e s rec g) (and_loop s rec g) is_after_eq ts (meaning s e))
          × (length ts ≤ g → Goes g (un_e s rec g) (eq_loop s rec g) is_after_name ts (meaning s e))
          × (length ts ≤ g → Reads g (un_e s rec g) is_after_name ts (meaning s e))
    group_levels e = all_levels s rec g _ (meaning s e) (omega arith) (grouped e)

    negated :
        (ts : List Token) (o : Option Scalar)
        → Reads g (un_e s rec g) is_after_name ts o
        → Reads g (un_e s rec g) is_after_name (op bang ∷ ts) (o >>= (λ v. some (not_value v)))
    unfolding Reads un_e
    negated ts o r rest h = rw (r rest h) (turned o)
      where
        turned :
            (o : Option Scalar)
            → with_rest o rest >>= (λ r. some (not_value r.0, r.1))
              ≡ with_rest (o >>= (λ v. some (not_value v))) rest
        turned none = refl
        turned (some v) = refl

    literal_reads : (v : Scalar) → Reads g (un_e s rec g) is_after_name (literal v ∷ []) (some v)
    unfolding Reads un_e prim
    literal_reads v rest h = refl

    name_reads :
        (name : List ℕ)
        → Reads g (un_e s rec g) is_after_name (id name ∷ []) (name_value s (s.lower name))
    unfolding Reads un_e prim
    name_reads name rest h = name_lem s rec g (s.lower name) rest h

    -- A comparison.
    compared :
        (t : Token) (f : Scalar → Scalar → Scalar) (a b : Expr)
        → ((n : ℕ) (v : Scalar) (xs : List Token)
            → eq_loop s rec g (suc n) (v, t ∷ xs)
              ≡ (un_e s rec g xs >>= (λ r. eq_loop s rec g n (f v r.0, r.1))))
        → ((xs : List Token) → is_after_name (t ∷ xs) ≡ true)
        → Fine a
        → Fine b
        → length (written 2 a ++ (t ∷ written 3 b)) ≤ g
        → Goes g
            (un_e s rec g)
            (eq_loop s rec g)
            is_after_name
            (written 2 a ++ (t ∷ written 3 b))
            (meaning s a >>= (λ v. meaning s b >>= (λ w. some (f v w))))
    unfolding Fine
    compared t f a b step first fine_a fine_b le =
        let len = length-append (written 2 a) (t ∷ written 3 b) in
        Goes-more g (un_e s rec g) (eq_loop s rec g) is_after_name is_after_name t f (written 2 a)
          (written 3 b) (meaning s a) (meaning s b) step first (fine_a.2 (omega arith))
          (fine_b.3 (omega arith))

    compared_levels :
        (ts : List Token) (o : Option Scalar)
        → 1 ≤ length ts
        → (length ts ≤ g → Goes g (un_e s rec g) (eq_loop s rec g) is_after_name ts o)
        → (length ts ≤ g → Goes g (and_e s rec g) (or_loop s rec g) is_after_and ts o)
          × (length ts ≤ g → Goes g (eq_e s rec g) (and_loop s rec g) is_after_eq ts o)
          × (length ts ≤ g → Goes g (un_e s rec g) (eq_loop s rec g) is_after_name ts o)
    compared_levels ts o filled goes = (
      λ le. up0 s rec g ts o filled le (up1 s rec g ts o filled le (goes le)),
      λ le. up1 s rec g ts o filled le (goes le),
      goes,
    )

    both_goes :
        (a b : Expr)
        → Fine a
        → Fine b
        → length (written 1 (both a b)) ≤ g
        → Goes g
            (eq_e s rec g)
            (and_loop s rec g)
            is_after_eq
            (written 1 (both a b))
            (meaning s (both a b))
    unfolding Fine written meaning and_loop
    both_goes a b fine_a fine_b le =
        let len = length-append (written 1 a) (op and_op ∷ written 2 b) in
        Goes-more g (eq_e s rec g) (and_loop s rec g) is_after_eq is_after_eq (op and_op) and_value
          (written 1 a) (written 2 b) (meaning s a) (meaning s b) (λ n v xs. refl) (λ xs. refl)
          (fine_a.1 (omega arith))
          (reads_eq s rec g (written 2 b) (meaning s b) (omega arith) (fine_b.2 (omega arith)))

    either_goes :
        (a b : Expr)
        → Fine a
        → Fine b
        → length (written 0 (either a b)) ≤ g
        → Goes g
            (and_e s rec g)
            (or_loop s rec g)
            is_after_and
            (written 0 (either a b))
            (meaning s (either a b))
    unfolding Fine written meaning or_loop
    either_goes a b fine_a fine_b le =
        let len = length-append (written 0 a) (op or_op ∷ written 1 b) in
        Goes-more g (and_e s rec g) (or_loop s rec g) is_after_and is_after_and (op or_op) or_value
          (written 0 a) (written 1 b) (meaning s a) (meaning s b) (λ n v xs. refl) (λ xs. refl)
          (fine_a.0 (omega arith))
          (reads_and s rec g (written 1 b) (meaning s b) (omega arith) (fine_b.1 (omega arith)))

    fine : (e : Expr) → Fine e
    unfolding Fine written meaning eq_loop
    fine (constant v) =
        all_levels s rec g (literal v ∷ []) (some v) (omega arith) (λ _. literal_reads v)
    fine (context name) =
        all_levels s rec g (id name ∷ []) (name_value s (s.lower name)) (omega arith)
          (λ _. name_reads name)
    fine (negation e) =
        all_levels s rec g (op bang ∷ written 3 e) (meaning s (negation e)) (omega arith)
          (λ le. negated (written 3 e) (meaning s e) ((fine e).3 (omega arith)))
    fine (equal a b) =
        let goes =
          compared (op eq_op) (λ v w. Scalar.boolean (expr_eq s v w)) a b (λ n v xs. refl)
            (λ xs. refl) (fine a) (fine b) in
        let levels = compared_levels _ (meaning s (equal a b)) (written_filled (equal a b)) goes in
        (levels.0, levels.1, goes, (group_levels (equal a b)).3)
    fine (unequal a b) =
        let goes =
          compared (op ne_op) (λ v w. Scalar.boolean (not (expr_eq s v w))) a b (λ n v xs. refl)
            (λ xs. refl) (fine a) (fine b) in
        let levels =
          compared_levels _ (meaning s (unequal a b)) (written_filled (unequal a b)) goes in
        (levels.0, levels.1, goes, (group_levels (unequal a b)).3)
    fine (both a b) =
        let goes = both_goes a b (fine a) (fine b) in
        let groups = group_levels (both a b) in
        (
          λ le. up0 s rec g _ (meaning s (both a b)) (written_filled (both a b)) le (goes le),
          goes,
          groups.2,
          groups.3,
        )
    fine (either a b) =
        let groups = group_levels (either a b) in
        (either_goes a b (fine a) (fine b), groups.1, groups.2, groups.3)

or_e_lem :
    (s : Scenario) (f : ℕ) (e : Expr) (rest : List Token)
    → length (written 0 e) ≤ f
    → is_after_or rest ≡ true
    → or_e s f (written 0 e ++ rest) ≡ with_rest (meaning s e) rest
unfolding or_e Reads Fine
or_e_lem s zero e rest le h = absurd (omega (arith, written_filled e))
or_e_lem s (suc f) e rest le h =
    reads_or s (or_e s f) (suc f) (written 0 e) (meaning s e) le
      ((fine s (or_e s f) (suc f)
          (λ e rest shorter. or_e_lem s f e (op paren_close ∷ rest) (omega arith) refl) e).0
        le)
      rest h

-- The evaluator gives each condition without calls its meaning, when the condition is written with
-- as few parentheses as the precedence of the operators allows: `||` and `&&` bind in this order to
-- the left, comparisons bind tighter and `!` the tightest, and a name that the scenario has not is an
-- error in every part. As many rounds as there are tokens are enough.
pub eval_tokens_lem : (s : Scenario) (e : Expr) → eval_tokens s (written 0 e) ≡ meaning s e
unfolding eval_tokens
eval_tokens_lem s e =
    let read = or_e_lem s (length (written 0 e)) e [] (omega arith) refl in
    let ts = append-nil (written 0 e) in
    rw (eval_tokens, sym (ap (or_e s (length (written 0 e))) ts) ∙ read) (no_rest (meaning s e))
  where
    no_rest :
        (o : Option Scalar)
        → (elim (with_rest o []) as (λ _. Option Scalar) [
          | some (v, []) ↦ some v
          | some (v, t ∷ ts) ↦ none
          | none ↦ none
        ])
          ≡ o
    no_rest none = refl
    no_rest (some v) = refl
