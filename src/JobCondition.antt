-- ===== src/JobCondition.antt =====
-- scripts/check-ci-permissions.mjs: the evaluator of the conditions of jobs (evalExpr with EXPR_FUNCS,
-- exprStr, exprTruthy, exprNum and exprEq). An exception is none.
pub mod Tokens
pub mod Tree
pub mod Ends
pub mod Loops
pub mod Levels
pub mod Laws
use key_cloak_sdk.Common.{
  ℕ, zero, suc, ◌+◌, Bool, true, false, ◌&&◌, ◌||◌, not, Option, none, some, List, [], ◌∷◌, ◌++◌,
  Str, lit, length, if◌then◌else◌, ◌==◌, str_eq, starts_with,
}
use key_cloak_sdk.Values.{Num, whole, num_le}
use key_cloak_sdk.Config.{trim}
use key_cloak_sdk.CoverageGate.{is_empty}
use key_cloak_sdk.CoverageGate.Reports.{ends_with}

-- The values of a condition.
pub data Scalar : Type 0 where
  null : Scalar
  boolean : Bool → Scalar
  number : Num → Scalar
  text : Str → Scalar

pub data Op : Type 0 where
  or_op and_op eq_op ne_op lt_op le_op gt_op ge_op paren_open paren_close bang comma : Op

pub data Token : Type 0 where
  op : Op → Token
  literal : Scalar → Token
  id : Str → Token

infixl 30 ◌>>=◌
abbrev pub ◌>>=◌ : {A B : Type 0} → Option A → (A → Option B) → Option B
none >>= k = none
some a >>= k = k a

-- `a.includes(b)`
unfoldable pub includes_text : Str → Str → Bool
includes_text [] b = is_empty b
includes_text (c ∷ a) b =
    let later = includes_text a b in if starts_with (c ∷ a) b then true else later

-- `a === b` of two numbers
unfoldable pub same_number : Num → Num → Bool
same_number a b = num_le a b && num_le b a

-- `exprTruthy(v)`
unfoldable pub expr_truthy : Scalar → Bool
expr_truthy null = false
expr_truthy (boolean b) = b
expr_truthy (number n) = same_number n n && not (same_number n (whole 0))
expr_truthy (text s) = not (is_empty s)

-- `lower`, `to_number` and `shown` are `toLowerCase`, `Number` of a text and `String` of a number, and
-- `ctx` is the scenario.
pub record Scenario : Type 0 where
  pub lower : Str → Str
  pub to_number : Str → Num
  pub shown : Num → Str
  pub ctx : List (Str × Scalar)

-- What the parsers return: a value and the tokens that are left.
abbrev pub Parsed : Type 0
Parsed = Option (Scalar × List Token)

-- `v = exprTruthy(v) ? v : r`, and `v = exprTruthy(v) ? r : v`
unfoldable pub or_value : Scalar → Scalar → Scalar
unfolding expr_truthy
or_value v r = if expr_truthy v then v else r

unfoldable pub and_value : Scalar → Scalar → Scalar
unfolding expr_truthy
and_value v r = if expr_truthy v then r else v

unfoldable pub not_value : Scalar → Scalar
unfolding expr_truthy
not_value v = boolean (not (expr_truthy v))

unfoldable pub lookup_ctx : List (Str × Scalar) → Str → Option Scalar
lookup_ctx [] name = none
lookup_ctx (e ∷ es) name =
    let later = lookup_ctx es name in if str_eq e.0 name then some e.1 else later

module _ (s : Scenario) where
  -- `exprStr(v)`
  unfoldable pub expr_str : Scalar → Str
  expr_str null = []
  expr_str (boolean true) = lit "true"
  expr_str (boolean false) = lit "false"
  expr_str (number n) = s.shown n
  expr_str (text t) = t

  -- `exprNum(v)`
  unfoldable pub expr_num : Scalar → Num
  expr_num null = whole 0
  expr_num (boolean true) = whole 1
  expr_num (boolean false) = whole 0
  expr_num (number n) = n
  expr_num (text t) = if is_empty (trim t) then whole 0 else s.to_number t

  -- `exprEq(a, b)`
  unfoldable pub expr_eq : Scalar → Scalar → Bool
  unfolding expr_num same_number
  expr_eq (text a) (text b) = str_eq (s.lower a) (s.lower b)
  expr_eq (boolean true) (boolean b) = b
  expr_eq (boolean false) (boolean b) = not b
  expr_eq null null = true
  expr_eq a b = same_number (expr_num a) (expr_num b)

  -- `exprStr(arg).toLowerCase()`; a missing argument is `undefined`.
  unfoldable pub arg_text : List Scalar → ℕ → Str
  unfolding expr_str
  arg_text [] i = s.lower (lit "undefined")
  arg_text (a ∷ args) zero = s.lower (expr_str a)
  arg_text (a ∷ args) (suc i) = arg_text args i

  -- `EXPR_FUNCS[name](...args)`, with none for a name that it has not.
  unfoldable pub expr_funcs : Str → List Scalar → Option Scalar
  unfolding arg_text includes_text
  expr_funcs name args =
      if str_eq name (lit "startswith")
      then some (boolean (starts_with (arg_text args 0) (arg_text args 1)))
      else if str_eq name (lit "endswith")
      then some (boolean (ends_with (arg_text args 0) (arg_text args 1)))
      else if str_eq name (lit "contains")
      then some (boolean (includes_text (arg_text args 0) (arg_text args 1)))
      else if str_eq name (lit "success") || str_eq name (lit "always")
      then some (boolean true)
      else if str_eq name (lit "failure") || str_eq name (lit "cancelled")
      then some (boolean false)
      else none

  -- A name that is no call.
  unfoldable pub name_value : Str → Option Scalar
  unfolding lookup_ctx
  name_value name =
      if str_eq name (lit "true")
      then some (boolean true)
      else if str_eq name (lit "false")
      then some (boolean false)
      else if str_eq name (lit "null")
      then some null
      else lookup_ctx s.ctx name

  unfoldable pub is_constant : Str → Bool
  is_constant name =
      str_eq name (lit "true") || (str_eq name (lit "false") || str_eq name (lit "null"))

  -- `expect(o)`
  unfoldable pub expect_close : Scalar × List Token → Parsed
  expect_close (v, op paren_close ∷ ts) = some (v, ts)
  expect_close _ = none

  unfoldable pub call_value : Str → List Scalar × List Token → Parsed
  unfolding expr_funcs
  call_value name (args, op paren_close ∷ ts) = expr_funcs name args >>= (λ v. some (v, ts))
  call_value name _ = none

  -- `rec` is `orE`, one level of parentheses down; `g` bounds the rounds of a loop.
  module _ (rec : List Token → Parsed) (g : ℕ) where
    -- `while (isOp(',')) …`
    unfoldable pub more_args : ℕ → List Token → Option (List Scalar × List Token)
    more_args zero ts = none
    more_args (suc n) (op comma ∷ ts) = do
      r ← rec ts
      rest ← more_args n r.1
      some (r.0 ∷ rest.0, rest.1)
    more_args (suc n) ts = some ([], ts)

    -- The arguments of a call, behind `(`.
    unfoldable pub call_args : List Token → Option (List Scalar × List Token)
    unfolding more_args
    call_args (op paren_close ∷ ts) = some ([], op paren_close ∷ ts)
    call_args ts = do r ← rec ts; rest ← more_args g r.1; some (r.0 ∷ rest.0, rest.1)

    -- `prim()`, for a name and what follows it.
    unfoldable pub name_prim : Str → List Token → Parsed
    unfolding call_args call_value name_value is_constant
    name_prim name (op paren_open ∷ ts) =
        if is_constant name
        then name_value name >>= (λ v. some (v, op paren_open ∷ ts))
        else call_args ts >>= call_value name
    name_prim name ts = name_value name >>= (λ v. some (v, ts))

    -- `prim()`
    unfoldable pub prim : List Token → Parsed
    unfolding name_prim expect_close
    prim (op paren_open ∷ ts) = rec ts >>= expect_close
    prim (literal v ∷ ts) = some (v, ts)
    prim (id name ∷ ts) = name_prim (s.lower name) ts
    prim _ = none

    -- `unE()`
    unfoldable pub un_e : List Token → Parsed
    unfolding prim not_value
    un_e (op bang ∷ ts) = un_e ts >>= (λ r. some (not_value r.0, r.1))
    un_e ts = prim ts

    -- The loop of `eqE`.
    unfoldable pub eq_loop : ℕ → Scalar × List Token → Parsed
    unfolding un_e expr_eq
    eq_loop zero r = none
    eq_loop (suc n) (v, op eq_op ∷ ts) = un_e ts >>= (λ r. eq_loop n (boolean (expr_eq v r.0), r.1))
    eq_loop (suc n) (v, op ne_op ∷ ts) =
        un_e ts >>= (λ r. eq_loop n (boolean (not (expr_eq v r.0)), r.1))
    eq_loop (suc n) (v, op lt_op ∷ ts) = none
    eq_loop (suc n) (v, op le_op ∷ ts) = none
    eq_loop (suc n) (v, op gt_op ∷ ts) = none
    eq_loop (suc n) (v, op ge_op ∷ ts) = none
    eq_loop (suc n) r = some r

    -- `eqE()`
    unfoldable pub eq_e : List Token → Parsed
    unfolding eq_loop
    eq_e ts = un_e ts >>= eq_loop g

    -- The loop of `andE`.
    unfoldable pub and_loop : ℕ → Scalar × List Token → Parsed
    unfolding eq_e and_value
    and_loop zero r = none
    and_loop (suc n) (v, op and_op ∷ ts) = eq_e ts >>= (λ r. and_loop n (and_value v r.0, r.1))
    and_loop (suc n) r = some r

    -- `andE()`
    unfoldable pub and_e : List Token → Parsed
    unfolding and_loop
    and_e ts = eq_e ts >>= and_loop g

    -- The loop of `orE`.
    unfoldable pub or_loop : ℕ → Scalar × List Token → Parsed
    unfolding and_e or_value
    or_loop zero r = none
    or_loop (suc n) (v, op or_op ∷ ts) = and_e ts >>= (λ r. or_loop n (or_value v r.0, r.1))
    or_loop (suc n) r = some r

    -- `orE()`, with the parser of what stands in parentheses
    unfoldable pub or_with : List Token → Parsed
    unfolding or_loop
    or_with ts = and_e ts >>= or_loop g

  -- `orE()`, for at most as many tokens as the fuel.
  unfoldable pub or_e : ℕ → List Token → Parsed
  unfolding or_with
  or_e zero ts = none
  or_e (suc f) ts = or_with (or_e f) (suc f) ts

  -- `evalExpr` behind its first loop: the value of all the tokens.
  unfoldable pub eval_tokens : List Token → Option Scalar
  unfolding or_e
  eval_tokens toks = elim (or_e (length toks) toks) [
    | some (v, []) ↦ some v
    | some (v, t ∷ ts) ↦ none
    | none ↦ none
  ]
