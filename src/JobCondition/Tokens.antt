-- ===== src/JobCondition/Tokens.antt =====
-- scripts/check-ci-permissions.mjs: the first loop of evalExpr, which cuts a condition into tokens.
use key_cloak_sdk.Common.{
  ℕ, zero, suc, ◌+◌, ◌-◌, ◌*◌, ◌^◌, Bool, false, ◌&&◌, ◌||◌, Option, none, some, List, [], ◌∷◌, Str,
  lit, drop, starts_with, length, if◌then◌else◌, ◌==◌, leb,
}
use key_cloak_sdk.Values.{Num, finite, pos}
use key_cloak_sdk.Config.{is_space}
use key_cloak_sdk.Ledger.{is_digit}
use key_cloak_sdk.JobCondition.{
  Scalar, Scenario, Token, Op, op, literal, id, or_op, and_op, eq_op, ne_op, lt_op, le_op, gt_op,
  ge_op, paren_open, paren_close, bang, comma, ◌>>=◌, eval_tokens,
}

-- `[A-Za-z_]`, and `[\w-]`
unfoldable pub is_name_start : ℕ → Bool
is_name_start c = (leb 65 c && leb c 90) || ((leb 97 c && leb c 122) || c == 95)

unfoldable pub is_name_char : ℕ → Bool
unfolding is_name_start
is_name_char c = is_name_start c || (is_digit c || c == 45)

-- `\|\||&&|==|!=|<=|>=|[()!<>,]`
unfoldable pub operators : List (Str × Op)
operators =
    (lit "||", or_op)
    ∷ (lit "&&", and_op)
    ∷ (lit "==", eq_op)
    ∷ (lit "!=", ne_op)
    ∷ (lit "<=", le_op)
    ∷ (lit ">=", ge_op)
    ∷ (lit "(", paren_open)
    ∷ (lit ")", paren_close)
    ∷ (lit "!", bang)
    ∷ (lit "<", lt_op)
    ∷ (lit ">", gt_op)
    ∷ (lit ",", comma)
    ∷ []

-- The first of the operators that the text begins with, and the rest of the text.
unfoldable pub op_here : List (Str × Op) → Str → Option (Token × Str)
op_here [] s = none
op_here (e ∷ es) s =
    let later = op_here es s in
    if starts_with s e.0 then some (op e.1, drop (length e.0) s) else later

-- `(?:[^']|'')*'` behind the first quote: the text with single quotes, and the rest.
unfoldable pub quoted : Str → Option (Str × Str)
quoted [] = none
quoted (c ∷ []) = if c == 39 then some ([], []) else none
quoted (c ∷ d ∷ s) =
    let later = quoted s in
    let next = quoted (d ∷ s) in
    if c == 39
    then (if d == 39
        then elim later [ some r ↦ some (39 ∷ r.0, r.1) | none ↦ some ([], d ∷ s) ]
        else some ([], d ∷ s))
    else next >>= (λ r. some (c ∷ r.0, r.1))

unfoldable pub text_here : Str → Option (Token × Str)
unfolding quoted
text_here [] = none
text_here (c ∷ s) =
    if c == 39 then quoted s >>= (λ r. some (literal (Scalar.text r.0), r.1)) else none

-- `\d*`, and the rest.
unfoldable pub digits : Str → Str × Str
digits [] = ([], [])
digits (c ∷ s) = let rest = digits s in if is_digit c then (c ∷ rest.0, rest.1) else ([], c ∷ s)

unfoldable pub decimal : ℕ → Str → ℕ
decimal n [] = n
decimal n (c ∷ s) = decimal (n * 10 + (c - 48)) s

-- `Number` of whole digits and digits of a fraction.
unfoldable pub number_of : Str → Str → Num
unfolding decimal
number_of a b = finite (pos (decimal (decimal 0 a) b)) (10 ^ length b - 1)

-- `(?:\.\d+)?` behind digits.
unfoldable pub fraction : Str → Str → Token × Str
unfolding digits number_of
fraction a [] = (literal (Scalar.number (number_of a [])), [])
fraction a (c ∷ s) =
    let whole_part : Token × Str = (literal (Scalar.number (number_of a [])), c ∷ s) in
    if c == 46
    then elim (digits s).0 [
      | [] ↦ whole_part
      | d ∷ b ↦ (literal (Scalar.number (number_of a (d ∷ b))), (digits s).1)
    ]
    else whole_part

unfoldable pub number_here : Str → Option (Token × Str)
unfolding digits fraction
number_here s = elim (digits s).0 [ [] ↦ none | d ∷ a ↦ some (fraction (d ∷ a) (digits s).1) ]

unfoldable pub begins_name : Str → Bool
unfolding is_name_start
begins_name [] = false
begins_name (c ∷ s) = is_name_start c

-- `[\w-]*(?:\.[A-Za-z_][\w-]*)*`, and the rest.
unfoldable pub name_tail : Str → Str × Str
unfolding is_name_char begins_name
name_tail [] = ([], [])
name_tail (c ∷ s) =
    let rest = name_tail s in
    if is_name_char c || (c == 46 && begins_name s) then (c ∷ rest.0, rest.1) else ([], c ∷ s)

unfoldable pub name_here : Str → Option (Token × Str)
unfolding name_tail begins_name
name_here s = if begins_name s then some (id (name_tail s).0, (name_tail s).1) else none

-- `a ?? b`
abbrev or_next : Option (Token × Str) → Option (Token × Str) → Option (Token × Str)
or_next none b = b
or_next (some r) b = some r

-- One token, with the rest of the text.
unfoldable pub token_here : Str → Option (Token × Str)
unfolding operators op_here text_here number_here name_here
token_here s =
    or_next (op_here operators s) (or_next (text_here s) (or_next (number_here s) (name_here s)))

-- The loop, with a round for each character at most.
unfoldable pub lex : ℕ → Str → Option (List Token)
unfolding token_here
lex f [] = some []
lex zero (c ∷ s) = none
lex (suc f) (c ∷ s) =
    let skipped = lex f s in
    let next = token_here (c ∷ s) >>= (λ r. lex f r.1 >>= (λ ts. some (r.0 ∷ ts))) in
    if is_space c then skipped else next

-- `evalExpr(src, ctx)`
unfoldable pub eval_expr : Scenario → Str → Option Scalar
unfolding lex eval_tokens
eval_expr s src = lex (length src) src >>= eval_tokens s
