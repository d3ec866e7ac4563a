-- ===== src/Tests/Conditions.antt =====
-- Conditions of jobs.
use key_cloak_sdk.Common.{◌≡◌, refl, true, false, none, some, [], ◌∷◌, lit, starts_with, str_eq}
use key_cloak_sdk.Values.{whole, num_le}
use key_cloak_sdk.Config.{is_space}
use key_cloak_sdk.Ledger.{is_digit}
use key_cloak_sdk.JobCondition.{Scenario, text, boolean, eval_tokens}
use key_cloak_sdk.JobCondition.Tree.{
  Expr, constant, context, negation, equal, both, either, meaning, written,
}
use key_cloak_sdk.JobCondition.Laws.{eval_tokens_lem}
use key_cloak_sdk.JobCondition.Tokens.{eval_expr}

abbrev scenario : Scenario
scenario = record {
  lower = λ t. t;
  to_number = λ t. whole 0;
  shown = λ n. [];
  ctx = (lit "a", text (lit "o'k")) ∷ [];
}

-- A test of the author or of nothing, in parentheses, and a constant.
abbrev condition : Expr
condition =
    both
      (either (negation (equal (context (lit "a")) (constant (text (lit "bot")))))
        (constant (boolean false)))
      (constant (boolean true))

eval_tokens_lem_example : eval_tokens scenario (written 0 condition) ≡ meaning scenario condition
eval_tokens_lem_example = eval_tokens_lem scenario condition

quotes_run : eval_expr scenario (lit "a=='o''k'") ≡ some (boolean true)
unfolding eval_expr is_space starts_with is_digit str_eq num_le
quotes_run = refl

numbers_run : eval_expr scenario (lit "!(1.5==1)") ≡ some (boolean true)
unfolding eval_expr is_space starts_with is_digit str_eq num_le
numbers_run = refl

unknown_names_run : eval_expr scenario (lit "true||b") ≡ none
unfolding eval_expr is_space starts_with is_digit str_eq num_le
unknown_names_run = refl
