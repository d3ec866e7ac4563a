-- ===== src/CoverageGate.antt =====
-- scripts/check-coverage.mjs: the gate on the coverage of the .NET tests. The
-- arithmetic of doubles is a parameter, `percent`. A message of `fail` is a constructor, and each of
-- them ends the process with 1.
pub mod Reports
pub mod Flags
pub mod Laws
use key_cloak_sdk.Common.{
  ℕ, suc, ◌+◌, ◌-◌, ◌*◌, Bool, true, false, ◌&&◌, not, Option, none, some, List, [], ◌∷◌, ◌++◌, Str,
  lit, length, drop, if◌then◌else◌, ◌==◌, ltb, str_eq, starts_with, or_default,
}
use key_cloak_sdk.Values.{Num, whole, finite, pos, is_finite, num_lt}
use key_cloak_sdk.Config.{trim}
use key_cloak_sdk.CoverageGate.Reports.{Entry, find_reports, attr}

-- `numArg`: a threshold, or what is wrong with the flag.
pub data Threshold : Type 0 where
  given : Num → Threshold
  no_value no_number : Threshold

unfoldable pub is_empty : Str → Bool
is_empty [] = true
is_empty (c ∷ s) = false

-- `argv.find((a) => a.startsWith(p))`
unfoldable pub find_prefix : Str → List Str → Option Str
find_prefix p [] = none
find_prefix p (a ∷ argv) =
    let later = find_prefix p argv in if starts_with a p then some a else later

-- `next === undefined || next.startsWith("--") ? "" : next`
unfoldable pub next_value : List Str → Str
next_value [] = []
next_value (next ∷ argv) = if starts_with next (lit "--") then [] else next

-- The value behind the flag, with none where `argv.indexOf(name)` is -1.
unfoldable pub value_behind : Str → List Str → Option Str
unfolding next_value
value_behind name [] = none
value_behind name (a ∷ argv) =
    let later = value_behind name argv in if str_eq a name then some (next_value argv) else later

-- `argv.find((a) => !a.startsWith("--"))`
unfoldable pub target_of : List Str → Option Str
target_of [] = none
target_of (a ∷ argv) =
    let later = target_of argv in if starts_with a (lit "--") then later else some a

-- The sums over the reports.
pub record Sum : Type 0 where
  pub lc : ℕ
  pub lv : ℕ
  pub bc : ℕ
  pub bv : ℕ

unfoldable pub zero_sum : Sum
zero_sum = record { lc = 0; lv = 0; bc = 0; bv = 0 }

-- One report, by its text, with none where it has no `lines-valid`.
unfoldable pub add_report : Str → Sum → Option Sum
add_report head s = elim (attr (lit "lines-valid") head) [
  | none ↦ none
  | some lv ↦ some (record {
    lc = s.lc + or_default (attr (lit "lines-covered") head) 0;
    lv = s.lv + lv;
    bc = s.bc + or_default (attr (lit "branches-covered") head) 0;
    bv = s.bv + or_default (attr (lit "branches-valid") head) 0;
  })
]

-- The loop over the reports.
unfoldable pub sum_reports : List Str → Sum → Option Sum
unfolding add_report
sum_reports [] s = some s
sum_reports (head ∷ heads) s = elim (add_report head s) [
  | none ↦ none
  | some t ↦ sum_reports heads t
]

-- How the process ends.
pub data Verdict : Type 0 where
  threshold_invalid : Verdict
  no_target no_reports no_lines_valid nothing_measured no_hits : Verdict
  -- Whether the lines and the branches are below their threshold.
  regression : Bool → Bool → Verdict
  passed : Sum → Verdict

-- `percent covered valid` is `(covered / valid) * 100` in doubles, which round twice.
module _ (percent : ℕ → ℕ → Num) where
  unfoldable pub low_branches : Sum → Num → Bool
  low_branches s min_branch = if ltb 0 s.bv then num_lt (percent s.bc s.bv) min_branch else false

  -- The three states of the sums.
  unfoldable pub measured : Sum → Num → Num → Verdict
  unfolding low_branches
  measured s min_line min_branch =
      if s.lv == 0
      then nothing_measured
      else if s.lc == 0
      then no_hits
      else if num_lt (percent s.lc s.lv) min_line
      then regression true (low_branches s min_branch)
      else if low_branches s min_branch
      then regression false true
      else passed s

  unfoldable pub on_reports : List Str → Num → Num → Verdict
  unfolding sum_reports measured
  on_reports [] min_line min_branch = no_reports
  on_reports (head ∷ heads) min_line min_branch = elim (sum_reports (head ∷ heads) zero_sum) [
    | none ↦ no_lines_valid
    | some s ↦ measured s min_line min_branch
  ]

-- `to_number` is `Number(raw)`, and `at` is the file system.
module _ (percent : ℕ → ℕ → Num) (to_number : Str → Num) (at : Str → Option Entry) where
  unfoldable pub threshold : Str → Threshold
  unfolding is_empty
  threshold raw =
      if is_empty (trim raw)
      then no_value
      else if is_finite (to_number raw)
      then given (to_number raw)
      else no_number

  -- `numArg(name, dflt)`
  unfoldable pub num_arg : List Str → Str → Num → Threshold
  unfolding find_prefix value_behind threshold
  num_arg argv name dflt = elim (find_prefix (name ++ lit "=") argv) [
    | some eq ↦ threshold (drop (length name + 1) eq)
    | none ↦ elim (value_behind name argv) [ none ↦ given dflt | some raw ↦ threshold raw ]
  ]

  -- Behind the thresholds.
  unfoldable pub on_target : Option Str → Num → Num → Verdict
  unfolding on_reports
  on_target none min_line min_branch = no_target
  on_target (some []) min_line min_branch = no_target
  on_target (some (c ∷ target)) min_line min_branch =
      on_reports percent (find_reports (at (c ∷ target))) min_line min_branch

  -- The whole script.
  unfoldable pub gate : List Str → Verdict
  unfolding num_arg on_target target_of
  gate argv = elim (num_arg argv (lit "--min-line") (whole 0)) [
    | given min_line ↦ elim (num_arg argv (lit "--min-branch") (whole 0)) [
      | given min_branch ↦ on_target (target_of argv) min_line min_branch
      | _ ↦ threshold_invalid
    ]
    | _ ↦ threshold_invalid
  ]

  -- `process.exit(1)` in `fail`
  unfoldable pub gate_code : List Str → ℕ
  unfolding gate
  gate_code argv = elim (gate argv) [ passed s ↦ 0 | _ ↦ 1 ]
