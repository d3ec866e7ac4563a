-- ===== src/CoverageGate/Laws.antt =====
-- What the coverage gate lets pass.
use key_cloak_sdk.Common.{
  ℕ, ◌+◌, ◌≡◌, ◌≢◌, ◌<◌, ◌⊎◌, inl, inr, true, false, ◌||◌, Option, some, List, [], ◌∷◌, ◌++◌, Str,
  lit, length, drop, arith, Option-cases, any, str_eq, starts_with,
}
use key_cloak_sdk.Values.{Num, is_finite, num_lt}
use key_cloak_sdk.Config.{trim}
use key_cloak_sdk.CoverageGate.Reports.{Entry, find_reports}
use key_cloak_sdk.CoverageGate.Flags.{IsGiven, found_prefix, found_value, no_flag}
use key_cloak_sdk.CoverageGate.{
  Threshold, given, no_value, no_number, is_empty, find_prefix, value_behind, Sum, zero_sum,
  sum_reports, threshold, num_arg,
}

module _ (percent : ℕ → ℕ → Num) where
  -- Sums that were measured and reach both thresholds; branches count where there are some.
  pub IsHigh : Sum → Num → Num → Type 0
  IsHigh s min_line min_branch =
      (s.lv ≢ 0)
      × (s.lc ≢ 0)
      × (num_lt (percent s.lc s.lv) min_line ≡ false)
      × (0 < s.bv → num_lt (percent s.bc s.bv) min_branch ≡ false)

module _ (percent : ℕ → ℕ → Num) (to_number : Str → Num) (at : Str → Option Entry) where
  -- The text of the target is not empty, and the reports under it have the sums.
  pub IsMeasured : Option Str → Sum → Type 0
  IsMeasured target s =
      (c : ℕ) × (path : Str) × (target ≡ some (c ∷ path))
      × (find_reports (at (c ∷ path)) ≢ [])
      × (sum_reports (find_reports (at (c ∷ path))) zero_sum ≡ some s)

  -- What is wrong with a text, or its number.
  pub IsRead : Str → Threshold → Type 0
  IsRead raw t =
      ((is_empty (trim raw) ≡ true) × (t ≡ no_value))
      ⊎ ((is_empty (trim raw) ≡ false)
          × (((is_finite (to_number raw) ≡ false) × (t ≡ no_number))
              ⊎ ((is_finite (to_number raw) ≡ true) × (t ≡ given (to_number raw)))))

  threshold-IsRead : (raw : Str) → IsRead raw (threshold percent to_number at raw)
  unfolding threshold IsRead
  threshold-IsRead raw = ground arith

  -- A threshold never gets lost: where some argument is the flag or begins with the flag and `=`,
  -- some text is given with the flag, behind its `=` or as the argument that follows it, or the empty
  -- text where none follows or another flag does; and the threshold is the number of that text where
  -- it is finite, while the script fails for a text that is blank or no finite number.
  pub num_arg_lem :
      (argv : List Str) (name : Str) (dflt : Num)
      → any (λ a. str_eq a name || starts_with a (name ++ lit "=")) argv ≡ true
      → (raw : Str) × IsGiven name argv raw
        × IsRead raw (num_arg percent to_number at argv name dflt)
  unfolding num_arg
  num_arg_lem argv name dflt h = elim (Option-cases (find_prefix (name ++ lit "=") argv)) [
    | inr (a, e) ↦
        let raw = drop (length name + 1) a in
        (raw, found_prefix name argv a e, rw (num_arg, e) (threshold-IsRead raw))
    | inl e ↦ elim (Option-cases (value_behind name argv)) [
      | inr (raw, f) ↦ (raw, found_value name argv raw f, rw (num_arg, e, f) (threshold-IsRead raw))
      | inl f ↦ let lost = no_flag name argv e f in absurd cc
    ]
  ]
