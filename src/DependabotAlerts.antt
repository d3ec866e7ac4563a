-- ===== src/DependabotAlerts.antt =====
-- scripts/check-dependabot-alerts.mjs: the verdict on the alerts that GitHub answers. A text of the
-- report is a constructor with the values that it shows.
pub mod Laws
use key_cloak_sdk.Common.{
  ℕ, Bool, true, false, ◌&&◌, not, Option, none, some, List, [], ◌∷◌, ◌++◌, Str, lit, length, map,
  filter, ltb, if◌then◌else◌,
}
use key_cloak_sdk.Values.Json.{Value, string, array, elements, field, strict_equal, is_nullish}
use key_cloak_sdk.HarnessApp.{is_present}

-- A line of `advisoryRanges`.
pub data RangeLine : Type 0 where
  no_ranges no_package : RangeLine
  no_match : Value → Value → RangeLine
  range : Value → Value → RangeLine
  no_range : Value → RangeLine
  several : ℕ → RangeLine

-- One entry of `alertsVerdict`.
pub record Report : Type 0 where
  pub number : Value
  pub severity : Value
  pub ecosystem : Value
  pub package_name : Value
  pub manifest : Value
  pub ghsa : Value
  pub cve : Value
  pub ranges : List RangeLine

-- `v ?? d`
unfoldable pub or_text : Value → Str → Value
or_text v d = if is_nullish v then string d else v

unfoldable pub package_of : Value → Value
package_of alert = field (field alert (lit "dependency")) (lit "package")

-- The filter of `advisoryRanges`.
unfoldable pub is_mine : Value → Value → Bool
is_mine pkg v =
    strict_equal (field (field v (lit "package")) (lit "name")) (field pkg (lit "name"))
    && strict_equal (field (field v (lit "package")) (lit "ecosystem"))
        (field pkg (lit "ecosystem"))

unfoldable pub fix_of : Value → Value
unfolding or_text
fix_of v = or_text (field (field v (lit "first_patched_version")) (lit "identifier")) (lit "패치 없음")

unfoldable pub range_of : Value → Value
range_of v = field v (lit "vulnerable_version_range")

unfoldable pub range_line : Value → RangeLine
unfolding fix_of range_of
range_line v =
    if is_present (range_of v) then RangeLine.range (range_of v) (fix_of v) else no_range (fix_of v)

-- The lines of the ranges of the package.
unfoldable pub lines_of : Value → List Value → List RangeLine
unfolding range_line
lines_of pkg [] = no_match (field pkg (lit "ecosystem")) (field pkg (lit "name")) ∷ []
lines_of pkg (v ∷ vs) =
    map range_line (v ∷ vs)
    ++ (if ltb 1 (length (v ∷ vs)) then several (length (v ∷ vs)) ∷ [] else [])

-- The elements of a list that is not empty.
unfoldable pub filled : Value → Option (List Value)
filled (array vs) = elim (elements vs) [ [] ↦ none | w ∷ ws ↦ some (w ∷ ws) ]
filled _ = none

-- `advisoryRanges(alert)`
unfoldable pub advisory_ranges : Value → List RangeLine
unfolding package_of is_mine lines_of filled
advisory_ranges alert =
    let pkg = package_of alert in
    elim (filled (field (field alert (lit "security_advisory")) (lit "vulnerabilities"))) [
      | none ↦ no_ranges ∷ []
      | some vs ↦
          if is_present (field pkg (lit "name")) && is_present (field pkg (lit "ecosystem"))
          then lines_of pkg (filter (is_mine pkg) vs)
          else no_package ∷ []
    ]

-- `a?.state === 'open'`
unfoldable pub is_open : Value → Bool
is_open a = strict_equal (field a (lit "state")) (string (lit "open"))

unfoldable pub report : Value → Report
unfolding or_text package_of advisory_ranges
report a = record {
  number = field a (lit "number");
  severity = or_text (field (field a (lit "security_advisory")) (lit "severity")) (lit "?");
  ecosystem = or_text (field (package_of a) (lit "ecosystem")) (lit "?");
  package_name = or_text (field (package_of a) (lit "name")) (lit "?");
  manifest = or_text (field (field a (lit "dependency")) (lit "manifest_path")) (lit "?");
  ghsa = or_text (field (field a (lit "security_advisory")) (lit "ghsa_id")) (lit "?");
  cve = or_text (field (field a (lit "security_advisory")) (lit "cve_id")) (lit "-");
  ranges = advisory_ranges a;
}

-- `alertsVerdict(alerts)`, with none where it throws
unfoldable pub alerts_verdict : Value → Option (List Report)
unfolding is_open report
alerts_verdict (array vs) = some (map report (filter is_open (elements vs)))
alerts_verdict _ = none

-- What `gh` answers to the query for the alerts.
pub data Query : Type 0 where
  refused answered : Str → Query

unfoldable pub code_of : Option (List Report) → ℕ
code_of none = 2
code_of (some []) = 0
code_of (some (r ∷ rs)) = 1

-- The exit code of `main`, where `parse` is `JSON.parse`, with none where it throws.
unfoldable pub exit_code : (Str → Option Value) → Query → ℕ
unfolding code_of alerts_verdict
exit_code parse (refused out) = 2
exit_code parse (answered out) = elim (parse out) [ none ↦ 2 | some v ↦ code_of (alerts_verdict v) ]
