-- ===== src/Tests/Guards.antt =====
-- The gates and the rotation at small inputs.
use key_cloak_sdk.Common.{
  ℕ, ◌*◌, ◌/◌, str_eq, ◌≡◌, ◌↔◌, ◌⊎◌, refl, true, false, Option, some, List, [], ◌∷◌, ◌++◌, Str,
  lit, any, starts_with,
}
use key_cloak_sdk.CoverageGate.{Sum, num_arg}
use key_cloak_sdk.CoverageGate.Laws.{IsRead, num_arg_lem}
use key_cloak_sdk.CoverageGate.Flags.{IsGiven}
use key_cloak_sdk.CoverageGate.Reports.{file, Entry}
use key_cloak_sdk.DependabotAlerts.{answered, is_open, exit_code}
use key_cloak_sdk.DependabotAlerts.Laws.{IsList, exit_zero_iff}
use key_cloak_sdk.Ledger.Releases.{Release}
use key_cloak_sdk.Rotation.{has_dates, is_too_big, rotate}
use key_cloak_sdk.Rotation.Laws.{last_date, begins_later, rotate_lem}
use key_cloak_sdk.Values.{Num, whole}
use key_cloak_sdk.Values.Json.{object, member, end, Value, nil, array, string}

abbrev no_answer : Str → Option Value
no_answer s = some (array nil)

abbrev two_entries : Value
two_entries = object (
    member (lit "dependency")
      (object (
        member (lit "package")
          (object (
            member (lit "name") (string (lit "puma"))
              (member (lit "ecosystem") (string (lit "rubygems")) end)))
          end))
      end)

abbrev ninety : Str → Num
ninety s = whole 90

-- Whole percentages.
abbrev hundredths : ℕ → ℕ → Num
hundredths covered valid = whole (covered * 100 / valid)

abbrev report_text : Str
report_text = lit "<coverage lines-covered=\"95\" lines-valid=\"100\">"

abbrev disk : Str → Option Entry
disk path = some (file report_text)

abbrev sums : Sum
sums = record { lc = 95; lv = 100; bc = 0; bv = 0 }

abbrev first : Release
first = record {
  block = record { heading = []; text = lit "a" };
  date = lit "2026-01-01";
  month = lit "2026-01";
}

abbrev second : Release
second = record {
  block = record { heading = []; text = lit "b" };
  date = lit "2026-01-02";
  month = lit "2026-01";
}

exit_zero_iff_example : (exit_code no_answer (answered []) ≡ 0) ↔ (
    (out : Str) × (v : Value) × (alerts : List Value) × ((answered []) ≡ answered out)
    × (no_answer out ≡ some v)
    × IsList v alerts
    × (any is_open alerts ≡ false))
exit_zero_iff_example = exit_zero_iff no_answer (answered [])

num_arg_lem_example :
    (raw : Str) × IsGiven (lit "--min-line") (lit "--min-line=90" ∷ lit "out" ∷ []) raw
    × IsRead hundredths ninety disk raw (
        num_arg hundredths ninety disk
          (lit "--min-line=90" ∷ lit "out" ∷ [])
          (lit "--min-line")
          (whole 0))
unfolding str_eq starts_with
num_arg_lem_example =
    num_arg_lem hundredths ninety disk (lit "--min-line=90" ∷ lit "out" ∷ []) (lit "--min-line")
      (whole 0) refl

rotate_lem_example :
    ((rotate (lit "# Log") (lit "## [Unreleased]") ([]) (first ∷ second ∷ [])).moved
        ++ (rotate (lit "# Log") (lit "## [Unreleased]") ([]) (first ∷ second ∷ [])).keep
      ≡ (first ∷ second ∷ []))
    × (begins_later
          (last_date
            (rotate (lit "# Log") (lit "## [Unreleased]") ([]) (first ∷ second ∷ [])).moved)
          (rotate (lit "# Log") (lit "## [Unreleased]") ([]) (first ∷ second ∷ [])).keep
        ≡ true)
    × ((is_too_big
            (lit "# Log")
            (lit "## [Unreleased]")
            ([])
            (rotate (lit "# Log") (lit "## [Unreleased]") ([]) (first ∷ second ∷ []))
          ≡ false)
        ⊎ (has_dates (rotate (lit "# Log") (lit "## [Unreleased]") ([]) (first ∷ second ∷ [])).keep
            ≡ false))
rotate_lem_example = rotate_lem (lit "# Log") (lit "## [Unreleased]") ([]) (first ∷ second ∷ [])
