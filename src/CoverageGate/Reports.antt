-- ===== src/CoverageGate/Reports.antt =====
-- scripts/check-coverage.mjs: the reports under a path (findReports) and their numbers (attr).
use key_cloak_sdk.Common.{
  ℕ, ◌+◌, ◌-◌, ◌*◌, Bool, true, Option, none, some, List, [], ◌∷◌, ◌++◌, Str, lit, length, drop,
  take, if◌then◌else◌, ◌==◌, str_eq, starts_with,
}
use key_cloak_sdk.Ledger.{is_digit}

-- A file by its text, or a directory.
mutual
  pub data Entry : Type 0 where
    file : Str → Entry
    dir : Entries → Entry

  -- The entries of a directory with their names.
  pub data Entries : Type 0 where
    empty : Entries
    entry : Str → Entry → Entries → Entries

-- `name.endsWith(suffix)`
unfoldable pub ends_with : Str → Str → Bool
ends_with [] suffix = str_eq [] suffix
ends_with (c ∷ s) suffix =
    let later = ends_with s suffix in if str_eq (c ∷ s) suffix then true else later

unfoldable mutual
  -- The reports of one entry of a directory, by its name.
  pub reports_of : Str → Entry → List Str
  reports_of name (file text) = if ends_with name (lit "cobertura.xml") then text ∷ [] else []
  reports_of name (dir es) = reports_in es

  pub reports_in : Entries → List Str
  reports_in empty = []
  reports_in (entry name e es) = reports_of name e ++ reports_in es

-- `findReports(p)`, with none where nothing exists
unfoldable pub find_reports : Option Entry → List Str
unfolding reports_in
find_reports none = []
find_reports (some (file text)) = text ∷ []
find_reports (some (dir es)) = reports_in es

-- `([0-9]+)"` behind some digits, whose value is given.
unfoldable pub digits_end : ℕ → Str → Option ℕ
digits_end n [] = none
digits_end n (c ∷ s) =
    let longer = digits_end (n * 10 + (c - 48)) s in
    if is_digit c then longer else if c == 34 then some n else none

-- `([0-9]+)"`
unfoldable pub quoted_number : Str → Option ℕ
unfolding digits_end
quoted_number [] = none
quoted_number (c ∷ s) = if is_digit c then digits_end (c - 48) s else none

-- The text behind a prefix.
unfoldable pub attr_here : Str → Str → Option ℕ
unfolding quoted_number
attr_here prefix s = if starts_with s prefix then quoted_number (drop (length prefix) s) else none

-- The first match in the text.
unfoldable pub attr_in : Str → Str → Option ℕ
unfolding attr_here
attr_in prefix [] = none
attr_in prefix (c ∷ s) =
    let later = attr_in prefix s in
    elim (attr_here prefix (c ∷ s)) [ some n ↦ some n | none ↦ later ]

-- `attr(n)`, for the text of a report
unfoldable pub attr : Str → Str → Option ℕ
unfolding attr_in
attr name text = attr_in (name ++ lit "=\"") (take 4096 text)
