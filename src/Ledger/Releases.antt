-- ===== src/Ledger/Releases.antt =====
-- scripts/lib/changelog-ledger.mjs: the kinds of the blocks (RELEASE_RE, classify, parseLedgerFile).
use key_cloak_sdk.Common.{
  ℕ, Bool, true, false, ◌&&◌, ◌||◌, not, Option, none, some, List, [], ◌∷◌, Str, lit, if◌then◌else◌,
  ◌==◌, all, take, drop, starts_with, str_eq,
}
use key_cloak_sdk.Config.{is_space}
use key_cloak_sdk.Ledger.{Block, is_digit}

pub data Kind : Type 0 where
  -- A release with its date and its month.
  release : Str → Str → Kind
  unreleased unknown : Kind

-- `\d{4}-\d{2}-\d{2}` at the beginning.
unfoldable pub is_date : Str → Bool
is_date (a ∷ b ∷ c ∷ d ∷ e ∷ f ∷ g ∷ h ∷ i ∷ j ∷ s) =
    all is_digit (a ∷ b ∷ c ∷ d ∷ f ∷ g ∷ i ∷ j ∷ []) && (e == 45 && h == 45)
is_date _ = false

-- `.`, which is no end of a line.
unfoldable pub is_dot : ℕ → Bool
is_dot c = not (c == 10 || (c == 13 || (c == 8232 || c == 8233)))

-- `(?:[\s(].*)?$`
unfoldable pub is_rest : Str → Bool
unfolding is_dot
is_rest [] = true
is_rest (c ∷ s) = (is_space c || c == 40) && all is_dot s

-- `] - ` with the date and the rest.
unfoldable pub release_date : Str → Option Str
unfolding is_date is_rest
release_date s =
    let t = drop 4 s in
    if starts_with s (lit "] - ") && (is_date t && is_rest (drop 10 t))
    then some (take 10 t)
    else none

-- `[^\]]*` and what follows.
unfoldable pub behind_name : Str → Option Str
unfolding release_date
behind_name [] = none
behind_name (c ∷ s) = let later = behind_name s in if c == 93 then release_date (c ∷ s) else later

-- `[^\]]+` and what follows.
unfoldable pub behind_bracket : Str → Option Str
unfolding behind_name
behind_bracket [] = none
behind_bracket (c ∷ s) = if c == 93 then none else behind_name s

-- `RELEASE_RE.exec(heading)`: the date.
unfoldable pub release_re : Str → Option Str
unfolding behind_bracket
release_re heading =
    if starts_with heading (lit "## [") then behind_bracket (drop 4 heading) else none

-- `classify(b)`
unfoldable pub kind_of : Block → Kind
unfolding release_re
kind_of b = elim (release_re b.heading) [
  | some date ↦ release date (take 7 date)
  | none ↦ if str_eq b.heading (lit "## [Unreleased]") then unreleased else unknown
]

pub record Release : Type 0 where
  pub block : Block
  pub date : Str
  pub month : Str

unfoldable pub releases_of : List Block → List Release
unfolding kind_of
releases_of [] = []
releases_of (b ∷ bs) =
    let rest = releases_of bs in
    elim (kind_of b) [
      | release date month ↦ (record { block = b; date = date; month = month }) ∷ rest
      | _ ↦ rest
    ]
