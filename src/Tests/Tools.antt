-- ===== src/Tests/Tools.antt =====
-- A changelog of one line, and one language that works.
use key_cloak_sdk.Common.{lit, str_eq, ◌≡◌, refl, true, some, [], ◌∷◌, All}
use key_cloak_sdk.InstallMatrix.{
  Signal, conformance_fails, security_fails, fails, failed_signals, is_seen, failed_langs,
}
use key_cloak_sdk.InstallMatrix.Laws.{IsPassing, failed_langs_lem}
use key_cloak_sdk.Ledger.{lines, split, concat, joined, items_of}
use key_cloak_sdk.Ledger.Laws.{split_lem, kept_lines, items_text, items_lem}
use mathlib.Core.List.{Memᴰ}

abbrev working : Signal
working = record {
  lang = lit "go";
  artifact_built = true;
  published = true;
  installed = true;
  quickstart_ok = true;
  app_boot = true;
  conformance = some (record { passed = some 9; failed = some 0 });
  security = some (record { defended = some 7; total = some 7 });
}

split_lem_example : joined (split (lit "# Log")) ≡ (lit "# Log")
split_lem_example = split_lem (lit "# Log")

items_lem_example : items_text (items_of (lit "- one")) ≡ concat (kept_lines (lines (lit "- one")))
items_lem_example = items_lem (lit "- one")

failed_langs_lem_example :
    All IsPassing (working ∷ [])
    × All (λ l. (s : Signal) × Memᴰ s (working ∷ []) × (s.lang ≡ l)) (lit "go" ∷ [])
unfolding failed_langs failed_signals fails conformance_fails security_fails is_seen str_eq
failed_langs_lem_example = failed_langs_lem (working ∷ []) (lit "go" ∷ []) refl
