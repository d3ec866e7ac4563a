-- ===== src/Tests/RepoConfig.antt =====
-- The settings of a repository with one workflow and one ruleset.
use key_cloak_sdk.Common.{
  map, str_eq, Bool, true, false, List, [], ◌∷◌, Str, lit, if◌then◌else◌, includes, starts_with,
  ◌≡◌, ◌≢◌, refl, inl, ◌↔◌, All, Option, none, some, all,
}
use key_cloak_sdk.Config.{trim}
use key_cloak_sdk.HarnessApp.{is_present}
use key_cloak_sdk.RepoConfig.Canonical.{server_fields, str_le, canonical, strip_comments}
use key_cloak_sdk.RepoConfig.Canonical.Laws.{
  in_object, then_members, dropped, both_member, in_array, swapped_elements, both_end, AreTold,
  canonical_same_lem,
}
use key_cloak_sdk.RepoConfig.Canonical.Order.{str_le_total, str_le_trans}
use key_cloak_sdk.RepoConfig.Check.{
  Platform, Answer, refused, answered, returned, live_rulesets, is_drifted, without_empty,
}
use key_cloak_sdk.RepoConfig.Check.Laws.{check_zero_iff, mirror_refused_lem}
use key_cloak_sdk.RepoConfig.Check.Main.{
  wanted_security, security_messages, workflow_messages, check,
}
use key_cloak_sdk.RepoConfig.Mirror.{Definition, definition_name, is_wanted, mirror_ruleset_drift}
use key_cloak_sdk.RepoConfig.Mirror.Laws.{IsMirrored, mirror_drift_iff}
use key_cloak_sdk.RepoConfig.Workflows.{Workflow, Drift, workflow_drift}
use key_cloak_sdk.RepoConfig.Workflows.Laws.{IsInOrder, is_listed, workflow_drift_iff}
use key_cloak_sdk.Values.Json.{
  object, member, end, Value, nil, cons, null, get, array, string, field, elements,
}

abbrev running : Workflow
running = record { id = 1; path = lit ".github/workflows/ci.yml"; state = lit "active" }

abbrev before : Value → Value → Bool
before v w = true

abbrev all_equal : Value → Str
all_equal v = []

abbrev tags : Value
tags = object (
    member (lit "name") (string (lit "TAGS"))
      (member (lit "enforcement") (string (lit "active")) end))

abbrev definition : Definition
definition = record { file = lit "tags.json"; body = tags }

abbrev repo : Str
repo = lit "o/r"

abbrev mirror_repo : Str
mirror_repo = lit "m"

abbrev wanted : Value
wanted =
    object (member (lit "php_mirror") (object (member (lit "repo") (string mirror_repo) end)) end)

abbrev empty_list : Value
empty_list = array nil

-- Everything is answered with an empty text but the rulesets of the mirror.
abbrev answers : Str → Answer
answers path = if str_eq path (lit "repos/m/rulesets") then refused [] else answered []

abbrev platform : Platform
platform = record {
  ask = answers;
  parse = λ s. elim s as (λ _. Option Value) [ [] ↦ some empty_list | c ∷ t ↦ some wanted ];
  workflow = λ s. none;
  shown = λ v. mirror_repo;
  before = before;
  text = all_equal;
  definitions = definition ∷ [];
  mirror_definitions = definition ∷ [];
  security_config = some (lit "{}");
  ls_files = some (lit ".github/workflows/ci.yml");
}

workflow_drift_iff_example :
    (workflow_drift (running ∷ []) (lit ".github/workflows/ci.yml" ∷ []) ≡ []) ↔ (
      ((lit ".github/workflows/ci.yml" ∷ []) ≢ [])
      × All (IsInOrder (lit ".github/workflows/ci.yml" ∷ [])) (running ∷ [])
      × All (λ f. is_listed (running ∷ []) f ≡ true) (lit ".github/workflows/ci.yml" ∷ []))
workflow_drift_iff_example = workflow_drift_iff (running ∷ []) (lit ".github/workflows/ci.yml" ∷ [])

mirror_drift_iff_example :
    (mirror_ruleset_drift before all_equal
        (map string (lit "TAGS" ∷ []))
        (tags ∷ [])
        (definition ∷ [])
      ≡ [])
    ↔ (((definition ∷ []) ≢ [])
        × All (IsMirrored before all_equal (tags ∷ []) (definition ∷ [])) (lit "TAGS" ∷ [])
        × (all (λ d. is_wanted (map string (lit "TAGS" ∷ [])) (definition_name d)) (definition ∷ [])
            ≡ true))
mirror_drift_iff_example =
    mirror_drift_iff before all_equal (lit "TAGS" ∷ []) (tags ∷ []) (definition ∷ [])

check_zero_iff_example : (check platform repo ≡ 0) ↔ (
    (live : List (Value × Value)) × (want : Value) × (live_rulesets platform repo ≡ returned live)
    × (platform.definitions ≢ [])
    × All (λ d. is_drifted platform live d ≡ false) platform.definitions
    × (wanted_security platform ≡ some want)
    × (security_messages platform repo want ≡ returned [])
    × (workflow_messages platform repo ≡ returned []))
check_zero_iff_example = check_zero_iff platform repo

mirror_refused_lem_example : check platform repo ≡ 1
unfolding live_rulesets str_eq elements wanted_security strip_comments starts_with is_present field
    get workflow_messages without_empty workflow_drift trim includes
mirror_refused_lem_example =
    mirror_refused_lem platform repo mirror_repo ([]) wanted ([])
      (Drift.not_listed (lit ".github/workflows/ci.yml") ∷ []) ([]) ([]) ([]) empty_list empty_list
      empty_list refl (λ h. cc) refl refl refl refl refl refl refl refl refl refl refl

abbrev text_of : Value → Str
text_of (string s) = s
text_of _ = []

abbrev by_text : Value → Value → Bool
by_text v w = str_le (text_of v) (text_of w)

abbrev from_server : Value
from_server = object (
    member (lit "id") null
      (member (lit "methods") (array (cons (string (lit "b")) (cons (string (lit "a")) nil))) end))

abbrev committed : Value
committed =
    object
      (member (lit "methods") (array (cons (string (lit "a")) (cons (string (lit "b")) nil))) end)

canonical_same_lem_example : canonical by_text from_server ≡ canonical by_text committed
unfolding canonical str_le includes server_fields AreTold
canonical_same_lem_example =
    canonical_same_lem by_text (λ a b. str_le_total (text_of a) (text_of b))
      (λ a b c h k. str_le_trans (text_of a) (text_of b) (text_of c) h k) from_server committed
      (in_object (
        then_members (dropped _ _ _ refl)
          (both_member _ (in_array (swapped_elements _ _ nil (inl refl))) both_end)))
