-- ===== src/RepoConfig/Check.antt =====
-- scripts/repo-config.mjs: the command `check` and its exit code (liveRulesets, checkSecurity with
-- mirrorDrift, checkWorkflows and main). The commands `apply` and `pull` are not modelled.
pub mod Main
pub mod Ends
pub mod Laws
use key_cloak_sdk.Common.{
  ℕ, ◌+◌, Bool, true, false, Option, none, some, List, [], ◌∷◌, ◌++◌, Str, lit, length, map,
  if◌then◌else◌, str_eq, ◌==◌,
}
use key_cloak_sdk.Values.Json.{
  Value, undefined, string, array, object, elements, elements_of, Members, end, member, field,
}
use key_cloak_sdk.HarnessApp.{is_present}
use key_cloak_sdk.RepoConfig.Canonical.{canonical, strip_comments}
use key_cloak_sdk.RepoConfig.Mirror.{
  Definition, MirrorDrift, mirror_ruleset_drift, map_set, map_get, map_of, ruleset_name,
  definition_name,
}
use key_cloak_sdk.RepoConfig.Security.{SecurityDrift, security_drift}
use key_cloak_sdk.RepoConfig.Workflows.{Workflow, workflow_drift, workflow_files, split_lines}

-- What `gh` answers; a failure has the code 2.
pub data Answer : Type 0 where
  refused answered : Str → Answer

-- A value, or the end of the process with its code. An exception that nothing catches ends it with 1.
pub data Exit (A : Type 0) : Type 0 where
  returned : A → Exit A
  exit : ℕ → Exit A

infixl 30 ◌>>=◌
abbrev pub ◌>>=◌ : {A B : Type 0} → Exit A → (A → Exit B) → Exit B
returned a >>= k = k a
exit c >>= k = exit c

-- A message of `checkSecurity`.
pub data Message : Type 0 where
  security : SecurityDrift → Message
  mirror : MirrorDrift → Message
  mirror_refused mirror_unreadable : Str → Message
  ruleset_refused : Str → Value → Value → Message
  ruleset_unreadable : Str → Value → Message

-- `!value`
abbrev pub is_text_empty : Str → Bool
is_text_empty [] = true
is_text_empty (c ∷ s) = false

unfoldable pub without_empty : List Str → List Str
without_empty [] = []
without_empty (l ∷ ls) = let rest = without_empty ls in if is_text_empty l then rest else l ∷ rest

-- The loop of `mirrorDrift`: the details of the rulesets, or the message that ends it.
pub data Details : Type 0 where
  ended : Message → Details
  all_read : List Value → Details

unfoldable pub read_more : Value → Details → Details
read_more v (ended m) = ended m
read_more v (all_read vs) = all_read (v ∷ vs)

-- The program around the script: `ask` is `gh api <path>`, `parse` is `JSON.parse`, with none where
-- it throws, `workflow` the same for a line of the workflows' list, `shown` is `${v}`, and `before`
-- and `text` are those of `canonical` and `JSON.stringify`.
pub record Platform : Type 0 where
  pub ask : Str → Answer
  pub parse : Str → Option Value
  pub workflow : Str → Option Workflow
  pub shown : Value → Str
  pub before : Value → Value → Bool
  pub text : Value → Str
  -- The files: the definitions of the rulesets, those of the mirror, .github/security-config.json
  -- where it can be read, and what `git ls-files` prints where it works.
  pub definitions : List Definition
  pub mirror_definitions : List Definition
  pub security_config : Option Str
  pub ls_files : Option Str

module _ (p : Platform) where
  -- `die(code, …)` where `gh` fails
  unfoldable pub asked : Str → Exit Str
  asked path = elim (p.ask path) [ refused out ↦ exit 2 | answered out ↦ returned out ]

  -- `JSON.parse`, outside every `try`
  unfoldable pub parsed : Str → Exit Value
  parsed s = elim (p.parse s) [ none ↦ exit 1 | some v ↦ returned v ]

  -- `for (const x of value)`, for a value that is no text: it throws unless it is a list.
  unfoldable pub list_of : Value → Exit (List Value)
  list_of (array vs) = returned (elements vs)
  list_of _ = exit 1

  unfoldable pub rulesets_path : Str → Str
  rulesets_path repo = lit "repos/" ++ (repo ++ lit "/rulesets")

  unfoldable pub ruleset_path : Str → Value → Str
  unfolding rulesets_path
  ruleset_path repo rs = rulesets_path repo ++ (lit "/" ++ p.shown (field rs (lit "id")))

  -- The loop of `liveRulesets`.
  unfoldable pub ruleset_details :
      Str → List Value → List (Value × Value) → Exit (List (Value × Value))
  unfolding asked parsed ruleset_path map_set
  ruleset_details repo [] by_name = returned by_name
  ruleset_details repo (rs ∷ rest) by_name = do
    out ← asked (ruleset_path repo rs)
    one ← parsed out
    ruleset_details repo rest (map_set (field rs (lit "name")) one by_name)

  -- `liveRulesets(repo)`
  unfoldable pub live_rulesets : Str → Exit (List (Value × Value))
  unfolding ruleset_details list_of
  live_rulesets repo = do
    out ← asked (rulesets_path repo)
    summary ← parsed out
    rulesets ← list_of summary
    ruleset_details repo rulesets []

  -- Whether the definition differs from the live ruleset of its name, or has none.
  unfoldable pub is_drifted : List (Value × Value) → Definition → Bool
  is_drifted live d = elim (map_get live (definition_name d)) [
    | none ↦ true
    | some l ↦
        if str_eq (p.text (canonical p.before l)) (p.text (canonical p.before d.body))
        then false
        else true
  ]

  -- The loop of `main` under `check`: the number of rulesets that drifted.
  unfoldable pub drifted_rulesets : List (Value × Value) → List Definition → ℕ
  unfolding is_drifted
  drifted_rulesets live [] = 0
  drifted_rulesets live (d ∷ ds) = (if is_drifted live d then 1 else 0) + drifted_rulesets live ds

  unfoldable pub mirror_details : Str → List Value → Details
  unfolding read_more
  mirror_details repo [] = all_read []
  mirror_details repo (rs ∷ rest) =
      let others = mirror_details repo rest in
      elim (p.ask (ruleset_path repo rs)) [
        | refused out ↦ ended (ruleset_refused repo (field rs (lit "id")) (field rs (lit "name")))
        | answered out ↦ elim (p.parse out) [
          | none ↦ ended (ruleset_unreadable repo (field rs (lit "id")))
          | some v ↦ read_more v others
        ]
      ]

  unfoldable pub mirror_messages : Value → Str → List Value → List Message
  unfolding mirror_details
  mirror_messages m repo rulesets = elim (mirror_details repo rulesets) [
    | ended message ↦ message ∷ []
    | all_read live ↦ map mirror (
        mirror_ruleset_drift p.before p.text (elements_of (field m (lit "rulesets"))) live
          p.mirror_definitions)
  ]

  -- Behind `if (!m?.repo) return []`
  unfoldable pub mirror_asked : Value → Str → Exit (List Message)
  unfolding mirror_messages
  mirror_asked m repo = elim (p.ask (rulesets_path repo)) [
    | refused out ↦ returned (mirror_refused repo ∷ [])
    | answered out ↦ elim (p.parse out) [
      | none ↦ returned (mirror_unreadable repo ∷ [])
      | some summary ↦ list_of summary >>= (λ rulesets. returned (mirror_messages m repo rulesets))
    ]
  ]

  -- `mirrorDrift(want)`
  unfoldable pub mirror_drift : Value → Exit (List Message)
  unfolding mirror_asked
  mirror_drift want =
      let m = field want (lit "php_mirror") in
      if is_present (field m (lit "repo"))
      then mirror_asked m (p.shown (field m (lit "repo")))
      else returned []
