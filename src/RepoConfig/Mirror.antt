-- ===== src/RepoConfig/Mirror.antt =====
-- scripts/repo-config.mjs: the rulesets of the PHP mirror (mirrorRulesetDrift).
pub mod Maps
pub mod Laws
use key_cloak_sdk.Common.{
  ℕ, Bool, true, false, Option, none, some, List, [], ◌∷◌, ◌++◌, Str, lit, if◌then◌else◌, str_eq,
  includes,
}
use key_cloak_sdk.Values.Json.{Value, string, field, strict_equal}
use key_cloak_sdk.RepoConfig.Canonical.{canonical}

-- A committed definition.
pub record Definition : Type 0 where
  pub file : Str
  pub body : Value

-- A message of `mirrorRulesetDrift`.
pub data MirrorDrift : Type 0 where
  no_definitions : MirrorDrift
  not_live : Value → MirrorDrift
  not_active : Value → Value → MirrorDrift
  undefined_ruleset : Value → MirrorDrift
  differs : Value → Str → MirrorDrift
  not_wanted : Str → Value → MirrorDrift

module _ {A : Type 0} where
  -- `map.set(key, value)`
  unfoldable pub map_set : Value → A → List (Value × A) → List (Value × A)
  map_set key value [] = (key, value) ∷ []
  map_set key value (e ∷ es) =
      let later = map_set key value es in
      if strict_equal e.0 key then (e.0, value) ∷ es else e ∷ later

  -- `map.get(key)`
  unfoldable pub map_get : List (Value × A) → Value → Option A
  map_get [] key = none
  map_get (e ∷ es) key =
      let later = map_get es key in if strict_equal e.0 key then some e.1 else later

  unfoldable pub set_all : (A → Value) → List A → List (Value × A) → List (Value × A)
  set_all name [] m = m
  set_all name (x ∷ xs) m = set_all name xs (map_set (name x) x m)

  -- `new Map(xs.map((x) => [name(x), x]))`
  unfoldable pub map_of : (A → Value) → List A → List (Value × A)
  unfolding set_all
  map_of name xs = set_all name xs []

unfoldable pub ruleset_name : Value → Value
ruleset_name v = field v (lit "name")

unfoldable pub definition_name : Definition → Value
definition_name d = ruleset_name d.body

-- `list.includes(value)`
unfoldable pub is_wanted : List Value → Value → Bool
unfolding strict_equal
is_wanted [] v = false
is_wanted (w ∷ ws) v = let later = is_wanted ws v in if strict_equal v w then true else later

-- `if (l.enforcement !== 'active') out.push(…)`
unfoldable pub enforcement_message : Value → Value → List MirrorDrift
enforcement_message name l =
    if strict_equal (field l (lit "enforcement")) (string (lit "active"))
    then []
    else MirrorDrift.not_active name (field l (lit "enforcement")) ∷ []

-- The loop over the definitions.
unfoldable pub unwanted_messages : List Value → List (Value × Definition) → List MirrorDrift
unfolding is_wanted
unwanted_messages names [] = []
unwanted_messages names (e ∷ es) =
    let later = unwanted_messages names es in
    if is_wanted names e.0 then later else MirrorDrift.not_wanted e.1.file e.0 ∷ later

-- `before` is the comparison of elements of `canonical`, and `text` is `JSON.stringify`.
module _ (before : Value → Value → Bool) (text : Value → Str) where
  unfoldable pub definition_message : Value → Value → Option Definition → List MirrorDrift
  definition_message name l none = MirrorDrift.undefined_ruleset name ∷ []
  definition_message name l (some d) =
      if str_eq (text (canonical before l)) (text (canonical before d.body))
      then []
      else MirrorDrift.differs name d.file ∷ []

  -- One round of the loop over the wanted names.
  unfoldable pub ruleset_message : Value → Option Value → Option Definition → List MirrorDrift
  unfolding enforcement_message definition_message
  ruleset_message name none d = MirrorDrift.not_live name ∷ []
  ruleset_message name (some l) d = enforcement_message name l ++ definition_message name l d

  unfoldable pub ruleset_messages :
      List (Value × Value) → List (Value × Definition) → List Value → List MirrorDrift
  unfolding ruleset_message map_get
  ruleset_messages live defs [] = []
  ruleset_messages live defs (name ∷ names) =
      ruleset_message name (map_get live name) (map_get defs name)
      ++ ruleset_messages live defs names

  -- Behind the guard against no definition.
  unfoldable pub compared :
      List Value → List (Value × Value) → List (Value × Definition) → List MirrorDrift
  unfolding ruleset_messages unwanted_messages
  compared names live [] = MirrorDrift.no_definitions ∷ []
  compared names live (e ∷ es) =
      ruleset_messages live (e ∷ es) names ++ unwanted_messages names (e ∷ es)

  -- `mirrorRulesetDrift(want, live, defs)`, for the list `want.rulesets`.
  unfoldable pub mirror_ruleset_drift : List Value → List Value → List Definition → List MirrorDrift
  unfolding compared map_of definition_name ruleset_name
  mirror_ruleset_drift names live defs =
      compared names (map_of ruleset_name live) (map_of definition_name defs)
