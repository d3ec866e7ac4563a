-- ===== src/RepoConfig/Mirror/Laws.antt =====
-- When the mirror has exactly the committed rulesets.
use key_cloak_sdk.Common.{
  ◌≡◌, ◌≢◌, ◌↔◌, refl, sym, ◌∙◌, Bool, true, Option, none, some, List, [], ◌∷◌, Str, lit, arith,
  str_eq_iff, All, all, append_empty, map,
}
use key_cloak_sdk.Values.Json.{Value, string, field, strict_equal}
use key_cloak_sdk.RepoConfig.Canonical.{canonical}
use key_cloak_sdk.RepoConfig.Mirror.{
  Definition, MirrorDrift, map_of, ruleset_name, definition_name, is_wanted, enforcement_message,
  definition_message, ruleset_message, ruleset_messages, unwanted_messages, compared,
  mirror_ruleset_drift,
}
use key_cloak_sdk.RepoConfig.Mirror.Maps.{
  strict_equal_text, same_key, last_with, map_get-map_of, all-map_of, map_of_filled,
}

wanted_same :
    (names : List Str) (a b : Value)
    → strict_equal a b ≡ true
    → is_wanted (map string names) a ≡ is_wanted (map string names) b
unfolding is_wanted
wanted_same [] a b h = refl
wanted_same (w ∷ ws) a b h = ground (arith, same_key a b w h, wanted_same ws a b h)

cons_not_nil : {A : Type 0} {x : A} {xs : List A} → x ∷ xs ≢ []
cons_not_nil h = cc

unwanted_iff :
    (names : List Value) (es : List (Value × Definition))
    → (unwanted_messages names es ≡ []) ↔ (all (λ e. is_wanted names e.0) es ≡ true)
unfolding unwanted_messages
unwanted_iff names [] = (λ _. refl, λ _. refl)
unwanted_iff names (e ∷ es) = ground (arith, unwanted_iff names es)

module _ (before : Value → Value → Bool) (text : Value → Str) where
  -- The last live ruleset of the name is active, and it and the last definition of the name have
  -- the same normal form.
  pub IsMirrored : List Value → List Definition → Str → Type 0
  IsMirrored live defs name =
      (l : Value) × (d : Definition) × (last_with ruleset_name name live ≡ some l)
      × (last_with definition_name name defs ≡ some d)
      × (field l (lit "enforcement") ≡ string (lit "active"))
      × (text (canonical before l) ≡ text (canonical before d.body))

  enforcement_iff :
      (name : Str) (l : Value)
      → (enforcement_message (string name) l ≡ [])
        ↔ (field l (lit "enforcement") ≡ string (lit "active"))
  unfolding enforcement_message
  enforcement_iff name l =
      ground (arith, strict_equal_text (field l (lit "enforcement")) (lit "active"))

  definition_iff :
      (name : Str) (l : Value) (d : Definition)
      → (definition_message before text (string name) l (some d) ≡ [])
        ↔ (text (canonical before l) ≡ text (canonical before d.body))
  unfolding definition_message
  definition_iff name l d =
      ground (arith, str_eq_iff (text (canonical before l)) (text (canonical before d.body)))

  message_iff :
      (name : Str) (l : Option Value) (d : Option Definition)
      → (ruleset_message before text (string name) l d ≡ []) ↔ (
          (v : Value) × (b : Definition) × (l ≡ some v)
          × (d ≡ some b)
          × (field v (lit "enforcement") ≡ string (lit "active"))
          × (text (canonical before v) ≡ text (canonical before b.body)))
  unfolding ruleset_message definition_message
  message_iff name none d = (λ h. cc, λ h. cc)
  message_iff name (some l) none =
      let both =
        append_empty (enforcement_message (string name) l)
          (MirrorDrift.undefined_ruleset (string name) ∷ []) in
      (λ h. absurd (cons_not_nil (both.0 h).1), λ h. cc)
  message_iff name (some l) (some d) =
      let both =
        append_empty (enforcement_message (string name) l)
          (definition_message before text (string name) l (some d)) in
      let active = enforcement_iff name l in
      let same = definition_iff name l d in
      (
        λ h. let (a, b) = both.0 h in (l, d, refl, refl, active.0 a, same.0 b),
        λ (v, b, e, f, on, alike). both.1 (active.1 cc, same.1 cc),
      )

  IsMirrored-iff :
      (live : List Value) (defs : List Definition) (name : Str)
      → (ruleset_message before text
            (string name)
            (last_with ruleset_name name live)
            (last_with definition_name name defs)
          ≡ [])
        ↔ IsMirrored live defs name
  unfolding IsMirrored
  IsMirrored-iff live defs name = message_iff name _ _

  messages_iff :
      (live : List Value) (defs : List Definition) (names : List Str)
      → (ruleset_messages before text
            (map_of ruleset_name live)
            (map_of definition_name defs)
            (map string names)
          ≡ [])
        ↔ All (IsMirrored live defs) names
  unfolding ruleset_messages
  messages_iff live defs [] = (λ _. tt, λ _. refl)
  messages_iff live defs (name ∷ names) =
      let here = IsMirrored-iff live defs name in
      let later = messages_iff live defs names in
      rw (map_get-map_of ruleset_name live name, map_get-map_of definition_name defs name)
        (
          λ h. let (a, b) = (append_empty _ _).0 h in (here.0 a, later.0 b),
          λ k. (append_empty _ _).1 (here.1 k.0, later.1 k.1),
        )

  compared_iff :
      (names : List Value) (live : List (Value × Value)) (m : List (Value × Definition))
      → (compared before text names live m ≡ []) ↔ (
          (m ≢ [])
          × (ruleset_messages before text live m names ≡ [])
          × (unwanted_messages names m ≡ []))
  unfolding compared
  compared_iff names live [] = (λ h. cc, λ h. absurd (h.0 refl))
  compared_iff names live (e ∷ es) =
      let both =
        append_empty (ruleset_messages before text live (e ∷ es) names)
          (unwanted_messages names (e ∷ es)) in
      (λ h. let (a, b) = both.0 h in (cons_not_nil, a, b), λ h. both.1 (h.1, h.2))

  -- There is no drift exactly when there is some definition, each wanted name is that of a live
  -- ruleset that is active and has the normal form of the definition of the name, and the name of
  -- each definition is wanted. Of two rulesets of the same name the last one counts.
  pub mirror_drift_iff :
      (names : List Str) (live : List Value) (defs : List Definition)
      → (mirror_ruleset_drift before text (map string names) live defs ≡ []) ↔ (
          (defs ≢ [])
          × All (IsMirrored live defs) names
          × (all (λ d. is_wanted (map string names) (definition_name d)) defs ≡ true))
  unfolding mirror_ruleset_drift
  mirror_drift_iff names live defs =
      let parts =
        compared_iff (map string names) (map_of ruleset_name live) (map_of definition_name defs) in
      let matched = messages_iff live defs names in
      let unwanted = unwanted_iff (map string names) (map_of definition_name defs) in
      let keys =
        all-map_of (is_wanted (map string names)) (wanted_same names) definition_name defs in
      let filled = map_of_filled definition_name defs in
      (
        λ h. let (a, b, c) = parts.0 h in (filled.0 a, matched.0 b, sym keys ∙ unwanted.0 c),
        λ (a, b, c). parts.1 (filled.1 a, matched.1 b, unwanted.1 (keys ∙ c)),
      )
