-- ===== src/RepoConfig/Security/Laws.antt =====
-- When the security features of the repository are the wanted ones.
use key_cloak_sdk.Common.{
  ◌≡◌, ◌↔◌, ◌⊎◌, refl, true, List, [], ◌∷◌, Str, lit, arith, All, append_empty,
}
use key_cloak_sdk.Values.Json.{Value, undefined, field, strict_equal, has}
use key_cloak_sdk.RepoConfig.Security.{
  live_status, feature_messages, scanning_message, language_messages, reporting_message,
  default_setup, reporting_enabled, wanted_features, languages, security_drift,
}

-- A wanted value that is given is the live one.
pub IsMet : Value → Value → Type 0
IsMet wanted live = (strict_equal wanted undefined ≡ true) ⊎ (strict_equal wanted live ≡ true)

feature_iff :
    (have : Value) (es : List (Str × Value))
    → (feature_messages have es ≡ []) ↔ All (λ e. strict_equal (live_status have e.0) e.1 ≡ true) es
unfolding feature_messages
feature_iff have [] = (λ _. tt, λ _. refl)
feature_iff have (e ∷ es) = ground (arith, feature_iff have es)

language_iff :
    (live wanted : List Value)
    → (language_messages live wanted ≡ []) ↔ All (λ l. has live l ≡ true) wanted
unfolding language_messages
language_iff live [] = (λ _. tt, λ _. refl)
language_iff live (l ∷ ls) = ground (arith, language_iff live ls)

scanning_iff :
    (w h : Value) (k : Str) → (scanning_message w h k ≡ []) ↔ IsMet (field w k) (field h k)
unfolding scanning_message IsMet
scanning_iff w h k = ground arith

reporting_iff :
    (wanted live : Value)
    → (reporting_message wanted live ≡ [])
      ↔ ((strict_equal wanted undefined ≡ true) ⊎ (strict_equal live wanted ≡ true))
unfolding reporting_message
reporting_iff wanted live = ground arith

-- There is no drift exactly when each wanted feature has the wanted status, the state and the query
-- suite of code scanning are the wanted ones where given, each wanted language is live, and private
-- vulnerability reporting is as wanted where given.
pub security_drift_iff :
    (want have : Value)
    → (security_drift want have ≡ []) ↔ (
        All (λ e. strict_equal (live_status have e.0) e.1 ≡ true) (wanted_features want)
        × IsMet
            (field (default_setup want) (lit "state"))
            (field (default_setup have) (lit "state"))
        × IsMet
            (field (default_setup want) (lit "query_suite"))
            (field (default_setup have) (lit "query_suite"))
        × All (λ l. has (languages have) l ≡ true) (languages want)
        × ((strict_equal (reporting_enabled want) undefined ≡ true)
            ⊎ (strict_equal (reporting_enabled have) (reporting_enabled want) ≡ true)))
unfolding security_drift
security_drift_iff want have =
    let a = feature_iff have (wanted_features want) in
    let b = scanning_iff (default_setup want) (default_setup have) (lit "state") in
    let c = scanning_iff (default_setup want) (default_setup have) (lit "query_suite") in
    let d = language_iff (languages have) (languages want) in
    let e = reporting_iff (reporting_enabled want) (reporting_enabled have) in
    (
      λ h.
          let (ha, h) = (append_empty _ _).0 h in
          let (hb, h) = (append_empty _ _).0 h in
          let (hc, h) = (append_empty _ _).0 h in
          let (hd, he) = (append_empty _ _).0 h in (a.0 ha, b.0 hb, c.0 hc, d.0 hd, e.0 he),
      λ (ha, hb, hc, hd, he). (append_empty _ _).1 (
        a.1 ha,
        (append_empty _ _).1
            (b.1 hb, (append_empty _ _).1 (c.1 hc, (append_empty _ _).1 (d.1 hd, e.1 he))),
      ),
    )
