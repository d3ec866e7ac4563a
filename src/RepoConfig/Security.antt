-- ===== src/RepoConfig/Security.antt =====
-- scripts/repo-config.mjs: the security features of the repository (securityDrift).
pub mod Laws
use key_cloak_sdk.Common.{Bool, true, false, List, [], ◌∷◌, ◌++◌, Str, lit, if◌then◌else◌}
use key_cloak_sdk.Values.Json.{
  Value, undefined, field, strict_equal, entries, members_of, elements_of, has,
}

-- A message of `securityDrift`.
pub data SecurityDrift : Type 0 where
  feature scanning : Str → Value → Value → SecurityDrift
  language : Value → SecurityDrift
  reporting : Value → Value → SecurityDrift

-- `have.security_and_analysis?.[k]?.status`
unfoldable pub live_status : Value → Str → Value
live_status have k = field (field (field have (lit "security_and_analysis")) k) (lit "status")

-- The loop over `want.security_and_analysis`.
unfoldable pub feature_messages : Value → List (Str × Value) → List SecurityDrift
unfolding live_status
feature_messages have [] = []
feature_messages have (e ∷ es) =
    let later = feature_messages have es in
    if strict_equal (live_status have e.0) e.1
    then later
    else SecurityDrift.feature e.0 e.1 (live_status have e.0) ∷ later

-- One round of the loop over `state` and `query_suite`.
unfoldable pub scanning_message : Value → Value → Str → List SecurityDrift
scanning_message w h k =
    if strict_equal (field w k) undefined
    then []
    else if strict_equal (field w k) (field h k)
    then []
    else SecurityDrift.scanning k (field w k) (field h k) ∷ []

-- The loop over the wanted languages.
unfoldable pub language_messages : List Value → List Value → List SecurityDrift
language_messages live [] = []
language_messages live (l ∷ ls) =
    let later = language_messages live ls in
    if has live l then later else SecurityDrift.language l ∷ later

unfoldable pub reporting_message : Value → Value → List SecurityDrift
reporting_message wanted live =
    if strict_equal wanted undefined
    then []
    else if strict_equal live wanted
    then []
    else SecurityDrift.reporting wanted live ∷ []

unfoldable pub default_setup : Value → Value
default_setup v = field v (lit "code_scanning_default_setup")

unfoldable pub reporting_enabled : Value → Value
reporting_enabled v = field (field v (lit "private_vulnerability_reporting")) (lit "enabled")

unfoldable pub wanted_features : Value → List (Str × Value)
wanted_features want = entries (members_of (field want (lit "security_and_analysis")))

unfoldable pub languages : Value → List Value
unfolding default_setup
languages v = elements_of (field (default_setup v) (lit "languages"))

-- `securityDrift(want, have)`
unfoldable pub security_drift : Value → Value → List SecurityDrift
unfolding feature_messages scanning_message language_messages reporting_message default_setup
    reporting_enabled wanted_features languages
security_drift want have =
    feature_messages have (wanted_features want)
    ++ (scanning_message (default_setup want) (default_setup have) (lit "state")
        ++ (scanning_message (default_setup want) (default_setup have) (lit "query_suite")
            ++ (language_messages (languages have) (languages want)
                ++ reporting_message (reporting_enabled want) (reporting_enabled have))))
