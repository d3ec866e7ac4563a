-- ===== src/InstallMatrix.antt =====
-- harness/install/report/install-matrix.mjs, the verdict over the signals, and
-- harness/security/verdict.mjs. The counts of a signal are numbers where they are there at all.
pub mod Laws
use key_cloak_sdk.Common.{
  ℕ, Bool, true, false, ◌&&◌, ◌||◌, not, Option, none, some, List, [], ◌∷◌, ◌++◌, Str, lit, ltb,
  leb, if◌then◌else◌, ◌==◌, or_default, str_eq, all, any, filter,
}

pub record Conformance : Type 0 where
  pub passed : Option ℕ
  pub failed : Option ℕ

pub record Security : Type 0 where
  pub defended : Option ℕ
  pub total : Option ℕ

-- The stages say whether the field is `true`.
pub record Signal : Type 0 where
  pub lang : Str
  pub artifact_built : Bool
  pub published : Bool
  pub installed : Bool
  pub quickstart_ok : Bool
  pub app_boot : Bool
  pub conformance : Option Conformance
  pub security : Option Security

-- `(cf.failed ?? 0) > 0 || (cf.passed ?? 0) === 0`
unfoldable pub conformance_fails : Option Conformance → Bool
conformance_fails none = true
conformance_fails (some cf) = ltb 0 (or_default cf.failed 0) || or_default cf.passed 0 == 0

-- `(sec.total ?? 0) === 0 || (sec.defended ?? 0) < sec.total`
unfoldable pub security_fails : Option Security → Bool
security_fails none = true
security_fails (some sec) =
    or_default sec.total 0 == 0 || ltb (or_default sec.defended 0) (or_default sec.total 0)

-- The filter of `failedLangs`.
unfoldable pub fails : Signal → Bool
unfolding conformance_fails security_fails
fails s =
    not (s.artifact_built && (s.published && (s.installed && (s.quickstart_ok && s.app_boot))))
    || (conformance_fails s.conformance || security_fails s.security)

unfoldable pub failed_signals : List Signal → List Str
unfolding fails
failed_signals [] = []
failed_signals (s ∷ ss) = let rest = failed_signals ss in if fails s then s.lang ∷ rest else rest

-- `seen.has(l)`
unfoldable pub is_seen : List Signal → Str → Bool
is_seen signals l = any (λ s. str_eq s.lang l) signals

-- `failedLangs(signals, expectedLangs)`
unfoldable pub failed_langs : List Signal → Option (List Str) → List Str
failed_langs signals none = failed_signals signals
failed_langs signals (some expected) =
    failed_signals signals ++ filter (λ l. not (is_seen signals l)) expected

pub data Verdict : Type 0 where
  rejected accepted crashed unexpected : Verdict

-- `classify(status)`
unfoldable pub classify : ℕ → Verdict
classify status =
    if status == 400 || status == 401
    then rejected
    else if status == 200
    then accepted
    else if leb 500 status
    then crashed
    else unexpected

-- `isDefended(status)`
unfoldable pub is_defended : ℕ → Bool
is_defended status = elim (classify status) [ rejected ↦ true | _ ↦ false ]
