-- ===== src/RepoConfig/Check/Main.antt =====
-- scripts/repo-config.mjs: checkSecurity, checkWorkflows and main under `check`.
use key_cloak_sdk.Common.{
  ℕ, ◌+◌, Option, none, some, List, [], ◌∷◌, ◌++◌, Str, lit, map, if◌then◌else◌, ◌==◌,
}
use key_cloak_sdk.Values.Json.{Value, object, end, member, field}
use key_cloak_sdk.RepoConfig.Canonical.{strip_comments}
use key_cloak_sdk.RepoConfig.Mirror.{Definition}
use key_cloak_sdk.RepoConfig.Security.{security_drift}
use key_cloak_sdk.RepoConfig.Workflows.{
  Workflow, Drift, workflow_drift, workflow_files, split_lines,
}
use key_cloak_sdk.RepoConfig.Check.{
  Platform, Exit, returned, exit, ◌>>=◌, Message, security, asked, parsed, live_rulesets,
  drifted_rulesets, mirror_drift, without_empty,
}

-- The code of a list of messages.
unfoldable pub code_of : {A : Type 0} → List A → ℕ
code_of [] = 0
code_of (m ∷ ms) = 1

-- The process without a call that ends it with 0.
unfoldable pub exit_code : Exit ℕ → ℕ
exit_code (returned drift) = if drift == 0 then 0 else 1
exit_code (exit c) = c

module _ (p : Platform) where
  -- The `try` of `checkSecurity`, with none where it catches an exception.
  unfoldable pub wanted_security : Option Value
  wanted_security = elim p.security_config [
    | none ↦ none
    | some text ↦ elim (p.parse text) [ none ↦ none | some v ↦ some (strip_comments v) ]
  ]

  -- The messages of `checkSecurity` for the wanted settings; the answers of these paths are objects.
  unfoldable pub security_messages : Str → Value → Exit (List Message)
  security_messages repo want = do
    repo_out ← asked p (lit "repos/" ++ repo)
    cs_out ← asked p (lit "repos/" ++ (repo ++ lit "/code-scanning/default-setup"))
    pvr_out ← asked p (lit "repos/" ++ (repo ++ lit "/private-vulnerability-reporting"))
    repo_value ← parsed p repo_out
    cs_value ← parsed p cs_out
    pvr_value ← parsed p pvr_out
    diffs ← mirror_drift p want
    returned (
        map security (
          security_drift want (
            object (
              member (lit "security_and_analysis") (field repo_value (lit "security_and_analysis"))
                (member (lit "code_scanning_default_setup") cs_value
                  (member (lit "private_vulnerability_reporting") pvr_value end)))))
        ++ diffs)

  -- `checkSecurity(repo, cmd)`
  unfoldable pub check_security : Str → Exit ℕ
  unfolding wanted_security security_messages code_of
  check_security repo = elim wanted_security [
    | none ↦ returned 1
    | some want ↦ security_messages repo want >>= (λ diffs. returned (code_of diffs))
  ]

  unfoldable pub parsed_lines : List Str → Exit (List Workflow)
  parsed_lines [] = returned []
  parsed_lines (l ∷ ls) = elim (p.workflow l) [
    | none ↦ exit 1
    | some w ↦ parsed_lines ls >>= (λ ws. returned (w ∷ ws))
  ]

  unfoldable pub listed_files : Exit (List Str)
  unfolding workflow_files
  listed_files = elim p.ls_files [ none ↦ exit 2 | some out ↦ returned (workflow_files out) ]

  -- The messages of `checkWorkflows`.
  unfoldable pub workflow_messages : Str → Exit (List Drift)
  unfolding parsed_lines listed_files
  workflow_messages repo = do
    out ← asked p (lit "repos/" ++ (repo ++ lit "/actions/workflows"))
    live ← parsed_lines (without_empty (split_lines out))
    committed ← listed_files
    returned (workflow_drift live committed)

  -- `checkWorkflows(repo)`
  unfoldable pub check_workflows : Str → Exit ℕ
  unfolding workflow_messages code_of
  check_workflows repo = workflow_messages repo >>= (λ d. returned (code_of d))

  -- `desiredFiles()`, with at least one definition
  unfoldable pub desired_files : Exit (List Definition)
  desired_files = elim p.definitions [ [] ↦ exit 2 | d ∷ ds ↦ returned (d ∷ ds) ]

  -- `main()` under `check`, for the repository: what `drift` holds in the end.
  unfoldable pub check_drift : Str → Exit ℕ
  unfolding live_rulesets desired_files drifted_rulesets check_security check_workflows
  check_drift repo = do
    live ← live_rulesets p repo
    definitions ← desired_files
    secure ← check_security repo
    running ← check_workflows repo
    returned (drifted_rulesets p live definitions + (secure + running))

  -- The exit code of `check`.
  unfoldable pub check : Str → ℕ
  unfolding check_drift exit_code
  check repo = exit_code (check_drift repo)
