-- ===== src/RepoConfig/Workflows.antt =====
-- scripts/repo-config.mjs: the state of the Actions workflows (workflowDrift, workflowFiles and
-- checkWorkflows).
pub mod Laws
use key_cloak_sdk.Common.{
  ℕ, ◌+◌, Bool, true, false, ◌&&◌, ◌||◌, not, List, [], ◌∷◌, ◌++◌, Str, lit, if◌then◌else◌, ◌==◌,
  leb, str_eq, includes, starts_with, filter, map,
}
use key_cloak_sdk.Config.{trim}

pub record Workflow : Type 0 where
  pub id : ℕ
  pub path : Str
  pub state : Str

-- A message of `workflowDrift`.
pub data Drift : Type 0 where
  none_committed : Drift
  not_running : Str → Str → ℕ → Drift
  ghost : Str → ℕ → Drift
  not_listed : Str → Drift

unfoldable pub is_workflow_path : Str → Bool
is_workflow_path path = starts_with path (lit ".github/workflows/")

-- `w.state === 'active' || w.state === 'disabled_fork'`
unfoldable pub may_be_off : Str → Bool
may_be_off state = str_eq state (lit "active") || str_eq state (lit "disabled_fork")

-- What one workflow of the list adds to the messages.
unfoldable pub workflow_message : List Str → Workflow → List Drift
unfolding may_be_off
workflow_message files w =
    if includes files w.path
    then (if may_be_off w.state then [] else Drift.not_running w.path w.state w.id ∷ [])
    else (if str_eq w.state (lit "active") then Drift.ghost w.path w.id ∷ [] else [])

-- The loop over the list: the messages, and the paths seen.
unfoldable pub workflow_loop : List Str → List Workflow → List Drift × List Str
unfolding workflow_message is_workflow_path
workflow_loop files [] = ([], [])
workflow_loop files (w ∷ ws) =
    let rest = workflow_loop files ws in
    if is_workflow_path w.path then (workflow_message files w ++ rest.0, w.path ∷ rest.1) else rest

-- `for (const f of committed) if (!seen.has(f)) …`
unfoldable pub not_listed_in : List Str → List Str → List Drift
not_listed_in seen [] = []
not_listed_in seen (f ∷ fs) =
    let rest = not_listed_in seen fs in if includes seen f then rest else Drift.not_listed f ∷ rest

-- `if (!committed.length) out.push(…)`
unfoldable pub vacuous : List Str → List Drift
vacuous [] = Drift.none_committed ∷ []
vacuous (f ∷ fs) = []

-- `workflowDrift(live, committed)`
unfoldable pub workflow_drift : List Workflow → List Str → List Drift
unfolding vacuous workflow_loop not_listed_in
workflow_drift live committed =
    let (out, seen) = workflow_loop committed live in
    vacuous committed ++ (out ++ not_listed_in seen committed)

-- `c` and its upper case.
unfoldable pub is_letter : ℕ → ℕ → Bool
is_letter lower c = c == lower || c + 32 == lower

-- `/\.ya?ml$/i`, at the beginning of the rest of the path.
unfoldable pub is_yaml_end : Str → Bool
unfolding is_letter
is_yaml_end (d ∷ y ∷ m ∷ l ∷ []) =
    d == 46 && (is_letter 121 y && (is_letter 109 m && is_letter 108 l))
is_yaml_end (d ∷ y ∷ a ∷ m ∷ l ∷ []) =
    d == 46 && (is_letter 121 y && (is_letter 97 a && (is_letter 109 m && is_letter 108 l)))
is_yaml_end _ = false

-- `/\.ya?ml$/i.test(f)`
unfoldable pub is_yaml : Str → Bool
unfolding is_yaml_end
is_yaml [] = false
is_yaml (c ∷ s) = let rest = is_yaml s in is_yaml_end (c ∷ s) || rest

-- `s.split('\n')`
unfoldable pub split_lines : Str → List Str
split_lines [] = [] ∷ []
split_lines (c ∷ s) = elim (split_lines s) [
  | [] ↦ (c ∷ []) ∷ []
  | l ∷ ls ↦ if c == 10 then [] ∷ l ∷ ls else (c ∷ l) ∷ ls
]

-- `workflowFiles(lsFiles)`
unfoldable pub workflow_files : Str → List Str
unfolding split_lines is_yaml
workflow_files text = filter is_yaml (map trim (split_lines text))
