-- ===== src/RepoConfig/Workflows/Laws.antt =====
-- When the workflows of the server are the committed ones.
use key_cloak_sdk.Common.{
  ◌≡◌, ◌≢◌, ◌↔◌, refl, Bool, true, false, ◌&&◌, List, [], ◌∷◌, Str, lit, arith, inl, inr,
  Bool-cases, ◌⊎◌, str_eq, includes, any, All, append_empty,
}
use key_cloak_sdk.RepoConfig.Workflows.{
  Workflow, is_workflow_path, may_be_off, workflow_message, workflow_loop, not_listed_in, vacuous,
  workflow_drift,
}

-- A workflow that GitHub manages itself, one that is committed and may run, or one that is not
-- committed and does not run.
pub IsInOrder : List Str → Workflow → Type 0
IsInOrder files w =
    (is_workflow_path w.path ≡ false)
    ⊎ ((includes files w.path ≡ true) × (may_be_off w.state ≡ true))
    ⊎ ((includes files w.path ≡ false) × (str_eq w.state (lit "active") ≡ false))

-- The path of a committed workflow stands in the list.
abbrev pub is_listed : List Workflow → Str → Bool
is_listed live f = any (λ w. is_workflow_path w.path && str_eq w.path f) live

seen_lem :
    (files : List Str) (live : List Workflow) (f : Str)
    → includes (workflow_loop files live).1 f ≡ is_listed live f
unfolding workflow_loop includes
seen_lem files [] f = refl
seen_lem files (w ∷ ws) f = elim (Bool-cases (is_workflow_path w.path)) [
  | inl h ↦ rw (h, seen_lem files ws f) refl
  | inr h ↦ rw (h, seen_lem files ws f) refl
]

not_listed_iff :
    (files : List Str) (live : List Workflow) (fs : List Str)
    → (not_listed_in (workflow_loop files live).1 fs ≡ []) ↔ All (λ f. is_listed live f ≡ true) fs
unfolding not_listed_in
not_listed_iff files live [] = (λ _. tt, λ _. refl)
not_listed_iff files live (f ∷ fs) =
    ground (arith, not_listed_iff files live fs, seen_lem files live f)

message_iff :
    (files : List Str) (w : Workflow)
    → is_workflow_path w.path ≡ true
    → (workflow_message files w ≡ []) ↔ IsInOrder files w
unfolding workflow_message IsInOrder
message_iff files w p = ground arith

managed : (files : List Str) (w : Workflow) → is_workflow_path w.path ≡ false → IsInOrder files w
unfolding IsInOrder
managed files w h = inl h

loop_iff :
    (files : List Str) (live : List Workflow)
    → ((workflow_loop files live).0 ≡ []) ↔ All (IsInOrder files) live
unfolding workflow_loop
loop_iff files [] = (λ _. tt, λ _. refl)
loop_iff files (w ∷ ws) = elim (Bool-cases (is_workflow_path w.path)) [
  | inl h ↦
      let rest = loop_iff files ws in
      let here = message_iff files w h in
      let both = append_empty (workflow_message files w) (workflow_loop files ws).0 in
      rw h
        (λ e. let (a, b) = both.0 e in (here.0 a, rest.0 b), λ k. both.1 (here.1 k.0, rest.1 k.1))
  | inr h ↦
      let rest = loop_iff files ws in rw h (λ e. (managed files w h, rest.0 e), λ k. rest.1 k.1)
]

-- There is no drift exactly when some workflow is committed, each workflow of the server's list
-- under .github/workflows/ is either committed and active or disabled in a fork, or neither
-- committed nor active, and each committed workflow stands in that list.
pub workflow_drift_iff :
    (live : List Workflow) (committed : List Str)
    → (workflow_drift live committed ≡ []) ↔ (
        (committed ≢ [])
        × All (IsInOrder committed) live
        × All (λ f. is_listed live f ≡ true) committed)
unfolding workflow_drift vacuous
workflow_drift_iff live [] = (λ h. cc, λ h. absurd (h.0 refl))
workflow_drift_iff live (f ∷ fs) =
    let both =
      append_empty (workflow_loop (f ∷ fs) live).0
        (not_listed_in (workflow_loop (f ∷ fs) live).1 (f ∷ fs)) in
    let ran = loop_iff (f ∷ fs) live in
    let listed = not_listed_iff (f ∷ fs) live (f ∷ fs) in
    (
      λ h. let (a, b) = both.0 h in (λ e. cc, ran.0 a, listed.0 b),
      λ (filled, a, b). both.1 (ran.1 a, listed.1 b),
    )
