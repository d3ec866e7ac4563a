-- ===== src/RepoConfig/Check/Ends.antt =====
-- `check` returns, or ends the process with 1 or 2.
use key_cloak_sdk.Common.{
  ◌≡◌, ◌⊎◌, inl, inr, refl, Bool, true, false, Option, none, some, List, [], ◌∷◌, Str, lit,
  if◌then◌else◌,
}
use key_cloak_sdk.HarnessApp.{is_present}
use key_cloak_sdk.Values.Json.{
  Value, undefined, null, boolean, number, string, array, object, field,
}
use key_cloak_sdk.RepoConfig.Mirror.{Definition, map_set}
use key_cloak_sdk.RepoConfig.Workflows.{workflow_files}
use key_cloak_sdk.RepoConfig.Check.{
  Platform, Answer, refused, answered, Exit, returned, exit, ◌>>=◌, asked, parsed, list_of,
  rulesets_path, ruleset_path, ruleset_details, live_rulesets, mirror_asked, mirror_drift,
}
use key_cloak_sdk.RepoConfig.Check.Main.{
  wanted_security, security_messages, check_security, parsed_lines, listed_files, workflow_messages,
  check_workflows, desired_files, check_drift,
}

-- A value, or the end of the process with 1 or 2.
unfoldable pub Ends : {A : Type 0} → Exit A → Type 0
Ends (returned a) = Unit {0}
Ends (exit c) = (c ≡ 1) ⊎ (c ≡ 2)

pub bind-Ends :
    {A B : Type 0} (m : Exit A) (k : A → Exit B) → Ends m → ((a : A) → Ends (k a)) → Ends (m >>= k)
unfolding Ends
bind-Ends (returned a) k h f = f a
bind-Ends (exit c) k h f = h

pub if-Ends : {A : Type 0} (b : Bool) (m k : Exit A) → Ends m → Ends k → Ends (if b then m else k)
if-Ends true m k h l = h
if-Ends false m k h l = l

pub answer-Ends :
    {A : Type 0} (a : Answer) (f g : Str → Exit A)
    → ((out : Str) → Ends (f out))
    → ((out : Str) → Ends (g out))
    → Ends (elim a as (λ _. Exit A) [ refused out ↦ f out | answered out ↦ g out ])
answer-Ends (refused out) f g h l = h out
answer-Ends (answered out) f g h l = l out

pub option-Ends :
    {A B : Type 0} (o : Option B) (m : Exit A) (f : B → Exit A)
    → Ends m
    → ((b : B) → Ends (f b))
    → Ends (elim o as (λ _. Exit A) [ none ↦ m | some b ↦ f b ])
option-Ends none m f h l = h
option-Ends (some b) m f h l = l b

module _ (p : Platform) where
  pub asked-Ends : (path : Str) → Ends (asked p path)
  unfolding asked Ends
  asked-Ends path =
      answer-Ends (p.ask path) (λ _. exit 2) (λ out. returned out) (λ _. inr refl) (λ _. tt)

  pub parsed-Ends : (s : Str) → Ends (parsed p s)
  unfolding parsed Ends
  parsed-Ends s = option-Ends (p.parse s) (exit 1) (λ v. returned v) (inl refl) (λ _. tt)

  pub list_of-Ends : (v : Value) → Ends (list_of p v)
  unfolding list_of Ends
  list_of-Ends (array vs) = tt
  list_of-Ends undefined = inl refl
  list_of-Ends null = inl refl
  list_of-Ends (boolean b) = inl refl
  list_of-Ends (number n) = inl refl
  list_of-Ends (string s) = inl refl
  list_of-Ends (object ms) = inl refl

  pub details-Ends :
      (repo : Str) (rs : List Value) (m : List (Value × Value)) → Ends (ruleset_details p repo rs m)
  unfolding ruleset_details Ends
  details-Ends repo [] m = tt
  details-Ends repo (r ∷ rs) m = bind-Ends _ _ (asked-Ends (ruleset_path p repo r)) (λ out.
      bind-Ends _ _ (parsed-Ends out)
        (λ one. details-Ends repo rs (map_set (field r (lit "name")) one m)))

  pub live-Ends : (repo : Str) → Ends (live_rulesets p repo)
  unfolding live_rulesets
  live-Ends repo = bind-Ends _ _ (asked-Ends (rulesets_path p repo)) (λ out.
      bind-Ends _ _ (parsed-Ends out)
        (λ summary. bind-Ends _ _ (list_of-Ends summary) (λ rs. details-Ends repo rs [])))

  pub mirror_asked-Ends : (m : Value) (repo : Str) → Ends (mirror_asked p m repo)
  unfolding mirror_asked Ends
  mirror_asked-Ends m repo =
      answer-Ends (p.ask (rulesets_path p repo)) _ _ (λ _. tt)
        (λ out.
          option-Ends (p.parse out) _ _ tt
            (λ summary. bind-Ends (list_of p summary) _ (list_of-Ends summary) (λ _. tt)))

  pub mirror-Ends : (want : Value) → Ends (mirror_drift p want)
  unfolding mirror_drift Ends
  mirror-Ends want =
      let m = field want (lit "php_mirror") in
      if-Ends (is_present (field m (lit "repo"))) _ (returned [])
        (mirror_asked-Ends m (p.shown (field m (lit "repo")))) tt

  pub lines-Ends : (ls : List Str) → Ends (parsed_lines p ls)
  unfolding parsed_lines Ends
  lines-Ends [] = tt
  lines-Ends (l ∷ ls) =
      option-Ends (p.workflow l) _ _ (inl refl)
        (λ w. bind-Ends (parsed_lines p ls) _ (lines-Ends ls) (λ _. tt))

  pub files-Ends : Ends (listed_files p)
  unfolding listed_files Ends
  files-Ends =
      option-Ends p.ls_files (exit 2) (λ out. returned (workflow_files out)) (inr refl) (λ _. tt)

  pub workflows-Ends : (repo : Str) → Ends (check_workflows p repo)
  unfolding check_workflows workflow_messages Ends
  workflows-Ends repo =
      bind-Ends (workflow_messages p repo) _
        (bind-Ends (asked p _) _ (asked-Ends _) (λ out.
          bind-Ends (parsed_lines p _) _ (lines-Ends _)
            (λ live. bind-Ends (listed_files p) _ files-Ends (λ _. tt))))
        (λ _. tt)

  pub security-Ends : (repo : Str) → Ends (check_security p repo)
  unfolding check_security security_messages Ends
  security-Ends repo = option-Ends (wanted_security p) _ _ tt (λ want.
      bind-Ends (security_messages p repo want) _
        (bind-Ends (asked p _) _ (asked-Ends _) (λ a. bind-Ends (asked p _) _ (asked-Ends _) (λ b.
          bind-Ends (asked p _) _ (asked-Ends _) (λ c.
            bind-Ends (parsed p a) _ (parsed-Ends a) (λ x.
              bind-Ends (parsed p b) _ (parsed-Ends b) (λ y.
                bind-Ends (parsed p c) _ (parsed-Ends c)
                  (λ z. bind-Ends (mirror_drift p want) _ (mirror-Ends want) (λ _. tt))))))))
        (λ _. tt))

  pub list-Ends :
      (ds : List Definition)
      → Ends (elim ds as (λ _. Exit (List Definition)) [ [] ↦ exit 2 | d ∷ ds ↦ returned (d ∷ ds) ])
  unfolding Ends
  list-Ends [] = inr refl
  list-Ends (d ∷ ds) = tt

  pub desired-Ends : Ends (desired_files p)
  unfolding desired_files
  desired-Ends = list-Ends p.definitions

  pub drift-Ends : (repo : Str) → Ends (check_drift p repo)
  unfolding check_drift Ends
  drift-Ends repo = bind-Ends (live_rulesets p repo) _ (live-Ends repo) (λ live.
      bind-Ends (desired_files p) _ desired-Ends (λ definitions.
        bind-Ends (check_security p repo) _ (security-Ends repo)
          (λ secure. bind-Ends (check_workflows p repo) _ (workflows-Ends repo) (λ _. tt))))
