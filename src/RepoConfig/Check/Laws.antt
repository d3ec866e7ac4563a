-- ===== src/RepoConfig/Check/Laws.antt =====
-- What the exit code of `check` says.
use key_cloak_sdk.Common.{
  ℕ, ◌+◌, ◌≡◌, ◌≢◌, ◌↔◌, ◌⊎◌, refl, ap, ◌∙◌, true, false, Option, none, some, List, [], ◌∷◌, ◌++◌,
  Str, lit, arith, All, map,
}
use key_cloak_sdk.HarnessApp.{is_present}
use key_cloak_sdk.Values.Json.{Value, object, member, end, field}
use key_cloak_sdk.RepoConfig.Mirror.{Definition}
use key_cloak_sdk.RepoConfig.Security.{security_drift}
use key_cloak_sdk.RepoConfig.Workflows.{Drift}
use key_cloak_sdk.RepoConfig.Check.{
  Platform, refused, Exit, returned, exit, ◌>>=◌, Message, security, mirror_refused, asked, parsed,
  rulesets_path, live_rulesets, is_drifted, drifted_rulesets, mirror_asked, mirror_drift,
}
use key_cloak_sdk.RepoConfig.Check.Main.{
  code_of, exit_code, wanted_security, security_messages, check_security, workflow_messages,
  check_workflows, desired_files, check_drift, check,
}
use key_cloak_sdk.RepoConfig.Check.Ends.{Ends, drift-Ends}

bind_returned :
    {A B : Type 0} (m : Exit A) (k : A → Exit B) (b : B)
    → m >>= k ≡ returned b
    → (a : A) × (m ≡ returned a) × (k a ≡ returned b)
bind_returned (returned a) k b h = (a, refl, h)
bind_returned (exit c) k b h = cc

module _ (p : Platform) where
  exit_code-cases :
      (e : Exit ℕ) → Ends e → (exit_code e ≡ 0) ⊎ (exit_code e ≡ 1) ⊎ (exit_code e ≡ 2)
  unfolding Ends exit_code
  exit_code-cases (returned n) h = ground arith
  exit_code-cases (exit c) h = ground arith

  exit_code_zero : (e : Exit ℕ) → Ends e → exit_code e ≡ 0 → e ≡ returned 0
  unfolding Ends exit_code
  exit_code_zero (returned n) h z = ground arith
  exit_code_zero (exit c) h z = absurd (ground arith)

  drifted_zero :
      (live : List (Value × Value)) (ds : List Definition)
      → (drifted_rulesets p live ds ≡ 0) ↔ All (λ d. is_drifted p live d ≡ false) ds
  unfolding drifted_rulesets
  drifted_zero live [] = (λ _. tt, λ _. refl)
  drifted_zero live (d ∷ ds) = ground (arith, drifted_zero live ds)

  coded_zero :
      {A : Type 0} (m : Exit (List A))
      → (m >>= (λ d. returned (code_of d)) ≡ returned 0) ↔ (m ≡ returned [])
  unfolding code_of
  coded_zero (returned []) = (λ _. refl, λ _. refl)
  coded_zero (returned (x ∷ xs)) = (λ h. cc, λ h. cc)
  coded_zero (exit c) = (λ h. cc, λ h. cc)

  security_on :
      (repo : Str) (o : Option Value)
      → ((elim o as (λ _. Exit ℕ) [
        | none ↦ returned 1
        | some want ↦ security_messages p repo want >>= (λ diffs. returned (code_of diffs))
      ])
          ≡ returned 0)
        ↔ ((want : Value) × (o ≡ some want) × (security_messages p repo want ≡ returned []))
  security_on repo none = (λ h. cc, λ h. cc)
  security_on repo (some want) =
      let coded = coded_zero (security_messages p repo want) in
      (λ h. (want, refl, coded.0 h), λ (w, e, h). coded.1 cc)

  security_zero :
      (repo : Str)
      → (check_security p repo ≡ returned 0) ↔ (
          (want : Value) × (wanted_security p ≡ some want)
          × (security_messages p repo want ≡ returned []))
  unfolding check_security
  security_zero repo = security_on repo (wanted_security p)

  desired_on :
      (xs ds : List Definition)
      → ((elim xs as (λ _. Exit (List Definition)) [ [] ↦ exit 2 | d ∷ ds ↦ returned (d ∷ ds) ])
          ≡ returned ds)
        ↔ ((xs ≢ []) × (xs ≡ ds))
  desired_on [] ds = (λ h. cc, λ h. absurd (h.0 refl))
  desired_on (x ∷ xs) ds = (λ h. (λ e. cc, cc), λ h. cc)

  desired_lem :
      (ds : List Definition)
      → (desired_files p ≡ returned ds) ↔ ((p.definitions ≢ []) × (p.definitions ≡ ds))
  unfolding desired_files
  desired_lem ds = desired_on p.definitions ds

  returned_inj : (m n : ℕ) → returned m ≡ returned n → m ≡ n
  returned_inj m n h = cc

  -- `check` ends with 0, 1 or 2.
  pub check_bounded : (repo : Str) → (check p repo ≡ 0) ⊎ (check p repo ≡ 1) ⊎ (check p repo ≡ 2)
  unfolding check
  check_bounded repo = exit_code-cases (check_drift p repo) (drift-Ends p repo)

  -- `check` ends with 0 exactly when every answer could be read, there is some definition, each
  -- definition has a live ruleset of the same normal form, and there is no message on the wanted
  -- security settings with the mirror, nor on the workflows.
  pub check_zero_iff :
      (repo : Str)
      → (check p repo ≡ 0) ↔ (
          (live : List (Value × Value)) × (want : Value) × (live_rulesets p repo ≡ returned live)
          × (p.definitions ≢ [])
          × All (λ d. is_drifted p live d ≡ false) p.definitions
          × (wanted_security p ≡ some want)
          × (security_messages p repo want ≡ returned [])
          × (workflow_messages p repo ≡ returned []))
  unfolding check check_drift check_workflows
  check_zero_iff repo = (
    λ h.
        let e = exit_code_zero (check_drift p repo) (drift-Ends p repo) h in
        let (live, read, e) = bind_returned (live_rulesets p repo) _ 0 e in
        let (ds, desired, e) = bind_returned (desired_files p) _ 0 e in
        let (secure, s, e) = bind_returned (check_security p repo) _ 0 e in
        let (running, w, e) =
          bind_returned (workflow_messages p repo >>= (λ d. returned (code_of d))) _ 0 e in
        let sum : drifted_rulesets p live ds + (secure + running) ≡ 0 = returned_inj _ _ e in
        let no_drift : drifted_rulesets p live ds ≡ 0 = omega arith in
        let is_secure : secure ≡ 0 = omega arith in
        let is_running : running ≡ 0 = omega arith in
        let (want, wanted, met) = (security_zero repo).0 (s ∙ ap returned is_secure) in
        let (some_definition, same) = (desired_lem ds).0 desired in
        (
          live,
          want,
          read,
          some_definition,
          (drifted_zero live p.definitions).0 (rw same no_drift),
          wanted,
          met,
          (coded_zero (workflow_messages p repo)).0 (w ∙ ap returned is_running),
        ),
    λ (live, want, read, some_definition, no_drift, wanted, met, ran).
        let given = (desired_lem p.definitions).1 (some_definition, refl) in
        let secure = (security_zero repo).1 (want, wanted, met) in
        let none_drifted = (drifted_zero live p.definitions).1 no_drift in
        rw (read, given, secure, ran, none_drifted, exit_code, code_of) refl,
  )

  mirror_asked-refused :
      (m : Value) (name out : Str)
      → p.ask (rulesets_path p name) ≡ refused out
      → mirror_asked p m name ≡ returned (mirror_refused name ∷ [])
  unfolding mirror_asked
  mirror_asked-refused m name out r = rw (mirror_asked, r) refl

  mirror_refused_drift :
      (name out : Str) (want : Value)
      → is_present (field (field want (lit "php_mirror")) (lit "repo")) ≡ true
      → p.shown (field (field want (lit "php_mirror")) (lit "repo")) ≡ name
      → p.ask (rulesets_path p name) ≡ refused out
      → mirror_drift p want ≡ returned (mirror_refused name ∷ [])
  unfolding mirror_drift
  mirror_refused_drift name out want k n r =
      rw (k, n) (mirror_asked-refused (field want (lit "php_mirror")) name out r)

  security_coded :
      (repo : Str) (want : Value) (ms : List Message)
      → wanted_security p ≡ some want
      → security_messages p repo want ≡ returned ms
      → check_security p repo ≡ returned (code_of ms)
  unfolding check_security
  security_coded repo want ms h k = rw (check_security, h, k) refl

  appended_code : {A : Type 0} (xs : List A) (m : A) → code_of (xs ++ (m ∷ [])) ≡ 1
  unfolding code_of
  appended_code [] m = refl
  appended_code (x ∷ xs) m = refl

  counted_code : (d r : ℕ) → exit_code (returned (d + (1 + r))) ≡ 1
  unfolding exit_code
  counted_code d r = ground arith

  -- A mirror whose rulesets `gh` cannot read is reported as drift: `check` ends with 1 where the
  -- other answers, the definitions and the wanted security settings could be read.
  pub mirror_refused_lem :
      (repo name out : Str) (want : Value) (live : List (Value × Value)) (ms : List Drift)
      (a b c : Str) (x y z : Value)
      → live_rulesets p repo ≡ returned live
      → p.definitions ≢ []
      → wanted_security p ≡ some want
      → asked p (lit "repos/" ++ repo) ≡ returned a
      → parsed p a ≡ returned x
      → asked p (lit "repos/" ++ (repo ++ lit "/code-scanning/default-setup")) ≡ returned b
      → parsed p b ≡ returned y
      → asked p (lit "repos/" ++ (repo ++ lit "/private-vulnerability-reporting")) ≡ returned c
      → parsed p c ≡ returned z
      → is_present (field (field want (lit "php_mirror")) (lit "repo")) ≡ true
      → p.shown (field (field want (lit "php_mirror")) (lit "repo")) ≡ name
      → p.ask (rulesets_path p name) ≡ refused out
      → workflow_messages p repo ≡ returned ms
      → check p repo ≡ 1
  unfolding check check_drift check_workflows
  mirror_refused_lem repo name out want live ms a b c x y z read defs h qa pa qb pb qc pc k n r
        ran =
      let mirror = mirror_refused_drift name out want k n r in
      let given = (desired_lem p.definitions).1 (defs, refl) in
      let secure : check_security p repo ≡ returned 1 =
        security_coded repo want
          (map security (
              security_drift want (
                object (
                  member (lit "security_and_analysis") (field x (lit "security_and_analysis")) (
                    member (lit "code_scanning_default_setup") y
                      (member (lit "private_vulnerability_reporting") z end)))))
            ++ (mirror_refused name ∷ []))
          h (rw (security_messages, qa, pa, qb, pb, qc, pc, mirror) refl)
        ∙ ap returned (appended_code _ _) in
      rw (read, given, secure, ran) (counted_code _ _)
