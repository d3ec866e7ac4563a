-- ===== src/CoverageGate/Flags.antt =====
-- The flags of the coverage gate: which text is given with one.
use mathlib.Core.Path.{ap₂}
use key_cloak_sdk.Common.{
  ◌+◌, ◌≡◌, refl, ap, ◌∙◌, true, false, ◌||◌, some, none, List, [], ◌∷◌, ◌++◌, Str, lit, length,
  drop, arith, Bool-cases, inl, inr, any, str_eq, str_eq_iff, starts_with, length-append,
  append_assoc,
}
use key_cloak_sdk.CoverageGate.{find_prefix, value_behind, next_value}

some_inj : {A : Type 0} {a b : A} → some a ≡ some b → a ≡ b
some_inj h = cc

-- The text that comes with the flag: behind `=`, or in the argument after it, where there is one
-- and it is no flag itself.
pub data IsGiven (name : Str) (argv : List Str) (raw : Str) : Type 0 where
  joined :
      (front back : List Str)
      → argv ≡ front ++ (name ++ (lit "=" ++ raw)) ∷ back
      → IsGiven name argv raw
  following :
      (front back : List Str)
      → argv ≡ front ++ name ∷ raw ∷ back
      → starts_with raw (lit "--") ≡ false
      → IsGiven name argv raw
  last : (front : List Str) → argv ≡ front ++ name ∷ [] → raw ≡ [] → IsGiven name argv raw
  before_flag :
      (front back : List Str) (next : Str)
      → argv ≡ front ++ name ∷ next ∷ back
      → starts_with next (lit "--") ≡ true
      → raw ≡ []
      → IsGiven name argv raw

starts_with_parts : (a p : Str) → starts_with a p ≡ true → a ≡ p ++ drop (length p) a
unfolding starts_with
starts_with_parts a [] h = refl
starts_with_parts [] (d ∷ p) h = cc
starts_with_parts (c ∷ a) (d ∷ p) h =
    let rest = starts_with_parts a p (ground arith) in
    let same : c ≡ d = ground arith in ap₂ (λ x y. x ∷ y) same rest

find_prefix_parts :
    (p : Str) (argv : List Str) (a : Str)
    → find_prefix p argv ≡ some a
    → (front back : List Str) × (argv ≡ front ++ a ∷ back) × (starts_with a p ≡ true)
unfolding find_prefix
find_prefix_parts p [] a h = absurd cc
find_prefix_parts p (b ∷ argv) a h = elim (Bool-cases (starts_with b p)) [
  | inl hit ↦
      let same : b ≡ a = some_inj (rw hit at h) in
      ([], argv, ap (λ x. x ∷ argv) same, rw (← same) hit)
  | inr miss ↦
      let (front, back, e, q) = find_prefix_parts p argv a (rw miss at h) in
      (b ∷ front, back, ap (λ l. b ∷ l) e, q)
]

pub found_prefix :
    (name : Str) (argv : List Str) (a : Str)
    → find_prefix (name ++ lit "=") argv ≡ some a
    → IsGiven name argv (drop (length name + 1) a)
found_prefix name argv a h =
    let (front, back, e, q) = find_prefix_parts (name ++ lit "=") argv a h in
    let long : length (name ++ lit "=") ≡ length name + 1 = length-append name (lit "=") in
    let parts : a ≡ name ++ (lit "=" ++ drop (length name + 1) a) =
      starts_with_parts a (name ++ lit "=") q
      ∙ ap (λ k. (name ++ lit "=") ++ drop k a) long
      ∙ append_assoc name (lit "=") (drop (length name + 1) a) in
    joined front back (e ∙ ap (λ x. front ++ x ∷ back) parts)

next_given :
    (name : Str) (a : Str) (argv : List Str) → a ≡ name → IsGiven name (a ∷ argv) (next_value argv)
unfolding next_value
next_given name a [] h = last [] (ap (λ x. x ∷ []) h) refl
next_given name a (next ∷ argv) h = elim (Bool-cases (starts_with next (lit "--"))) [
  | inl flag ↦ before_flag [] argv next (ap (λ x. x ∷ next ∷ argv) h) flag (rw flag refl)
  | inr plain ↦ rw plain (following [] argv (ap (λ x. x ∷ next ∷ argv) h) plain)
]

given_later :
    (name b : Str) (argv : List Str) (raw : Str)
    → IsGiven name argv raw
    → IsGiven name (b ∷ argv) raw
given_later name b argv raw (joined front back e) = joined (b ∷ front) back (ap (λ l. b ∷ l) e)
given_later name b argv raw (following front back e q) =
    following (b ∷ front) back (ap (λ l. b ∷ l) e) q
given_later name b argv raw (last front e q) = last (b ∷ front) (ap (λ l. b ∷ l) e) q
given_later name b argv raw (before_flag front back next e q r) =
    before_flag (b ∷ front) back next (ap (λ l. b ∷ l) e) q r

pub found_value :
    (name : Str) (argv : List Str) (raw : Str)
    → value_behind name argv ≡ some raw
    → IsGiven name argv raw
unfolding value_behind
found_value name [] raw h = absurd cc
found_value name (a ∷ argv) raw h = elim (Bool-cases (str_eq a name)) [
  | inl hit ↦
      let same : next_value argv ≡ raw = some_inj (rw hit at h) in
      rw (← same) (next_given name a argv ((str_eq_iff a name).0 hit))
  | inr miss ↦ given_later name a argv raw (found_value name argv raw (rw miss at h))
]

-- Where neither form of the flag is found, no argument is one.
pub no_flag :
    (name : Str) (argv : List Str)
    → find_prefix (name ++ lit "=") argv ≡ none
    → value_behind name argv ≡ none
    → any (λ a. str_eq a name || starts_with a (name ++ lit "=")) argv ≡ false
unfolding find_prefix value_behind
no_flag name [] h k = refl
no_flag name (a ∷ argv) h k = ground (arith, no_flag name argv)
