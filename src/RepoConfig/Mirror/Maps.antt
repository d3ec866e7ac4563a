-- ===== src/RepoConfig/Mirror/Maps.antt =====
-- A map from the names of a list.
use key_cloak_sdk.Common.{
  ◌≡◌, ◌≢◌, ◌↔◌, refl, sym, ap, ◌∙◌, Bool, true, false, ◌&&◌, Option, none, some, List, [], ◌∷◌,
  Str, arith, if◌then◌else◌, inl, inr, Bool-cases, str_eq_iff, str_eq_refl, all,
}
use key_cloak_sdk.Values.Json.{
  Value, undefined, null, boolean, number, string, array, object, strict_equal,
}
use key_cloak_sdk.RepoConfig.Mirror.{map_set, map_get, set_all, map_of}

pub strict_equal_text : (v : Value) (s : Str) → (strict_equal v (string s) ≡ true) ↔ (v ≡ string s)
unfolding strict_equal
strict_equal_text (string t) s = (
  λ h. ap string ((str_eq_iff t s).0 h),
  λ e. (str_eq_iff t s).1 (ap (λ v. elim v as (λ _. Str) [ string u ↦ u | _ ↦ t ]) e),
)
strict_equal_text undefined s = (λ h. cc, λ h. cc)
strict_equal_text null s = (λ h. cc, λ h. cc)
strict_equal_text (boolean true) s = (λ h. cc, λ h. cc)
strict_equal_text (boolean false) s = (λ h. cc, λ h. cc)
strict_equal_text (number n) s = (λ h. cc, λ h. cc)
strict_equal_text (array vs) s = (λ h. cc, λ h. cc)
strict_equal_text (object ms) s = (λ h. cc, λ h. cc)

other_than :
    (a b : Value) (s : Str)
    → strict_equal b (string s) ≡ false
    → strict_equal (string s) b ≡ false
    → strict_equal a b ≡ true
    → strict_equal a (string s) ≡ strict_equal b (string s)
other_than a b s h k e = elim (Bool-cases (strict_equal a (string s))) [
  | inl t ↦ let same : a ≡ string s = (strict_equal_text a s).0 t in cc
  | inr f ↦ f ∙ sym h
]

-- Two keys that are the same key are the same text, or no texts.
pub same_key :
    (a b : Value) (s : Str)
    → strict_equal a b ≡ true
    → strict_equal a (string s) ≡ strict_equal b (string s)
unfolding strict_equal
same_key a (string t) s e = ap (λ v. strict_equal v (string s)) ((strict_equal_text a t).0 e)
same_key a undefined s e = other_than a undefined s refl refl e
same_key a null s e = other_than a null s refl refl e
same_key a (boolean true) s e = other_than a (boolean true) s refl refl e
same_key a (boolean false) s e = other_than a (boolean false) s refl refl e
same_key a (number n) s e = other_than a (number n) s refl refl e
same_key a (array vs) s e = other_than a (array vs) s refl refl e
same_key a (object ms) s e = other_than a (object ms) s refl refl e

two_texts :
    (a b : Value) (s : Str)
    → strict_equal a (string s) ≡ true
    → strict_equal b (string s) ≡ true
    → strict_equal a b ≡ true
unfolding strict_equal
two_texts a b s h k = rw ((strict_equal_text a s).0 h, (strict_equal_text b s).0 k) (str_eq_refl s)

module _ {A : Type 0} where
  map_get-map_set :
      (k : Value) (x : A) (m : List (Value × A)) (s : Str)
      → map_get (map_set k x m) (string s)
        ≡ (if strict_equal k (string s) then some x else map_get m (string s))
  unfolding map_get map_set
  map_get-map_set k x [] s = refl
  map_get-map_set k x (e ∷ es) s =
      ground (arith, same_key e.0 k s, two_texts e.0 k s, map_get-map_set k x es s)

  -- The last element with the name.
  pub last_with : (A → Value) → Str → List A → Option A
  last_with name s [] = none
  last_with name s (x ∷ xs) = elim (last_with name s xs) [
    | some y ↦ some y
    | none ↦ if strict_equal (name x) (string s) then some x else none
  ]

  map_get-set_all :
      (name : A → Value) (xs : List A) (m : List (Value × A)) (s : Str)
      → map_get (set_all name xs m) (string s) ≡ (elim (last_with name s xs) as (λ _. Option A) [
        | some y ↦ some y
        | none ↦ map_get m (string s)
      ])
  unfolding set_all last_with
  map_get-set_all name [] m s = refl
  map_get-set_all name (x ∷ xs) m s =
      ground
        (arith, map_get-set_all name xs (map_set (name x) x m) s, map_get-map_set (name x) x m s)

  pub map_get-map_of :
      (name : A → Value) (xs : List A) (s : Str)
      → map_get (map_of name xs) (string s) ≡ last_with name s xs
  unfolding map_of map_get
  map_get-map_of name xs s = ground (arith, map_get-set_all name xs [] s)

  map_set_filled : (k : Value) (x : A) (m : List (Value × A)) → map_set k x m ≢ []
  unfolding map_set
  map_set_filled k x [] = λ h. cc
  map_set_filled k x (e ∷ es) = ground arith

  set_all_filled :
      (name : A → Value) (xs : List A) (m : List (Value × A)) → m ≢ [] → set_all name xs m ≢ []
  unfolding set_all
  set_all_filled name [] m h = h
  set_all_filled name (x ∷ xs) m h =
      set_all_filled name xs (map_set (name x) x m) (map_set_filled (name x) x m)

  pub map_of_filled : (name : A → Value) (xs : List A) → (map_of name xs ≢ []) ↔ (xs ≢ [])
  unfolding map_of set_all
  map_of_filled name [] = (λ h. absurd (h refl), λ h. absurd (h refl))
  map_of_filled name (x ∷ xs) = (
    λ _. λ h. cc,
    λ _. set_all_filled name xs (map_set (name x) x []) (map_set_filled (name x) x []),
  )

  module _ (p : Value → Bool) (same : (a b : Value) → strict_equal a b ≡ true → p a ≡ p b) where
    all-map_set :
        (k : Value) (x : A) (m : List (Value × A))
        → all (λ e. p e.0) (map_set k x m) ≡ (p k && all (λ e. p e.0) m)
    unfolding map_set
    all-map_set k x [] = refl
    all-map_set k x (e ∷ es) = ground (arith, same e.0 k, all-map_set k x es)

    all-set_all :
        (name : A → Value) (xs : List A) (m : List (Value × A))
        → all (λ e. p e.0) (set_all name xs m) ≡ (all (λ x. p (name x)) xs && all (λ e. p e.0) m)
    unfolding set_all
    all-set_all name [] m = refl
    all-set_all name (x ∷ xs) m =
        ground (arith, all-set_all name xs (map_set (name x) x m), all-map_set (name x) x m)

    pub all-map_of :
        (name : A → Value) (xs : List A)
        → all (λ e. p e.0) (map_of name xs) ≡ all (λ x. p (name x)) xs
    unfolding map_of
    all-map_of name xs = ground (arith, all-set_all name xs [])
