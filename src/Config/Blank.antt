-- ===== src/Config/Blank.antt =====
-- When a required field of the configuration counts as missing.
use mathlib.Core.List.{Memᴰ, reverse, reverse_aux}
use key_cloak_sdk.Common.{
  ℕ, ◌≡◌, ◌≢◌, ◌↔◌, refl, sym, subst, ap, ◌∙◌, true, false, Option, some, none, [], ◌∷◌, ◌++◌, Str,
  arith, ◌⊎◌, inl, inr, Bool-cases, length, length-append, append_assoc, ◌==◌, ==_iff,
}
use key_cloak_sdk.Config.{is_space, trim_start, trim, is_missing}

-- A text with a character in it that is no white space.
abbrev pub HasText : Option Str → Type 0
HasText o = (s : Str) × (c : ℕ) × (o ≡ some s) × Memᴰ c s × (is_space c ≡ false)

-- Nothing is left at the start, and then no character is other than white space, or what is left
-- begins with such a character.
space_at :
    (d : ℕ) (s : Str) (c : ℕ)
    → is_space d ≡ true
    → ((b : ℕ) → Memᴰ b s → is_space b ≡ true)
    → Memᴰ c (d ∷ s)
    → is_space c ≡ true
space_at d s c space blank (Memᴰ.head e) = ap is_space e ∙ space
space_at d s c space blank (Memᴰ.tail m) = blank c m

some_inj : {A : Type 0} {a b : A} → some a ≡ some b → a ≡ b
some_inj h = cc

trim_start-cases :
    (s : Str)
    → ((trim_start s ≡ []) × ((c : ℕ) → Memᴰ c s → is_space c ≡ true))
      ⊎ ((c : ℕ) × (t : Str) × (trim_start s ≡ c ∷ t) × (is_space c ≡ false) × Memᴰ c s)
unfolding trim_start
trim_start-cases [] = inl (refl, λ c m. elim m [ ])
trim_start-cases (d ∷ s) = elim (Bool-cases (is_space d)) [
  | inr plain ↦ inr (d, s, rw plain refl, plain, Memᴰ.head refl)
  | inl space ↦ elim (trim_start-cases s) [
    | inl (e, blank) ↦ inl (rw space e, λ c m. space_at d s c space blank m)
    | inr (c, t, e, plain, m) ↦ inr (c, t, rw space e, plain, Memᴰ.tail m)
  ]
]

-- A text that a plain character ends is not used up.
trim_start-snoc :
    (s : Str) (c : ℕ)
    → is_space c ≡ false
    → (d : ℕ) × (t : Str) × (trim_start (s ++ c ∷ []) ≡ d ∷ t)
unfolding trim_start
trim_start-snoc [] c h = (c, [], rw h refl)
trim_start-snoc (d ∷ s) c h = elim (Bool-cases (is_space d)) [
  | inl space ↦ let (x, t, e) = trim_start-snoc s c h in (x, t, rw space e)
  | inr plain ↦ (d, s ++ c ∷ [], rw plain refl)
]

reverse_aux-parts : (s r : Str) → reverse_aux s r ≡ reverse_aux s [] ++ r
reverse_aux-parts [] r = refl
reverse_aux-parts (c ∷ s) r =
    reverse_aux-parts s (c ∷ r)
    ∙ sym (append_assoc (reverse_aux s []) (c ∷ []) r)
    ∙ ap (λ t. t ++ r) (sym (reverse_aux-parts s (c ∷ [])))

length-reverse_first : (c : ℕ) (s : Str) → length (reverse (c ∷ s)) ≡ 0 → [] ≡ c ∷ s
length-reverse_first c s h =
    let parts : length (reverse_aux s (c ∷ [])) ≡ length (reverse_aux s [] ++ c ∷ []) =
      ap length (reverse_aux-parts s (c ∷ [])) in
    absurd (omega (arith, h, parts, length-append (reverse_aux s []) (c ∷ [])))

trimmed_plain :
    (s t : Str) (c : ℕ) → trim_start s ≡ c ∷ t → is_space c ≡ false → (length (trim s) == 0) ≡ false
unfolding trim
trimmed_plain s t c e plain =
    let (d, u, f) = trim_start-snoc (reverse_aux t []) c plain in
    let ended : trim_start (reverse (trim_start s)) ≡ d ∷ u =
      rw e (rw (reverse_aux-parts t (c ∷ [])) f) in
    elim (Bool-cases (length (reverse (trim_start (reverse (trim_start s)))) == 0)) [
      | inr filled ↦ filled
      | inl empty ↦
          let none_left : length (reverse (d ∷ u)) ≡ 0 = (==_iff _ 0).0 (rw ended at empty) in
          let lost = length-reverse_first d u none_left in absurd cc
    ]

blank_missing : (s : Str) → trim_start s ≡ [] → (length (trim s) == 0) ≢ false
unfolding trim trim_start
blank_missing s e h = let empty = rw e at h in cc

-- A field counts as missing exactly where it has no character but white space.
pub is_missing_iff : (o : Option Str) → (is_missing o ≡ false) ↔ HasText o
unfolding is_missing
is_missing_iff none = (λ h. cc, λ (s, c, e, m, plain). cc)
is_missing_iff (some s) = elim (trim_start-cases s) [
  | inr (c, t, e, plain, m) ↦ (λ h. (s, c, refl, m, plain), λ h. trimmed_plain s t c e plain)
  | inl (e, blank) ↦ (
    λ h. absurd (blank_missing s e h),
    λ (r, c, q, m, plain).
        let same : r ≡ s = some_inj (sym q) in
        let space = blank c (subst (λ z. Memᴰ c z) same m) in absurd cc,
  )
]
