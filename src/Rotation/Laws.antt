-- ===== src/Rotation/Laws.antt =====
-- The rotation ends, loses nothing and splits no date.
use key_cloak_sdk.Common.{
  ℕ, zero, suc, ◌≤◌, ◌≡◌, ◌⊎◌, inl, inr, refl, ap, ◌∙◌, Bool, true, false, not, Option, none, some,
  List, [], ◌∷◌, ◌++◌, Str, arith, length, append_assoc, Bool-cases, and-eq-true, str_eq,
  str_eq_iff, str_eq_refl,
}
use key_cloak_sdk.Ledger.Releases.{Release}
use key_cloak_sdk.Rotation.{
  all_dated, has_dates, pop_group, Rotated, is_too_big, move_oldest, rotate_loop, rotate,
}

pop_group_lem : (d : Str) (rs : List Release) → (pop_group d rs).0 ++ (pop_group d rs).1 ≡ rs
unfolding pop_group
pop_group_lem d [] = refl
pop_group_lem d (r ∷ rs) = ground (arith, pop_group_lem d rs)

length-pop_group : (d : Str) (rs : List Release) → length (pop_group d rs).1 ≤ length rs
unfolding pop_group
length-pop_group d [] = omega arith
length-pop_group d (r ∷ rs) = ground (arith, length-pop_group d rs)

pop_group_dated : (d : Str) (rs : List Release) → all_dated d (pop_group d rs).0 ≡ true
unfolding pop_group all_dated
pop_group_dated d [] = refl
pop_group_dated d (r ∷ rs) = ground (arith, pop_group_dated d rs)

-- The date of the newest release of a list.
abbrev pub last_date : List Release → Option Str
last_date [] = none
last_date (r ∷ rs) = elim (last_date rs) [ none ↦ some r.date | some d ↦ some d ]

-- The oldest release of the list has another date.
pub begins_later : Option Str → List Release → Bool
begins_later none rs = true
begins_later (some d) [] = true
begins_later (some d) (r ∷ rs) = not (str_eq r.date d)

pop_group_later : (d : Str) (rs : List Release) → begins_later (some d) (pop_group d rs).1 ≡ true
unfolding pop_group begins_later
pop_group_later d [] = refl
pop_group_later d (r ∷ rs) = ground (arith, pop_group_later d rs)

-- A date that ends a list.
last_date-append :
    (xs ys : List Release) (d : Str) → last_date ys ≡ some d → last_date (xs ++ ys) ≡ some d
last_date-append [] ys d h = h
last_date-append (x ∷ xs) ys d h = rw (last_date-append xs ys d h) refl

dated_last :
    (d : Str) (r : Release) (rs : List Release)
    → str_eq r.date d ≡ true
    → all_dated d rs ≡ true
    → last_date (r ∷ rs) ≡ some d
unfolding all_dated
dated_last d r [] h k = ap some ((str_eq_iff r.date d).0 h)
dated_last d r (s ∷ rs) h k =
    let (here, later) = and-eq-true (str_eq s.date d) (all_dated d rs) k in
    rw (dated_last d s rs here later) refl

shrinks :
    (r : Release) (rs moved : List Release) → length (move_oldest (r ∷ rs) moved).keep ≤ length rs
unfolding move_oldest pop_group
shrinks r rs moved = rw (str_eq_refl r.date) (length-pop_group r.date rs)

moves :
    (keep moved : List Release)
    → (move_oldest keep moved).moved ++ (move_oldest keep moved).keep ≡ moved ++ keep
unfolding move_oldest
moves [] moved = refl
moves (r ∷ rs) moved =
    append_assoc moved (pop_group r.date (r ∷ rs)).0 (pop_group r.date (r ∷ rs)).1
    ∙ ap (λ t. moved ++ t) (pop_group_lem r.date (r ∷ rs))

cuts :
    (r : Release) (rs moved : List Release)
    → begins_later (last_date (move_oldest (r ∷ rs) moved).moved) (move_oldest (r ∷ rs) moved).keep
      ≡ true
unfolding move_oldest pop_group
cuts r rs moved =
    let group = (pop_group r.date rs).0 in
    let last =
      last_date-append moved (r ∷ group) r.date
        (dated_last r.date r group (str_eq_refl r.date) (pop_group_dated r.date rs)) in
    rw (str_eq_refl r.date, last) (pop_group_later r.date rs)

-- What the loop keeps up.
IsFine : Rotated → List Release → Type 0
IsFine s releases =
    (s.moved ++ s.keep ≡ releases) × (begins_later (last_date s.moved) s.keep ≡ true)

no_dates : (keep : List Release) → length keep ≤ 0 → has_dates keep ≡ false
unfolding has_dates
no_dates [] h = refl
no_dates (r ∷ rs) h = absurd (omega arith)

moves-IsFine :
    (keep moved releases : List Release) (f : ℕ)
    → has_dates keep ≡ true
    → length keep ≤ suc f
    → IsFine (record { keep = keep; moved = moved }) releases
    → IsFine (move_oldest keep moved) releases × (length (move_oldest keep moved).keep ≤ f)
unfolding IsFine has_dates
moves-IsFine [] moved releases f h n fine = cc
moves-IsFine (r ∷ rs) moved releases f h n fine =
    ((moves (r ∷ rs) moved ∙ fine.0, cuts r rs moved), omega (arith, shrinks r rs moved))

module _ (head unreleased : Str) (volumes : List Str) where
  loop_lem :
      (f : ℕ) (s : Rotated) (releases : List Release)
      → length s.keep ≤ f
      → IsFine s releases
      → IsFine (rotate_loop head unreleased volumes f s) releases
        × ((is_too_big head unreleased volumes (rotate_loop head unreleased volumes f s) ≡ false)
            ⊎ (has_dates (rotate_loop head unreleased volumes f s).keep ≡ false))
  unfolding rotate_loop
  loop_lem zero s releases h fine = (fine, inr (no_dates s.keep h))
  loop_lem (suc f) s releases h fine = elim (Bool-cases (is_too_big head unreleased volumes s)) [
    | inr small ↦ rw small (fine, inl small)
    | inl big ↦ elim (Bool-cases (has_dates s.keep)) [
      | inr single ↦ rw (big, single) (fine, inr single)
      | inl more ↦
          let (moved, shorter) = moves-IsFine s.keep s.moved releases f more h fine in
          rw (big, more) (loop_lem f (move_oldest s.keep s.moved) releases shorter moved)
    ]
  ]

  -- The rotation ends: after at most as many rounds as there are releases, the
  -- root is within the limit or has the releases of one date only. The moved releases and then the
  -- kept ones are the releases, none lost and in the same order, and the newest moved release and the
  -- oldest kept one have different dates.
  pub rotate_lem :
      (releases : List Release)
      → ((rotate head unreleased volumes releases).moved
            ++ (rotate head unreleased volumes releases).keep
          ≡ releases)
        × (begins_later
              (last_date (rotate head unreleased volumes releases).moved)
              (rotate head unreleased volumes releases).keep
            ≡ true)
        × ((is_too_big head unreleased volumes (rotate head unreleased volumes releases) ≡ false)
            ⊎ (has_dates (rotate head unreleased volumes releases).keep ≡ false))
  unfolding rotate IsFine begins_later
  rotate_lem releases =
      let (fine, ended) =
        loop_lem (length releases) (record { keep = releases; moved = [] }) releases (omega arith)
          (refl, refl) in
      (fine.0, fine.1, ended)
