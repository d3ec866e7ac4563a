-- ===== src/Config/Slashes.antt =====
-- `stripTrailingSlashes` takes off the slashes at the end, all of them and nothing else.
use key_cloak_sdk.Common.{
  get_elem?-take, ℕ, zero, suc, ◌≤◌, ◌≡◌, ◌≢◌, refl, sym, true, some, [], ◌∷◌, ◌++◌, Str, length,
  take, get_elem?, replicate, arith, ap, Bool-cases, ◌∙◌, append_assoc, append-nil, take_all,
  length-take, inl, inr,
}
use key_cloak_sdk.Config.{strip_end, strip_trailing_slashes, is_slash_at}

strip_end-le : (s : Str) (n : ℕ) → strip_end s n ≤ n
unfolding strip_end
strip_end-le s zero = omega arith
strip_end-le s (suc n) = ground (arith, strip_end-le s n)

get_elem?-strip_end : (s : Str) (n k : ℕ) → strip_end s n ≡ suc k → get_elem? s k ≢ some 47
unfolding strip_end
get_elem?-strip_end s zero k e = absurd (omega arith)
get_elem?-strip_end s (suc n) k e = ground (arith, get_elem?-strip_end s n k)

take_snoc : (s : Str) (n : ℕ) {c : ℕ} → get_elem? s n ≡ some c → take (suc n) s ≡ take n s ++ c ∷ []
take_snoc [] n e = cc
take_snoc (x ∷ s) zero e = ground arith
take_snoc (x ∷ s) (suc n) e = ap (λ t. x ∷ t) (take_snoc s n e)

replicate_snoc : (k c : ℕ) → replicate k c ++ c ∷ [] ≡ replicate (suc k) c
replicate_snoc zero c = refl
replicate_snoc (suc k) c = ap (λ t. c ∷ t) (replicate_snoc k c)

is_slash_at_sound : {o : _} → is_slash_at o ≡ true → o ≡ some 47
is_slash_at_sound {o} h = ground arith

-- Up to each position the text is what the loop keeps, and slashes.
take-strip_end : (s : Str) (n : ℕ) → (k : ℕ) × (take n s ≡ take (strip_end s n) s ++ replicate k 47)
unfolding strip_end
take-strip_end s zero = (0, sym (append-nil _))
take-strip_end s (suc n) = elim (Bool-cases (is_slash_at (get_elem? s n))) [
  | inr other ↦ (0, rw other (sym (append-nil _)))
  | inl slash ↦
      let (k, e) = take-strip_end s n in
      (
        suc k,
        rw slash
            (take_snoc s n (is_slash_at_sound slash) ∙ rw e (rw append_assoc (rw replicate_snoc))),
      )
]

-- The text is what is kept followed by slashes alone, and what is kept ends in no slash.
pub strip_trailing_slashes_lem :
    (s : Str)
    → (k : ℕ) × (s ≡ strip_trailing_slashes s ++ replicate k 47)
      × ((j : ℕ)
          → length (strip_trailing_slashes s) ≡ suc j
          → get_elem? (strip_trailing_slashes s) j ≢ some 47)
unfolding strip_trailing_slashes
strip_trailing_slashes_lem s =
    let (k, e) = take-strip_end s (length s) in
    (
      k,
      sym (take_all (length s) s (omega arith)) ∙ e,
      λ j h q.
          let same : strip_end s (length s) ≡ suc j =
            omega (arith, h, length-take (strip_end s (length s)) s, strip_end-le s (length s)) in
          get_elem?-strip_end s (length s) j same
            (sym (get_elem?-take s (strip_end s (length s)) j (omega (arith, same))) ∙ q),
    )
