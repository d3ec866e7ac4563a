-- ===== src/JobCondition/Loops.antt =====
-- How an operand and a loop over operators read tokens.
use key_cloak_sdk.Common.{
  ℕ, zero, suc, ◌+◌, ◌≤◌, ◌<◌, ◌≡◌, refl, ◌∙◌, Bool, true, Option, none, some, List, ◌∷◌, ◌++◌,
  length, length-append, append_assoc, arith,
}
use key_cloak_sdk.JobCondition.{Scalar, Token, ◌>>=◌, Parsed}
use key_cloak_sdk.JobCondition.Ends.{with_rest}

module _ (g : ℕ) where
  -- The parser reads the tokens as the value, whatever follows that may.
  unfoldable pub Reads :
      (List Token → Parsed) → (List Token → Bool) → List Token → Option Scalar → Type 0
  Reads p follows ts o =
      (rest : List Token) → follows rest ≡ true → p (ts ++ rest) ≡ with_rest o rest

  -- The first operand and the loop read the tokens up to the value and the loop with what is left of
  -- its rounds.
  unfoldable pub Goes :
      (List Token → Parsed)
      → (ℕ → Scalar × List Token → Parsed)
      → (List Token → Bool)
      → List Token
      → Option Scalar
      → Type 0
  Goes p loop follows ts o =
      (rest : List Token) (n : ℕ)
      → follows rest ≡ true
      → length ts ≤ n
      → (m : ℕ) × (n < m + length ts)
        × (p (ts ++ rest) >>= loop n ≡ (o >>= (λ v. loop m (v, rest))))

  pub bind_some :
      (o : Option Scalar) (rest : List Token) (k : Scalar × List Token → Parsed)
      → with_rest o rest >>= k ≡ (o >>= (λ v. k (v, rest)))
  bind_some none rest k = refl
  bind_some (some v) rest k = refl

  -- One operand.
  pub Goes-one :
      (p : List Token → Parsed) (loop : ℕ → Scalar × List Token → Parsed)
      (follows : List Token → Bool) (ts : List Token) (o : Option Scalar)
      → 1 ≤ length ts
      → Reads p follows ts o
      → Goes p loop follows ts o
  unfolding Reads Goes
  Goes-one p loop follows ts o filled reads rest n h le =
      (n, omega arith, rw (reads rest h) (bind_some o rest (loop n)))

  two_values :
      (p : List Token → Parsed) (loop : ℕ → Scalar × List Token → Parsed) (t : Token)
      (f : Scalar → Scalar → Scalar) (k : ℕ) (xs rest : List Token) (o q : Option Scalar)
      → ((v : Scalar) → loop (suc k) (v, t ∷ xs) ≡ (p xs >>= (λ r. loop k (f v r.0, r.1))))
      → p xs ≡ with_rest q rest
      → (o >>= (λ v. loop (suc k) (v, t ∷ xs)))
        ≡ ((o >>= (λ v. q >>= (λ w. some (f v w)))) >>= (λ v. loop k (v, rest)))
  two_values p loop t f k xs rest none q step read = refl
  two_values p loop t f k xs rest (some v) none step read = step v ∙ rw read refl
  two_values p loop t f k xs rest (some v) (some w) step read = step v ∙ rw read refl

  -- One more operand behind an operator.
  pub Goes-more :
      (p : List Token → Parsed) (loop : ℕ → Scalar × List Token → Parsed)
      (before after : List Token → Bool) (t : Token) (f : Scalar → Scalar → Scalar)
      (ts us : List Token) (o q : Option Scalar)
      → ((n : ℕ) (v : Scalar) (xs : List Token)
          → loop (suc n) (v, t ∷ xs) ≡ (p xs >>= (λ r. loop n (f v r.0, r.1))))
      → ((xs : List Token) → before (t ∷ xs) ≡ true)
      → Goes p loop before ts o
      → Reads p after us q
      → Goes p loop after (ts ++ (t ∷ us)) (o >>= (λ v. q >>= (λ w. some (f v w))))
  unfolding Reads Goes
  Goes-more p loop before after t f ts us o q step first goes reads rest n h le =
      let len = length-append ts (t ∷ us) in
      let (m, rounds, eq) = goes (t ∷ (us ++ rest)) n (first (us ++ rest)) (omega arith) in
      elim m
          as (λ m.
            n < m + length ts
            → (p (ts ++ (t ∷ (us ++ rest))) >>= loop n)
              ≡ (o >>= (λ v. loop m (v, t ∷ (us ++ rest))))
            → (k : ℕ) × (n < k + length (ts ++ (t ∷ us)))
              × ((p ((ts ++ (t ∷ us)) ++ rest) >>= loop n)
                  ≡ ((o >>= (λ v. q >>= (λ w. some (f v w)))) >>= (λ v. loop k (v, rest))))) [
                    | zero ↦ λ rounds eq. absurd (omega arith)
                    | suc k ↦ λ rounds eq. (
                      k,
                      omega arith,
                      rw (append_assoc ts (t ∷ us) rest) (
                          eq
                          ∙ two_values p loop t f k (us ++ rest) rest o q
                              (λ v. step k v (us ++ rest)) (reads rest h)),
                    )
                  ]
        rounds eq

  -- The loop ends.
  pub reads_all :
      (p : List Token → Parsed) (loop : ℕ → Scalar × List Token → Parsed)
      (before after : List Token → Bool) (ts : List Token) (o : Option Scalar)
      → ((n : ℕ) (v : Scalar) (rest : List Token)
          → after rest ≡ true
          → loop (suc n) (v, rest) ≡ some (v, rest))
      → ((rest : List Token) → after rest ≡ true → before rest ≡ true)
      → length ts ≤ g
      → Goes p loop before ts o
      → Reads (λ xs. p xs >>= loop g) after ts o
  unfolding Reads Goes
  reads_all p loop before after ts o ends weaker le goes rest h =
      let (m, rounds, eq) = goes rest g (weaker rest h) le in
      elim m
          as (λ m.
            g < m + length ts
            → (p (ts ++ rest) >>= loop g) ≡ (o >>= (λ v. loop m (v, rest)))
            → (p (ts ++ rest) >>= loop g) ≡ with_rest o rest) [
              | zero ↦ λ rounds eq. absurd (omega arith)
              | suc k ↦ λ rounds eq. eq ∙ ended (λ v. ends k v rest h) o
            ]
        rounds eq
    where
      ended :
          {k : Scalar → Parsed}
          → ((v : Scalar) → k v ≡ some (v, rest))
          → (o : Option Scalar) → (o >>= k) ≡ with_rest o rest
      ended h none = refl
      ended h (some v) = h v
