-- ===== src/Bearer/Grammar.antt =====
-- The grammar of a bearer token, RFC 6750, and the test that decides it.
use key_cloak_sdk.Common.{
  ℕ, zero, suc, ◌≡◌, ◌≢◌, ◌↔◌, refl, true, false, [], ◌∷◌, ◌++◌, Str, arith, replicate, all, ap,
  Bool-cases, ◌==◌, inl, inr, and-eq-true,
}
use key_cloak_sdk.Bearer.{is_b64, b64_padding, b64_rest, b64_token}

-- One character of the class or more, then padding.
pub record IsB64Token (s : Str) : Type 0 where
  pub body : Str
  pub padding : ℕ
  pub parts : s ≡ body ++ replicate padding 61
  pub filled : body ≢ []
  pub plain : all is_b64 body ≡ true

padding_sound : (s : Str) → b64_padding s ≡ true → (k : ℕ) × (s ≡ replicate k 61)
unfolding b64_padding
padding_sound [] h = (0, refl)
padding_sound (c ∷ s) h =
    let (here, later) = and-eq-true (c == 61) (b64_padding s) h in
    let (k, e) = padding_sound s later in (suc k, ground (arith, e))

padding_complete : (k : ℕ) → b64_padding (replicate k 61) ≡ true
unfolding b64_padding
padding_complete zero = refl
padding_complete (suc k) = padding_complete k

rest_sound :
    (s : Str)
    → b64_rest s ≡ true
    → (body : Str) × (k : ℕ) × (s ≡ body ++ replicate k 61) × (all is_b64 body ≡ true)
unfolding b64_rest
rest_sound [] h = ([], 0, refl, refl)
rest_sound (c ∷ s) h = elim (Bool-cases (is_b64 c)) [
  | inl plain ↦
      let (body, k, e, p) = rest_sound s (ground (arith, plain)) in
      (c ∷ body, k, ap (λ t. c ∷ t) e, ground (arith, plain, p))
  | inr other ↦ let (k, e) = padding_sound (c ∷ s) (ground (arith, other)) in ([], k, e, refl)
]

rest_complete :
    (body : Str) (k : ℕ) → all is_b64 body ≡ true → b64_rest (body ++ replicate k 61) ≡ true
unfolding b64_rest
rest_complete [] zero h = refl
rest_complete [] (suc k) h = ground (arith, padding_complete (suc k), equals_not_plain)
  where
    equals_not_plain : is_b64 61 ≡ false
    equals_not_plain = unfold is_b64 in refl
rest_complete (c ∷ body) k h = ground (arith, rest_complete body k)

token_complete :
    (s body : Str) (k : ℕ)
    → s ≡ body ++ replicate k 61
    → body ≢ []
    → all is_b64 body ≡ true
    → b64_token s ≡ true
unfolding b64_token
token_complete s [] k e f p = absurd (f refl)
token_complete s (c ∷ body) k e f p = rw e (ground (arith, rest_complete body k))

token_sound : (s : Str) → b64_token s ≡ true → IsB64Token s
unfolding b64_token
token_sound [] h = absurd (cc)
token_sound (c ∷ s) h =
    let (here, later) = and-eq-true (is_b64 c) (b64_rest s) h in
    let (body, k, e, p) = rest_sound s later in
    record {
      body = c ∷ body;
      padding = k;
      parts = ap (λ t. c ∷ t) e;
      filled = λ q. cc;
      plain = ground (arith, here, p);
    }

-- The test accepts exactly the tokens of the grammar.
pub b64_token_iff : (s : Str) → (b64_token s ≡ true) ↔ IsB64Token s
b64_token_iff s = (token_sound s, λ t. token_complete s t.body t.padding t.parts t.filled t.plain)
