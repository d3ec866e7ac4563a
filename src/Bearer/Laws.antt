-- ===== src/Bearer/Laws.antt =====
-- What `sendableBearer` returns, and when it refuses.
use key_cloak_sdk.Common.{
  ℕ, zero, suc, ◌≡◌, ◌≢◌, ◌↔◌, refl, sym, ◌∙◌, true, false, not, [], ◌∷◌, ◌++◌, Str, arith, all,
  replicate, append-nil, all-append,
}
use key_cloak_sdk.Errors.{Thrown}
use key_cloak_sdk.Outcome.{ok, raise}
use key_cloak_sdk.Bearer.{is_edge, is_b64, b64_token, trimmed, sendable_bearer, unsendable}
use key_cloak_sdk.Bearer.Grammar.{IsB64Token, b64_token_iff}
use key_cloak_sdk.Bearer.Trimming.{IsEdges, StartsPlain, EndsPlain, divide}

-- The token `t` stands in the text `s`, with nothing but SP, HTAB, CR and LF around it.
pub record Carries (s t : Str) : Type 0 where
  pub before : Str
  pub after : Str
  pub parts : s ≡ before ++ (t ++ after)
  pub before_edges : IsEdges before
  pub after_edges : IsEdges after
  pub token : IsB64Token t

front_unique :
    (p q r u : Str)
    → IsEdges p
    → IsEdges q
    → StartsPlain r
    → StartsPlain u
    → p ++ r ≡ q ++ u
    → r ≡ u
front_unique [] [] r u hp hq hr hu e = e
front_unique [] (c ∷ q) [] u hp hq hr hu e = cc
front_unique [] (c ∷ q) (d ∷ r) u hp hq hr hu e = ground arith
front_unique (c ∷ p) [] r [] hp hq hr hu e = cc
front_unique (c ∷ p) [] r (d ∷ u) hp hq hr hu e = ground arith
front_unique (c ∷ p) (d ∷ q) r u hp hq hr hu e = ground (arith, front_unique p q r u)

EndsPlain-edges : (t : Str) → IsEdges t → EndsPlain t → t ≡ []
EndsPlain-edges [] h k = refl
EndsPlain-edges (c ∷ []) h k = ground arith
EndsPlain-edges (c ∷ d ∷ t) h k = ground (arith, EndsPlain-edges (d ∷ t))

EndsPlain-tail : (c : ℕ) (t : Str) → EndsPlain (c ∷ t) → EndsPlain t
EndsPlain-tail c [] h = tt
EndsPlain-tail c (d ∷ t) h = h

abbrev NoEdges : Str → Type 0
NoEdges t = all (λ c. not (is_edge c)) t ≡ true

IsEdges-of_append : (p q : Str) → IsEdges (p ++ q) → IsEdges p
IsEdges-of_append [] q h = refl
IsEdges-of_append (c ∷ p) q h = ground (arith, IsEdges-of_append p q)

back_unique :
    (t u p q : Str) → NoEdges t → EndsPlain u → IsEdges p → IsEdges q → t ++ p ≡ u ++ q → t ≡ u
back_unique [] u p q ht hu hp hq e = sym (EndsPlain-edges u (IsEdges-of_append u q (rw e at hp)) hu)
back_unique (c ∷ t) [] p [] ht hu hp hq e = cc
back_unique (c ∷ t) [] p (d ∷ q) ht hu hp hq e = ground arith
back_unique (c ∷ t) (d ∷ u) p q ht hu hp hq e =
    ground (arith, back_unique t u p q, EndsPlain-tail d u hu)

b64_plain : (c : ℕ) → is_b64 c ≡ true → is_edge c ≡ false
unfolding is_b64 is_edge
b64_plain c h = ground arith

b64s_plain : (s : Str) → all is_b64 s ≡ true → NoEdges s
b64s_plain [] h = refl
b64s_plain (c ∷ s) h = ground (arith, b64_plain c, b64s_plain s)

padding_plain : (k : ℕ) → NoEdges (replicate k 61)
unfolding is_edge
padding_plain zero = refl
padding_plain (suc k) = padding_plain k

token_plain : (t : Str) → IsB64Token t → NoEdges t
token_plain t h = rw (h.parts) (
    all-append (λ c. not (is_edge c)) h.body (replicate h.padding 61) (b64s_plain h.body h.plain)
      (padding_plain h.padding))

starts_plain : (t p : Str) → t ≢ [] → NoEdges t → StartsPlain (t ++ p)
starts_plain [] p f h = absurd (f refl)
starts_plain (c ∷ t) p f h = ground arith

append-ne-nil : (s t : Str) → s ≢ [] → s ++ t ≢ []
append-ne-nil [] t f e = f refl
append-ne-nil (c ∷ s) t f e = cc

token-ne-nil : (t : Str) → IsB64Token t → t ≢ []
token-ne-nil t h e = append-ne-nil h.body (replicate h.padding 61) h.filled (sym h.parts ∙ e)

trimmed_of_Carries : (s t : Str) → Carries s t → trimmed s ≡ t
trimmed_of_Carries s t h =
    let d = divide s in
    let rest : t ++ h.after ≡ trimmed s ++ d.after =
      front_unique h.before d.before (t ++ h.after) (trimmed s ++ d.after) h.before_edges
        d.before_edges (starts_plain t h.after (token-ne-nil t h.token) (token_plain t h.token))
        d.starts (sym h.parts ∙ d.parts) in
    sym (
      back_unique t (trimmed s) h.after d.after (token_plain t h.token) d.ends h.after_edges
        d.after_edges rest)

sendable_sound : (s t : Str) → sendable_bearer s ≡ ok t → Carries s t
unfolding sendable_bearer
sendable_sound s t h =
    let d = divide s in
    let same : trimmed s ≡ t = ground arith in
    let good : b64_token (trimmed s) ≡ true = ground arith in
    record {
      before = d.before;
      after = d.after;
      parts = rw (← same) d.parts;
      before_edges = d.before_edges;
      after_edges = d.after_edges;
      token = rw (← same) ((b64_token_iff (trimmed s)).0 good);
    }

sendable_complete : (s t : Str) → Carries s t → sendable_bearer s ≡ ok t
unfolding sendable_bearer
sendable_complete s t h = ground (arith, trimmed_of_Carries s t h, (b64_token_iff t).1 h.token)

-- `sendableBearer` returns `t` exactly when the token given is `t` with nothing but SP, HTAB, CR
-- and LF around it and `t` is a `b64token` of RFC 6750.
pub sendable_bearer_iff : (s t : Str) → (sendable_bearer s ≡ ok t) ↔ Carries s t
sendable_bearer_iff s t = (sendable_sound s t, sendable_complete s t)

-- A value that was returned once is returned again, unchanged.
pub sendable_bearer_again : (s t : Str) → sendable_bearer s ≡ ok t → sendable_bearer t ≡ ok t
sendable_bearer_again s t h = sendable_complete t t (record {
  before = [];
  after = [];
  parts = sym (append-nil t);
  before_edges = refl;
  after_edges = refl;
  token = (sendable_sound s t h).token;
})

-- Whatever is refused, the error is the same one: it quotes nothing of the token.
pub sendable_bearer_refusal : (s : Str) (e : Thrown) → sendable_bearer s ≡ raise e → e ≡ unsendable
unfolding sendable_bearer
sendable_bearer_refusal s e h = ground arith
