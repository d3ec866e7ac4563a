-- ===== src/Provider/Laws.antt =====
-- What a caller of the token provider gets, in every interleaving.
use key_cloak_sdk.Common.{
  ℕ, ◌+◌, ◌-◌, ◌*◌, ◌<◌, ◌≤◌, ◌≡◌, refl, sym, ◌∙◌, true, false, some, none, [], ◌∷◌, length, arith,
  ap, subst, Option-cases, inl, inr, ltb→lt,
}
use key_cloak_sdk.Values.{Num, whole, num_lt, num_add}
use key_cloak_sdk.Values.Whole.{num_add-whole, num_lt-whole, ttl_whole}
use key_cloak_sdk.Errors.{Thrown}
use key_cloak_sdk.Outcome.{Outcome, ok, raise}
use key_cloak_sdk.Bearer.{sendable_bearer}
use key_cloak_sdk.Tokens.{TokenSet}
use key_cloak_sdk.SingleFlight.{Flight, served, started, idle, call, keep}
use key_cloak_sdk.SingleFlight.Steps.{Reach, idle-IsSingle, single_lem, Reach-IsSingle}
use key_cloak_sdk.SingleFlight.Origin.{Reach-cached, round_lem}
use key_cloak_sdk.Provider.{
  Cached, is_fresh, expiry, fetched, Fetched, get_access_token, fetch_settles, call_resumes,
}

-- The states of a provider that was made with the skew given.
abbrev pub Reachable : Num → Flight Cached → Type 0
Reachable skew s = Reach is_fresh true (Fetched skew) idle s

-- In every interleaving of callers, answers and resumptions the provider has at most one token
-- request on its way.
pub provider_single : (skew : Num) (s : Flight Cached) → Reachable skew s → length s.pending ≤ 1
provider_single skew s r = single_lem (Reach-IsSingle is_fresh true (Fetched skew) idle-IsSingle r)

served_cached :
    (s : Flight Cached) (now : ℕ) (c : Cached)
    → (get_access_token now s).1 ≡ served c
    → (s.cached ≡ some c) × (is_fresh now c ≡ true)
unfolding get_access_token call
served_cached s now c h = ground arith

starts :
    (now : ℕ) (t : Flight Cached)
    → t.inflight ≡ none
    → ((c : Cached) → t.cached ≡ some c → is_fresh now c ≡ false)
    → (get_access_token now t).1 ≡ started t.begun
unfolding get_access_token call
starts now t free stale = elim (Option-cases t.cached) [
  | inl empty ↦ ground arith
  | inr (c, e) ↦ ground (arith, stale c e)
]

whole-expiry :
    (now at n k : ℕ) (ts : TokenSet)
    → ts.expires_in ≡ whole n
    → num_lt (whole now) (expiry (whole k) at ts) ≡ true
    → now < at + (n - k) * 1000
unfolding expiry
whole-expiry now at n k ts e h = ltb→lt now (at + (n - k) * 1000) (
    sym (num_lt-whole now (at + (n - k) * 1000))
    ∙ ap (num_lt (whole now)) (sym (num_add-whole at ((n - k) * 1000)))
    ∙ ap (λ t. num_lt (whole now) (num_add (whole at) t)) (sym (ttl_whole n k 1000))
    ∙ rw e at h)

fetched_inverse :
    (skew : Num) (at : ℕ) (answer : Outcome TokenSet) (c : Cached)
    → fetched skew at answer ≡ ok c
    → (ts : TokenSet) × (answer ≡ ok ts)
      × (sendable_bearer ts.access_token ≡ ok c.token)
      × (c.expires_at ≡ expiry skew at ts)
unfolding fetched
fetched_inverse skew at (ok ts) c e = (ts, refl, ground arith, ground arith)
fetched_inverse skew at (raise x) c e = absurd (cc)

fresh_expiry :
    (skew : Num) (at now n k : ℕ) (c : Cached) (ts : TokenSet)
    → c.expires_at ≡ expiry skew at ts
    → is_fresh now c ≡ true
    → ts.expires_in ≡ whole n
    → skew ≡ whole k
    → now < at + (n - k) * 1000
unfolding is_fresh
fresh_expiry skew at now n k c ts e f a b = whole-expiry now at n k ts a (rw (e, b) at f)

-- What the provider's request can settle with where the source's answers, with their times, are
-- among those that `Answered` allows.
abbrev pub FetchedFrom : Num → (ℕ → Outcome TokenSet → Type 0) → ℕ → Outcome Cached → Type 0
FetchedFrom skew Answered at o =
    (answer : Outcome TokenSet) × Answered at answer × (o ≡ fetched skew at answer)

-- A token that is served from the cache came from an answer that the source gave in the run: for
-- every relation `Answered` that holds of all the answers of a run with their times, it holds of a
-- token set `ts` at a time `at` such that the served token is the access token of `ts` as it may be
-- sent and, with whole numbers of seconds, it is served only before the `expires_in` of `ts` less
-- the skew has passed since `at`.
pub provider_served :
    (skew : Num) (Answered : ℕ → Outcome TokenSet → Type 0) (s : Flight Cached) (now : ℕ)
    (c : Cached)
    → Reach is_fresh true (FetchedFrom skew Answered) idle s
    → (get_access_token now s).1 ≡ served c
    → (at : ℕ) × (ts : TokenSet) × Answered at (ok ts)
      × (sendable_bearer ts.access_token ≡ ok c.token)
      × ((n k : ℕ) → ts.expires_in ≡ whole n → skew ≡ whole k → now < at + (n - k) * 1000)
provider_served skew Answered s now c r h =
    let (stored, in_time) = served_cached s now c h in
    let (at, (answer, given, made)) =
      Reach-cached is_fresh true (FetchedFrom skew Answered) c r stored in
    let (ts, same, sent, until) = fetched_inverse skew at answer c (sym made) in
    (
      at,
      ts,
      subst (Answered at) same given,
      sent,
      λ n k a b. fresh_expiry skew at now n k c ts until in_time a b,
    )

-- After a request that fails, and the resumption of the caller that began it, the cache is as it
-- was before, and a call that it does not serve begins a new request; after one that succeeds the
-- cache holds the new token.
pub provider_round :
    (skew : Num) (id at now : ℕ) (answer : Outcome TokenSet) (s : Flight Cached)
    → s.pending ≡ id ∷ []
    → s.settled ≡ []
    → let o = fetched skew at answer in
      let t = call_resumes id o (fetch_settles skew id at answer s) in
      ((c : Cached) → o ≡ ok c → t.cached ≡ some c)
      × ((e : Thrown)
          → o ≡ raise e
          → (t.cached ≡ s.cached)
            × (((c : Cached) → s.cached ≡ some c → is_fresh now c ≡ false)
                → (get_access_token now t).1 ≡ started t.begun))
unfolding call_resumes fetch_settles keep
provider_round skew id at now answer s p d =
    let (stored, free, _, _) = round_lem true id (fetched skew at answer) s p d in
    (
      λ c e. stored ∙ ap (λ o. keep o s.cached) e,
      λ e f. (
        stored ∙ ap (λ o. keep o s.cached) f,
        λ stale.
            starts now
              (call_resumes id (fetched skew at answer) (fetch_settles skew id at answer s)) free
              (λ c g. stale c (sym (stored ∙ ap (λ o. keep o s.cached) f) ∙ g)),
      ),
    )
