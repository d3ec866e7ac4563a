-- ===== src/Tests/Provider.antt =====
-- A token provider that is asked once and answered.
use key_cloak_sdk.Bearer.{
  sendable_bearer, trimmed, edge_start, edge_end, is_edge_at, is_edge, b64_token, b64_rest,
  b64_padding, is_b64,
}
use key_cloak_sdk.Common.{
  lit, ℕ, ◌+◌, ◌-◌, ◌*◌, ◌<◌, ◌≤◌, ◌≡◌, refl, true, false, some, none, length,
}
use key_cloak_sdk.Errors.{no_cause, Thrown}
use key_cloak_sdk.Outcome.{Outcome, ok, raise}
use key_cloak_sdk.Provider.{
  Cached, is_fresh, expiry, fetched, get_access_token, fetch_settles, call_resumes,
}
use key_cloak_sdk.Provider.Laws.{
  Reachable, FetchedFrom, provider_single, provider_served, provider_round,
}
use key_cloak_sdk.SingleFlight.{Flight, started, idle, call, keep, settle, join_or_start, remove}
use key_cloak_sdk.SingleFlight.Steps.{Reach, calls, settles, here, next}
use key_cloak_sdk.Tokens.{TokenSet}
use key_cloak_sdk.Values.{num_sub, num_scale, num_negate, max_zero, whole, num_lt, num_add}
use mathlib.Core.List.{Memᴰ}

abbrev answered : TokenSet
answered = record {
  access_token = lit "ab";
  token_type = lit "Bearer";
  expires_in = whole 60;
  expires_at = none;
  refresh_token = none;
  id_token = none;
  scope = none;
}

abbrev asked : Flight Cached
asked = (call is_fresh 0 idle).0

abbrev held : Cached
held = record { token = lit "ab"; expires_at = whole 30005 }

abbrev stored : Flight Cached
stored = settle true 0 (fetched (whole 30) 5 (ok answered)) asked

asked-Reachable : Reachable (whole 30) asked
asked-Reachable = next here (calls 0 idle)

-- The one answer of the run.
abbrev OneAnswer : ℕ → Outcome TokenSet → Type 0
OneAnswer at answer = (at ≡ 5) × (answer ≡ ok answered)

stored-Reached : Reach is_fresh true (FetchedFrom (whole 30) OneAnswer) idle stored
unfolding call join_or_start idle
stored-Reached = next (next here (calls 0 idle)) (
    settles 0 5 (fetched (whole 30) 5 (ok answered)) asked (ok answered, (refl, refl), refl)
      (Memᴰ.head refl))

provider_single_example : length asked.pending ≤ 1
provider_single_example = provider_single (whole 30) asked (asked-Reachable)

provider_served_example :
    (at : ℕ) × (ts : TokenSet) × OneAnswer at (ok ts)
    × (sendable_bearer ts.access_token ≡ ok held.token)
    × ((n k : ℕ) → ts.expires_in ≡ whole n → (whole 30) ≡ whole k → 6 < at + (n - k) * 1000)
unfolding get_access_token call join_or_start idle settle keep remove fetched expiry is_fresh num_lt
    num_add num_sub num_scale num_negate max_zero sendable_bearer trimmed edge_start edge_end
    is_edge_at is_edge b64_token b64_rest b64_padding is_b64
provider_served_example = provider_served (whole 30) OneAnswer stored 6 held stored-Reached refl

provider_round_example :
    let o = fetched (whole 30) 5 (raise no_cause) in
    let t = call_resumes 0 o (fetch_settles (whole 30) 0 5 (raise no_cause) asked) in
    ((c : Cached) → o ≡ ok c → t.cached ≡ some c)
    × ((e : Thrown)
        → o ≡ raise e
        → (t.cached ≡ asked.cached)
          × (((c : Cached) → asked.cached ≡ some c → is_fresh 6 c ≡ false)
              → (get_access_token 6 t).1 ≡ started t.begun))
unfolding call join_or_start idle
provider_round_example = provider_round (whole 30) 0 5 6 (raise no_cause) asked refl refl
