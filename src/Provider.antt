-- ===== src/Provider.antt =====
-- node/src/token-provider.ts, `ClientCredentialsTokenProvider`: the cache of the admin token, over
-- the single-flight steps. Times are milliseconds, a whole number; the skew is any number.
pub mod Laws
use key_cloak_sdk.Common.{ℕ, ◌≡◌, Bool, true, Str}
use key_cloak_sdk.Values.{Num, whole, num_lt, num_add, num_sub, num_scale, max_zero}
use key_cloak_sdk.Outcome.{Outcome, ok, raise, ◌>>=◌}
use key_cloak_sdk.Bearer.{sendable_bearer}
use key_cloak_sdk.Tokens.{TokenSet}
use key_cloak_sdk.SingleFlight.{Flight, Answer, call, settle, clear}

-- `#cached`
pub record Cached : Type 0 where
  pub token : Str
  pub expires_at : Num

-- `Date.now() < cached.expiresAt`
unfoldable pub is_fresh : ℕ → Cached → Bool
is_fresh now c = num_lt (whole now) c.expires_at

-- `Date.now() + Math.max(0, ts.expiresIn - this.skewSeconds) * 1000`
unfoldable pub expiry : Num → ℕ → TokenSet → Num
expiry skew_seconds now ts =
    num_add (whole now) (num_scale (max_zero (num_sub ts.expires_in skew_seconds)) 1000)

-- `#fetch()` behind its `await`: `answer` is what `source.clientCredentialsToken()` settled with,
-- at the time `now`. What throws before the assignment leaves the cache as it was.
unfoldable pub fetched : Num → ℕ → Outcome TokenSet → Outcome Cached
unfolding expiry
fetched skew_seconds now answer = do
  ts ← answer
  token ← sendable_bearer ts.access_token
  ok (record { token = token; expires_at = expiry skew_seconds now ts })

-- `getAccessToken()` up to its `await`.
unfoldable pub get_access_token : ℕ → Flight Cached → Flight Cached × Answer Cached
get_access_token now s = call is_fresh now s

-- The request numbered `id` gets its answer.
unfoldable pub fetch_settles : Num → ℕ → ℕ → Outcome TokenSet → Flight Cached → Flight Cached
fetch_settles skew_seconds id now answer s = settle true id (fetched skew_seconds now answer) s

-- The `finally` of `getAccessToken`.
unfoldable pub call_resumes : ℕ → Outcome Cached → Flight Cached → Flight Cached
call_resumes id o s = clear true id o s

-- What `#fetch` can settle with at the time `now`.
abbrev pub Fetched : Num → ℕ → Outcome Cached → Type 0
Fetched skew_seconds now o = (answer : Outcome TokenSet) × (o ≡ fetched skew_seconds now answer)
