-- ===== src/Auth/Discovery.antt =====
-- node/src/auth.ts, `#discover`: the configuration is assembled once.
use key_cloak_sdk.Common.{ℕ, ◌≤◌, ◌≡◌, true, some, [], length}
use key_cloak_sdk.Outcome.{Outcome}
use key_cloak_sdk.SingleFlight.{Flight, Answer, served, idle, call, settle, clear}
use key_cloak_sdk.SingleFlight.Steps.{Reach}
use key_cloak_sdk.SingleFlight.Once.{always, once_lem}

module _ {C : Type 0} where
  -- `#discover()` up to its `await`; the time plays no part.
  unfoldable pub discover : Flight C → Flight C × Answer C
  discover s = call always 0 s

  -- `#runDiscovery()` settles with `o`; it has stored the configuration itself.
  unfoldable pub discovery_settles : ℕ → Outcome C → Flight C → Flight C
  discovery_settles id o s = settle true id o s

  -- The `finally` of `#discover`.
  unfoldable pub discover_resumes : ℕ → Outcome C → Flight C → Flight C
  discover_resumes id o s = clear true id o s

  -- However callers, answers and resumptions interleave, at most one discovery is on its way; once
  -- there is a configuration none is, and every call is served that configuration.
  pub discover_once :
      (Made : ℕ → Outcome C → Type 0) (s : Flight C)
      → Reach always true Made idle s
      → (length s.pending ≤ 1)
        × ((c : C) → s.cached ≡ some c → (s.pending ≡ []) × (discover s ≡ (s, served c)))
  unfolding discover
  discover_once Made s r =
      let (few, all_served) = once_lem true Made s r in (few, λ c e. all_served c 0 e)
