-- ===== src/SingleFlight/Once.antt =====
-- The single flight whose value never goes stale: auth.ts (`#discover`) and client.ts (`admin`).
use mathlib.Core.List.{Memᴰ}
use key_cloak_sdk.Common.{
  ℕ, ◌≤◌, ◌≡◌, refl, Bool, true, some, [], arith, inl, inr, length, Option-cases,
}
use key_cloak_sdk.Outcome.{Outcome}
use key_cloak_sdk.SingleFlight.{Flight, served, idle, join_or_start, call, settle, clear, remove}
use key_cloak_sdk.SingleFlight.Steps.{
  Step, calls, settles, clears, Reach, here, next, IsSingle, at_rest, waiting, resuming, mem_one,
  mem_none, Reach-IsSingle, idle-IsSingle, single_lem,
}

-- The value is used whatever its age.
abbrev pub always : {C : Type 0} → ℕ → C → Bool
always now c = true

module _ {C : Type 0} (inside : Bool) (Made : ℕ → Outcome C → Type 0) where
  -- Where there is a value, no request is on its way.
  abbrev IsDone : Flight C → Type 0
  IsDone s = (c : C) → s.cached ≡ some c → s.pending ≡ []

  call-IsDone : (now : ℕ) (s : Flight C) → IsDone s → IsDone (call always now s).0
  unfolding call join_or_start
  call-IsDone now s done c e = elim (Option-cases s.cached) [
    | inl empty ↦ ground arith
    | inr (d, held) ↦ ground (arith, done d held)
  ]

  settle-IsDone :
      (id : ℕ) (o : Outcome C) (s : Flight C)
      → Memᴰ id s.pending
      → IsSingle s
      → IsDone s
      → IsDone (settle inside id o s)
  unfolding settle remove
  settle-IsDone id o s m (at_rest i p d) done c e = absurd (mem_none m p)
  settle-IsDone id o s m (waiting j i p d) done c e =
      let same = mem_one m p in rw (p, same) (ground arith)
  settle-IsDone id o s m (resuming j q i p d) done c e = absurd (mem_none m p)

  clear-IsDone :
      (id : ℕ) (o : Outcome C) (s : Flight C)
      → Memᴰ (id, o) s.settled
      → IsSingle s
      → IsDone (clear inside id o s)
  unfolding clear
  clear-IsDone id o s m (at_rest i p d) c e = absurd (mem_none m d)
  clear-IsDone id o s m (waiting j i p d) c e = absurd (mem_none m d)
  clear-IsDone id o s m (resuming j q i p d) c e = p

  Step-IsDone : {s t : Flight C} → Step always inside Made s t → IsSingle s → IsDone s → IsDone t
  Step-IsDone (calls now s) single done = call-IsDone now s done
  Step-IsDone (settles id now o s made m) single done = settle-IsDone id o s m single done
  Step-IsDone (clears id o s m) single done = clear-IsDone id o s m single

  Reach-IsDone : {s : Flight C} → Reach always inside Made idle s → IsDone s
  unfolding idle
  Reach-IsDone here = λ c e. refl
  Reach-IsDone (next r st) =
      Step-IsDone st (Reach-IsSingle always inside Made idle-IsSingle r) (Reach-IsDone r)

  -- In every interleaving at most one request is on its way, and where there is a value none is:
  -- every later call is served that value and leaves the state as it is.
  pub once_lem :
      (s : Flight C)
      → Reach always inside Made idle s
      → (length s.pending ≤ 1)
        × ((c : C) (now : ℕ)
            → s.cached ≡ some c
            → (s.pending ≡ []) × (call always now s ≡ (s, served c)))
  unfolding call
  once_lem s r = (
    single_lem (Reach-IsSingle always inside Made idle-IsSingle r),
    λ c now e. (Reach-IsDone r c e, ground (arith, e)),
  )
