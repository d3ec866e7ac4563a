-- ===== src/SingleFlight.antt =====
-- The single-flight pattern that the SDK has three times: node/src/token-provider.ts
-- (`getAccessToken`), auth.ts (`#discover`) and client.ts (`admin`). A caller gets the cached
-- value, or the promise in flight, or begins a request of its own. JavaScript runs one piece of
-- code at a time, so the pieces between the `await`s are the steps: the call up to its `await`,
-- the settling of the request's promise, and the `finally` of the caller that began it.
pub mod Steps
pub mod Origin
pub mod Once
use key_cloak_sdk.Common.{
  ℕ, zero, suc, ◌+◌, Bool, true, false, Option, none, some, List, [], ◌∷◌, if◌then◌else◌, ◌==◌,
}
use key_cloak_sdk.Outcome.{Outcome, ok, raise}

-- `inflight` is the field of the class. `begun` numbers the requests; `pending` are those whose
-- promise has not settled, `settled` those whose promise has, before the `finally` of their caller.
pub record Flight (C : Type 0) : Type 0 where
  pub cached : Option C
  pub inflight : Option ℕ
  pub begun : ℕ
  pub pending : List ℕ
  pub settled : List (ℕ × Outcome C)

pub data Answer (C : Type 0) : Type 0 where
  served : C → Answer C
  joined started : ℕ → Answer C

unfoldable pub idle : {C : Type 0} → Flight C
idle = record { cached = none; inflight = none; begun = 0; pending = []; settled = [] }

-- `this.#inflight = this.#fetch()`
abbrev pub begin : {C : Type 0} → Flight C → Flight C
begin s = record s { inflight = some s.begun; begun = s.begun + 1; pending = s.begun ∷ s.pending }

-- The part of the call behind the test of the cache.
unfoldable pub join_or_start : {C : Type 0} → Flight C → Flight C × Answer C
join_or_start s = elim s.inflight [ some id ↦ (s, joined id) | none ↦ (begin s, started s.begun) ]

unfoldable pub remove : ℕ → List ℕ → List ℕ
remove id [] = []
remove id (j ∷ js) = if j == id then js else j ∷ remove id js

unfoldable pub remove_settled : {C : Type 0} → ℕ → List (ℕ × Outcome C) → List (ℕ × Outcome C)
remove_settled id [] = []
remove_settled id ((j, o) ∷ js) = if j == id then js else (j, o) ∷ remove_settled id js

-- A failure leaves the cache as it was.
unfoldable pub keep : {C : Type 0} → Outcome C → Option C → Option C
keep (ok c) old = some c
keep (raise e) old = old

-- `fresh now c`: the cached value may be used.
unfoldable pub call : {C : Type 0} → (ℕ → C → Bool) → ℕ → Flight C → Flight C × Answer C
unfolding join_or_start
call fresh now s = elim s.cached [
  | none ↦ join_or_start s
  | some c ↦ if fresh now c then (s, served c) else join_or_start s
]

-- `inside`: the request's own code stores the value, before its promise settles with `o`;
-- otherwise the caller that began the request stores it.
unfoldable pub settle : {C : Type 0} → Bool → ℕ → Outcome C → Flight C → Flight C
unfolding remove keep
settle inside id o s = record s {
  pending = remove id s.pending;
  settled = (id, o) ∷ s.settled;
  cached = if inside then keep o s.cached else s.cached;
}

-- The `finally` clears the field whatever request it names.
unfoldable pub clear : {C : Type 0} → Bool → ℕ → Outcome C → Flight C → Flight C
unfolding remove_settled keep
clear inside id o s = record s {
  inflight = none;
  settled = remove_settled id s.settled;
  cached = if inside then s.cached else keep o s.cached;
}
