-- ===== src/SingleFlight/Steps.antt =====
-- Every interleaving of calls, answers and `finally` blocks.
use mathlib.Core.List.{Memᴰ}
use key_cloak_sdk.Common.{
  ℕ, ◌≤◌, ◌≡◌, ◌≢◌, refl, sym, ap, ◌∙◌, Bool, none, some, List, [], ◌∷◌, arith, ◌⊎◌, inl, inr,
  length,
}
use key_cloak_sdk.Outcome.{Outcome}
use key_cloak_sdk.SingleFlight.{Flight, idle, begin, call, settle, clear}

-- `Made now o`: at the time `now` the request's own code can make `o` of the answer it gets.
module _ {C : Type 0} (fresh : ℕ → C → Bool) (inside : Bool) (Made : ℕ → Outcome C → Type 0) where
  -- Requests settle and callers resume in any order that their promises allow.
  pub data Step : Flight C → Flight C → Type 0 where
    calls : (now : ℕ) (s : Flight C) → Step s (call fresh now s).0
    settles :
        (id now : ℕ) (o : Outcome C) (s : Flight C)
        → Made now o
        → Memᴰ id s.pending
        → Step s (settle inside id o s)
    clears :
        (id : ℕ) (o : Outcome C) (s : Flight C)
        → Memᴰ (id, o) s.settled
        → Step s (clear inside id o s)

  pub data Reach (s : Flight C) : Flight C → Type 0 where
    here : Reach s s
    next : {t u : Flight C} → Reach s t → Step t u → Reach s u

-- No request is on its way, or the one that the field names is, or it has settled and its caller
-- has not resumed.
pub data IsSingle {C : Type 0} (s : Flight C) : Type 0 where
  at_rest : s.inflight ≡ none → s.pending ≡ [] → s.settled ≡ [] → IsSingle s
  waiting : (id : ℕ) → s.inflight ≡ some id → s.pending ≡ id ∷ [] → s.settled ≡ [] → IsSingle s
  resuming :
      (id : ℕ) (o : Outcome C)
      → s.inflight ≡ some id
      → s.pending ≡ []
      → s.settled ≡ (id, o) ∷ []
      → IsSingle s

pub mem_one {ℓ} : {A : Type ℓ} {a b : A} {l : List A} → Memᴰ a l → l ≡ b ∷ [] → a ≡ b
mem_one (Memᴰ.head e) h = cc
mem_one (Memᴰ.tail (Memᴰ.head e)) h = cc
mem_one (Memᴰ.tail (Memᴰ.tail m)) h = cc

pub mem_none {ℓ} : {A : Type ℓ} {a : A} {l : List A} → Memᴰ a l → l ≢ []
mem_none (Memᴰ.head e) h = cc
mem_none (Memᴰ.tail m) h = cc

module _ {C : Type 0} where
  begin-IsSingle : (s : Flight C) → s.inflight ≡ none → IsSingle s → IsSingle (begin s)
  begin-IsSingle s free (at_rest i p d) = waiting s.begun refl (ap (λ l. s.begun ∷ l) p) d
  begin-IsSingle s free (waiting id i p d) = absurd (cc)
  begin-IsSingle s free (resuming id o i p d) = absurd (cc)

  -- A call leaves the state as it is, or begins a request where none is in flight.
  pub call-cases :
      (fresh : ℕ → C → Bool) (now : ℕ) (s : Flight C)
      → ((call fresh now s).0 ≡ s) ⊎ ((s.inflight ≡ none) × ((call fresh now s).0 ≡ begin s))
  unfolding call
  call-cases fresh now s = ground arith

  call-IsSingle :
      (fresh : ℕ → C → Bool) (now : ℕ) (s : Flight C) → IsSingle s → IsSingle (call fresh now s).0
  call-IsSingle fresh now s single = elim (call-cases fresh now s) [
    | inl same ↦ rw same single
    | inr (free, more) ↦ rw more (begin-IsSingle s free single)
  ]

  settle-IsSingle :
      (inside : Bool) (id : ℕ) (o : Outcome C) (s : Flight C)
      → Memᴰ id s.pending
      → IsSingle s
      → IsSingle (settle inside id o s)
  unfolding settle
  settle-IsSingle inside id o s m (at_rest i p d) = absurd (mem_none m p)
  settle-IsSingle inside id o s m (waiting j i p d) =
      let e = mem_one m p in
      resuming id o (i ∙ ap some (sym e)) (ground (arith, e)) (ap (λ l. (id, o) ∷ l) d)
  settle-IsSingle inside id o s m (resuming j q i p d) = absurd (mem_none m p)

  clear-IsSingle :
      (inside : Bool) (id : ℕ) (o : Outcome C) (s : Flight C)
      → Memᴰ (id, o) s.settled
      → IsSingle s
      → IsSingle (clear inside id o s)
  unfolding clear
  clear-IsSingle inside id o s m (at_rest i p d) = absurd (mem_none m d)
  clear-IsSingle inside id o s m (waiting j i p d) = absurd (mem_none m d)
  clear-IsSingle inside id o s m (resuming j q i p d) =
      let e = mem_one m d in at_rest refl p (ground (arith, e))

module _ {C : Type 0} (fresh : ℕ → C → Bool) (inside : Bool) (Made : ℕ → Outcome C → Type 0) where
  Step-IsSingle : {s t : Flight C} → Step fresh inside Made s t → IsSingle s → IsSingle t
  Step-IsSingle (calls now s) h = call-IsSingle fresh now s h
  Step-IsSingle (settles id now o s made m) h = settle-IsSingle inside id o s m h
  Step-IsSingle (clears id o s m) h = clear-IsSingle inside id o s m h

  -- Whatever the order of calls, answers and `finally` blocks, there is never a second request
  -- while one is on its way or its caller has not resumed.
  pub Reach-IsSingle : {s t : Flight C} → IsSingle s → Reach fresh inside Made s t → IsSingle t
  Reach-IsSingle h here = h
  Reach-IsSingle h (next r st) = Step-IsSingle st (Reach-IsSingle h r)

pub idle-IsSingle : {C : Type 0} → IsSingle (idle {C = C})
unfolding idle
idle-IsSingle = at_rest refl refl refl

pub single_lem : {C : Type 0} {s : Flight C} → IsSingle s → length s.pending ≤ 1
single_lem (at_rest i p d) = ground arith
single_lem (waiting id i p d) = ground arith
single_lem (resuming id o i p d) = ground arith
