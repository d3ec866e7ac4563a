-- ===== src/SingleFlight/Origin.antt =====
-- Where a cached value comes from, and what one whole request leaves behind.
use mathlib.Core.List.{Memᴰ}
use key_cloak_sdk.Common.{
  ℕ, ◌≡◌, sym, ap, Bool, true, false, Option, none, some, List, [], ◌∷◌, arith, ◌⊎◌, inl, inr,
  subst, Bool-cases, ◌==◌, if◌then◌else◌, ==_refl,
}
use key_cloak_sdk.Outcome.{Outcome, ok, raise}
use key_cloak_sdk.SingleFlight.{Flight, idle, settle, clear, keep, remove_settled}
use key_cloak_sdk.SingleFlight.Steps.{Step, calls, settles, clears, Reach, here, next, call-cases}

mem_under {ℓ} :
    {A : Type ℓ} {x y : A} {l k : List A} → Memᴰ x (y ∷ l) → (Memᴰ x l → Memᴰ x k) → Memᴰ x (y ∷ k)
mem_under (Memᴰ.head e) f = Memᴰ.head e
mem_under (Memᴰ.tail m) f = Memᴰ.tail (f m)

mem-remove_settled :
    {C : Type 0} (id : ℕ) (l : List (ℕ × Outcome C)) {x : ℕ × Outcome C}
    → Memᴰ x (remove_settled id l)
    → Memᴰ x l
unfolding remove_settled
mem-remove_settled id [] m = m
mem-remove_settled id ((j, o) ∷ l) m = elim (Bool-cases (j == id)) [
  | inl same ↦ Memᴰ.tail (rw same at m)
  | inr differs ↦ mem_under (rw differs at m) (mem-remove_settled id l)
]

keep-cases :
    {C : Type 0} (o : Outcome C) (old : Option C) (c : C)
    → keep o old ≡ some c
    → (o ≡ ok c) ⊎ (old ≡ some c)
unfolding keep
keep-cases (ok c) old d h = inl (ap ok (ground arith))
keep-cases (raise e) old d h = inr h

module _ {C : Type 0} (inside : Bool) (id : ℕ) (o : Outcome C) (s : Flight C) where
  -- One whole request, whichever of the two stores the value: the value is stored, a failure leaves
  -- the cache as it was, and the next caller may begin a request again.
  pub round_lem :
      s.pending ≡ id ∷ []
      → s.settled ≡ []
      → let t = clear inside id o (settle inside id o s) in
        (t.cached ≡ keep o s.cached) × (t.inflight ≡ none) × (t.pending ≡ []) × (t.settled ≡ [])
  unfolding clear settle
  round_lem p d = ground (arith, ==_refl id)

module _ {C : Type 0} (fresh : ℕ → C → Bool) (inside : Bool) (Made : ℕ → Outcome C → Type 0) where
  abbrev pub IsMade : Outcome C → Type 0
  IsMade o = (now : ℕ) × Made now o

  record Origin (s : Flight C) : Type 0 where
    of_cached : (c : C) → s.cached ≡ some c → IsMade (ok c)
    of_settled : (id : ℕ) (o : Outcome C) → Memᴰ (id, o) s.settled → IsMade o

  IsMade-first :
      (id j : ℕ) (o q : Outcome C) (l : List (ℕ × Outcome C))
      → IsMade o
      → ((i : ℕ) (p : Outcome C) → Memᴰ (i, p) l → IsMade p)
      → Memᴰ (j, q) ((id, o) ∷ l)
      → IsMade q
  IsMade-first id j o q l made old (Memᴰ.head e) = subst IsMade (sym (ap (λ t. t.1) e)) made
  IsMade-first id j o q l made old (Memᴰ.tail m) = old j q m

  IsMade-kept :
      (o : Outcome C) (old : Option C) (c : C)
      → IsMade o
      → ((d : C) → old ≡ some d → IsMade (ok d))
      → keep o old ≡ some c
      → IsMade (ok c)
  IsMade-kept o old c made before h = elim (keep-cases o old c h) [
    | inl e ↦ subst IsMade e made
    | inr e ↦ before c e
  ]

  IsMade-stored :
      (b : Bool) (o : Outcome C) (old : Option C) (c : C)
      → IsMade o
      → ((d : C) → old ≡ some d → IsMade (ok d))
      → (if b then keep o old else old) ≡ some c
      → IsMade (ok c)
  IsMade-stored true o old c made before h = IsMade-kept o old c made before h
  IsMade-stored false o old c made before h = before c h

  IsMade-stored_late :
      (b : Bool) (o : Outcome C) (old : Option C) (c : C)
      → IsMade o
      → ((d : C) → old ≡ some d → IsMade (ok d))
      → (if b then old else keep o old) ≡ some c
      → IsMade (ok c)
  IsMade-stored_late true o old c made before h = before c h
  IsMade-stored_late false o old c made before h = IsMade-kept o old c made before h

  Step-Origin : {s t : Flight C} → Step fresh inside Made s t → Origin s → Origin t
  unfolding settle clear
  Step-Origin (calls now s) h = elim (call-cases fresh now s) [
    | inl same ↦ rw same h
    | inr (free, more) ↦ rw more (record { of_cached = h.of_cached; of_settled = h.of_settled })
  ]
  Step-Origin (settles id now o s made m) h = record {
    of_cached = λ c e. IsMade-stored inside o s.cached c (now, made) h.of_cached e;
    of_settled = λ j q k. IsMade-first id j o q s.settled (now, made) h.of_settled k;
  }
  Step-Origin (clears id o s m) h = record {
    of_cached = λ c e. IsMade-stored_late inside o s.cached c (h.of_settled id o m) h.of_cached e;
    of_settled = λ j q k. h.of_settled j q (mem-remove_settled id s.settled k);
  }

  idle-Origin : Origin idle
  unfolding idle
  idle-Origin = record { of_cached = λ c e. absurd (cc); of_settled = λ id o m. elim m [ ] }

  Reach-Origin : {s : Flight C} → Reach fresh inside Made idle s → Origin s
  Reach-Origin here = idle-Origin
  Reach-Origin (next r st) = Step-Origin st (Reach-Origin r)

  -- A value in the cache is the result of some request that has settled.
  pub Reach-cached :
      {s : Flight C} (c : C) → Reach fresh inside Made idle s → s.cached ≡ some c → IsMade (ok c)
  Reach-cached c r e = (Reach-Origin r).of_cached c e
