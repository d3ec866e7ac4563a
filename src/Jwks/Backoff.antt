-- ===== src/Jwks/Backoff.antt =====
-- The backoff of node/src/jwt.ts: how long it lasts, and what closes it.
use native.Mathlib.Numerals.{unary_clauses}
use key_cloak_sdk.Common.{
  ◌∙◌, ◌-◌, ℕ, zero, suc, ◌+◌, ◌*◌, ◌^◌, min, ap, ◌≤◌, ◌<◌, ◌≡◌, refl, Bool, true, false, some,
  List, [], ◌∷◌, arith, ◌||◌, Bool-cases, inl, inr, ==_refl, All,
}
use key_cloak_sdk.Jwks.{
  ticks, jitter, power_of_two, delay_ms, State, Rejection, is_no_matching_key, is_last, remaining,
  resolved, rejected,
}

mul_mono : (d a b : ℕ) → a ≤ b → d * a ≤ d * b
mul_mono zero a b h = omega arith
mul_mono (suc d) a b h = omega (arith, mul_mono d a b h)

jitter_least : (nanos : ℕ) → 1000000 ≤ jitter nanos
unfolding jitter
jitter_least nanos = omega arith

jitter_most : (nanos : ℕ) → jitter nanos ≤ ticks
unfolding jitter
jitter_most nanos = omega arith

power-2 : (n : ℕ) → power_of_two n ≡ 2 ^ n
unfolding power_of_two
power-2 zero = refl
power-2 (suc n) =
    let half : 2 * 2 ^ n ≡ 2 ^ n * 2 = omega arith in simp unary_clauses (rw (power-2 n) half)

delay_value : (n : ℕ) → delay_ms (n + 1) ≡ min (200 * 2 ^ n) 5000
unfolding delay_ms
delay_value n =
    let same : n + 1 - 1 ≡ n = omega arith in
    ap (λ k. min (200 * power_of_two k) 5000) same ∙ ap (λ k. min (200 * k) 5000) (power-2 n)

-- A key source that counts a failure at the time `now`.
abbrev pub IsCounted : Rejection → State → Type 0
IsCounted e s = (is_no_matching_key e.thrown ≡ false) × (is_last e.identity s.last_counted ≡ false)

counted_lem :
    (now nanos : ℕ) (e : Rejection) (s : State)
    → IsCounted e s
    → rejected false now nanos e s ≡ record {
      failures = s.failures + 1;
      retry_at = some (now * ticks + delay_ms (s.failures + 1) * jitter nanos);
      last_counted = some e.identity;
    }
unfolding rejected
counted_lem now nanos e s (a, b) = rw (a, b) refl

-- A counted failure, with n failures in a row counted before it, shuts the key source for at least
-- half of min(200 · 2^n, 5000) milliseconds and for no longer than that: for 0.1 to 0.2 seconds after
-- the first failure, for 0.2 to 0.4 after the second, and from the sixth for 2.5 to 5 seconds.
pub window_lem :
    (now nanos later : ℕ) (e : Rejection) (s : State)
    → IsCounted e s
    → let delay = min (200 * 2 ^ s.failures) 5000 in
      let after = rejected false now nanos e s in
      (2 * later < 2 * now + delay → 0 < remaining after later)
      × (now + delay ≤ later → remaining after later ≡ 0)
unfolding remaining
window_lem now nanos later e s counted =
    let delay = min (200 * 2 ^ s.failures) 5000 in
    let least = mul_mono delay 1000000 (jitter nanos) (jitter_least nanos) in
    let most = mul_mono delay (jitter nanos) ticks (jitter_most nanos) in
    rw (counted_lem now nanos e s counted, delay_value s.failures)
      (λ h. omega (arith, least), λ h. omega (arith, most))

-- One waiter's `catch` each: whether `remote.fresh` held, and the readings of the two clocks.
abbrev pub Waiter : Type 0
Waiter = Bool × ℕ × ℕ

abbrev pub waiters : List Waiter → Rejection → State → State
waiters [] e s = s
waiters ((fresh, now, nanos) ∷ ws) e s = waiters ws e (rejected fresh now nanos e s)

again :
    (now nanos now' nanos' : ℕ) (e : Rejection) (s : State)
    → rejected false now' nanos' e (rejected false now nanos e s) ≡ rejected false now nanos e s
unfolding rejected is_last
again now nanos now' nanos' e s =
    elim (Bool-cases (is_no_matching_key e.thrown || is_last e.identity s.last_counted)) [
      | inl h ↦ rw (h, h) refl
      | inr h ↦ rw (h, ==_refl e.identity) (ground arith)
    ]

-- Waiters whose cache is not fresh.
abbrev pub stale : List (ℕ × ℕ) → List Waiter
stale [] = []
stale ((now, nanos) ∷ ws) = (false, now, nanos) ∷ stale ws

counted_once :
    (ws : List Waiter) (e : Rejection) (s : State)
    → is_last e.identity s.last_counted ≡ true
    → (waiters ws e s).failures ≤ s.failures
unfolding rejected resolved
counted_once [] e s h = omega arith
counted_once ((true, now, nanos) ∷ ws) e s h =
    let ih = counted_once ws e (resolved s) h in omega (arith, ih)
counted_once ((false, now, nanos) ∷ ws) e s h = elim (Bool-cases (is_no_matching_key e.thrown)) [
  | inl m ↦ rw (m, waiters) (counted_once ws e s h)
  | inr m ↦ rw (m, h, waiters) (counted_once ws e s h)
]

at_most_once :
    (ws : List Waiter) (e : Rejection) (s : State) → (waiters ws e s).failures ≤ s.failures + 1
unfolding rejected resolved is_last
at_most_once [] e s = omega arith
at_most_once ((true, now, nanos) ∷ ws) e s =
    let ih = at_most_once ws e (resolved s) in omega (arith, ih)
at_most_once ((false, now, nanos) ∷ ws) e s =
    elim (Bool-cases (is_no_matching_key e.thrown || is_last e.identity s.last_counted)) [
      | inl m ↦ rw (m, waiters) (at_most_once ws e s)
      | inr m ↦ rw (m, waiters) (counted_once ws e _ (==_refl e.identity))
    ]

the_others :
    (now nanos : ℕ) (ws : List (ℕ × ℕ)) (e : Rejection) (s : State)
    → waiters (stale ws) e (rejected false now nanos e s) ≡ rejected false now nanos e s
the_others now nanos [] e s = refl
the_others now nanos ((now', nanos') ∷ ws) e s =
    rw (again now nanos now' nanos' e s, waiters) (the_others now nanos ws e s)

-- One failure is counted once, however many wait for it: the waiters behind the first leave the
-- state as it is while the cache is not fresh, and in no case do all the waiters together add more
-- than one to the failures in a row.
pub waiters_lem :
    (now nanos : ℕ) (ws : List (ℕ × ℕ)) (mixed : List Waiter) (e : Rejection) (s : State)
    → (waiters ((false, now, nanos) ∷ stale ws) e s ≡ rejected false now nanos e s)
      × ((waiters mixed e s).failures ≤ s.failures + 1)
waiters_lem now nanos ws mixed e s = (the_others now nanos ws e s, at_most_once mixed e s)

-- A rejection, with whether `remote.fresh` held and the readings of the two clocks.
abbrev pub Rejected : Type 0
Rejected = Bool × ℕ × ℕ × Rejection

abbrev pub after_all : List Rejected → State → State
after_all [] s = s
after_all ((fresh, now, nanos, e) ∷ rs) s = after_all rs (rejected fresh now nanos e s)

-- However many tokens with an unknown key are refused, and whether the cache is fresh or not, the
-- key source is shut at no time at which it would have been open without them.
pub forged_lem :
    (rs : List Rejected) (s : State) (later : ℕ)
    → All (λ r. is_no_matching_key r.3.thrown ≡ true) rs
    → remaining (after_all rs s) later ≤ remaining s later
unfolding rejected resolved remaining
forged_lem [] s later h = omega arith
forged_lem ((true, now, nanos, e) ∷ rs) s later (h, k) =
    let ih = forged_lem rs (resolved s) later k in omega (arith, ih)
forged_lem ((false, now, nanos, e) ∷ rs) s later (h, k) = rw h (forged_lem rs s later k)
