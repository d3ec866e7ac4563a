-- ===== src/Jwks/Fetch.antt =====
-- The reading of the JWKS response in node/src/jwt.ts.
use mathlib.Core.List.{Memᴰ}
use key_cloak_sdk.Common.{
  ℕ, zero, suc, ◌+◌, ◌≤◌, ◌<◌, ◌≡◌, ◌≢◌, Bool, refl, sym, ap, ◌∙◌, true, false, Option, some, [],
  ◌++◌, Str, length, max, ltb, leb, arith, ◌⊎◌, inl, inr, length-append, append_assoc, append-nil,
  Bool-cases, if◌then◌else◌,
}
use key_cloak_sdk.Values.Json.{Value}
use key_cloak_sdk.Errors.{Thrown}
use key_cloak_sdk.Outcome.{Outcome, ok, raise}
use key_cloak_sdk.Capped.{fault, Stream, Read, read}
use key_cloak_sdk.Capped.Laws.{Reads, ends, hands, fails, read_cases}
use key_cloak_sdk.Jwks.{
  jwks_max_bytes, too_many_bytes, no_keys, jwks_loop, has_no_keys, fetch_jwks_bounded,
}

-- What the loop makes of the bytes stored and the bytes to come.
abbrev Within : Str → Stream → Outcome Str → Type 0
Within out s o =
    (o ≡ (
      if leb (length (out ++ s.bytes)) jwks_max_bytes
      then ok (out ++ s.bytes)
      else raise too_many_bytes))
    ⊎ ((e : Thrown) × Memᴰ (fault e) s.events × (o ≡ raise e))

Within-shift :
    (out value : Str) (s rest : Stream) (o : Outcome Str)
    → s.bytes ≡ value ++ rest.bytes
    → ((e : Thrown) → Memᴰ (fault e) rest.events → Memᴰ (fault e) s.events)
    → Within (out ++ value) rest o
    → Within out s o
Within-shift out value s rest o e inc (inr (x, m, q)) = inr (x, inc x m, q)
Within-shift out value s rest o e inc (inl q) =
    let same : out ++ s.bytes ≡ (out ++ value) ++ rest.bytes =
      ap (λ t. out ++ t) e ∙ sym (append_assoc out value rest.bytes) in
    inl (rw same q)

too_long :
    (out value : Str) (s rest : Stream)
    → s.bytes ≡ value ++ rest.bytes
    → ltb jwks_max_bytes (length out + length value) ≡ true
    → leb (length (out ++ s.bytes)) jwks_max_bytes ≡ false
too_long out value s rest e h =
    ground (arith, e, length-append out s.bytes, length-append value rest.bytes)

not_over : (a : ℕ) → ltb jwks_max_bytes a ≡ false → a ≤ jwks_max_bytes
not_over a h = ground arith

loop_step :
    (fuel : ℕ) (out : Str) (s : Stream) (r : Read)
    → ((longer : Str) (rest : Stream)
        → length rest.bytes < fuel
        → length longer ≤ jwks_max_bytes
        → Within longer rest (jwks_loop fuel longer rest))
    → length s.bytes < suc fuel
    → length out ≤ jwks_max_bytes
    → read s (max 1 (length s.bytes)) ≡ r
    → Reads s (max 1 (length s.bytes)) r
    → Within out s (jwks_loop (suc fuel) out s)
unfolding jwks_loop
loop_step fuel out s r ih f h q (ends e) =
    let same : out ++ s.bytes ≡ out = ap (λ t. out ++ t) e ∙ append-nil out in
    let small : leb (length out) jwks_max_bytes ≡ true = ground arith in
    inl (rw (q, jwks_loop) (rw (same, small) refl))
loop_step fuel out s r ih f h q (hands value rest e some_bytes few inc) =
    elim (Bool-cases (ltb jwks_max_bytes (length out + length value))) [
      | inl over ↦ inl (rw (q, over, too_long out value s rest e over, jwks_loop) refl)
      | inr fits ↦
          rw (q, fits, jwks_loop)
            (Within-shift out value s rest _ e inc (
              ih (out ++ value) rest (omega (arith, ap length e, length-append value rest.bytes))
                (omega (arith, length-append out value, not_over _ fits))))
    ]
loop_step fuel out s r ih f h q (fails e m) = inr (e, m, rw (q, jwks_loop) refl)

loop_lem :
    (fuel : ℕ) (out : Str) (s : Stream)
    → length s.bytes < fuel
    → length out ≤ jwks_max_bytes
    → Within out s (jwks_loop fuel out s)
loop_lem zero out s f h = absurd (omega arith)
loop_lem (suc fuel) out s f h =
    loop_step fuel out s (read s (max 1 (length s.bytes)))
      (λ longer rest g k. loop_lem fuel longer rest g k) f h refl
      (read_cases s (max 1 (length s.bytes)) (omega arith))

ends_lem :
    {R : Type 0} (parse : Str → Option Value) (new_response : Str → ℕ → Outcome R) (given : R)
    (status : ℕ) (body : Stream)
    → let o = fetch_jwks_bounded parse new_response given status (some body) in
      (length body.bytes ≤ jwks_max_bytes
        × (o ≡ (
            if has_no_keys status (parse body.bytes)
            then raise no_keys
            else new_response body.bytes status)))
      ⊎ ((jwks_max_bytes < length body.bytes × (o ≡ raise too_many_bytes))
          ⊎ ((e : Thrown) × Memᴰ (fault e) body.events × (o ≡ raise e)))
unfolding fetch_jwks_bounded
ends_lem parse new_response given status body =
    elim (loop_lem (length body.bytes + 1) [] body (omega arith) (omega arith)) [
      | inr (e, m, q) ↦ inr (inr (e, m, rw (q, fetch_jwks_bounded) refl))
      | inl q ↦ elim (Bool-cases (leb (length body.bytes) jwks_max_bytes)) [
        | inl small ↦ inl (ground arith, rw (q, small, fetch_jwks_bounded) refl)
        | inr large ↦ inr (inl (ground arith, rw (q, large, fetch_jwks_bounded) refl))
      ]
    ]

outside_raises :
    {R : Type 0} (b : Bool) (o made : Outcome R) (e : Thrown)
    → made ≡ raise e
    → o ≡ (if b then raise no_keys else made)
    → (x : Thrown) × (o ≡ raise x)
outside_raises true o made e h q = (no_keys, q)
outside_raises false o made e h q = (e, q ∙ h)

-- The documented constructor: a status of 200 to 599 with a body makes a response, but for the
-- statuses that have no body, and any other status a failure.
pub record IsConstructor {R : Type 0} (new_response : Str → ℕ → Outcome R) : Type 0 where
  pub inside :
      (bytes : Str) (status : ℕ)
      → 200 ≤ status
      → status ≤ 599
      → status ≢ 204
      → status ≢ 205
      → status ≢ 304
      → (r : R) × (new_response bytes status ≡ ok r)
  pub outside :
      (bytes : Str) (status : ℕ)
      → (status < 200) ⊎ (599 < status)
      → (e : Thrown) × (new_response bytes status ≡ raise e)

-- Reading a JWKS body ends in one of three ways. The body has at most 51,200 bytes: then it fails for
-- want of keys where it came with status 200 and an empty `keys`, and else the constructor of
-- `Response` gets the whole body with the status. Or it is longer and fails as too long. Or a read
-- fails, and that failure is passed on. So where the constructor is as documented, a status outside
-- 200 to 599 never gives a response, and a body within the cap does with a status inside, 204, 205
-- and 304 apart, unless its keys are missing.
pub fetch_jwks_bounded_lem :
    {R : Type 0} (parse : Str → Option Value) (new_response : Str → ℕ → Outcome R) (given : R)
    (status : ℕ) (body : Stream)
    → IsConstructor new_response
    → let o = fetch_jwks_bounded parse new_response given status (some body) in
      ((length body.bytes ≤ jwks_max_bytes
          × (o ≡ (
              if has_no_keys status (parse body.bytes)
              then raise no_keys
              else new_response body.bytes status)))
        ⊎ ((jwks_max_bytes < length body.bytes × (o ≡ raise too_many_bytes))
            ⊎ ((e : Thrown) × Memᴰ (fault e) body.events × (o ≡ raise e))))
      × ((status < 200) ⊎ (599 < status) → (e : Thrown) × (o ≡ raise e))
      × (200 ≤ status
          → status ≤ 599
          → status ≢ 204
          → status ≢ 205
          → status ≢ 304
          → has_no_keys status (parse body.bytes) ≡ false
          → ((e : Thrown) → ¬ Memᴰ (fault e) body.events)
          → length body.bytes ≤ jwks_max_bytes
          → (r : R) × (o ≡ ok r) × (new_response body.bytes status ≡ ok r))
fetch_jwks_bounded_lem parse new_response given status body law =
    let ends = ends_lem parse new_response given status body in
    (
      ends,
      λ out. elim ends [
        | inr (inr (e, m, q)) ↦ (e, q)
        | inr (inl (large, q)) ↦ (too_many_bytes, q)
        | inl (small, q) ↦
            let (e, threw) = law.outside body.bytes status out in outside_raises _ _ _ e threw q
      ],
      λ low high a b c filled whole small.
          let (r, made) = law.inside body.bytes status low high a b c in
          elim ends [
            | inr (inr (e, m, q)) ↦ absurd (whole e m)
            | inr (inl (large, q)) ↦ absurd (omega (arith, large, small))
            | inl (_, q) ↦ (r, q ∙ rw (filled, made) refl, made)
          ],
    )
