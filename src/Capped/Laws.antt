-- ===== src/Capped/Laws.antt =====
-- `readCapped` returns the whole body or says that it is too long, however the bytes come.
use mathlib.Core.List.{Memᴰ}
use key_cloak_sdk.Common.{
  ℕ, zero, suc, ◌+◌, ◌-◌, ◌*◌, ◌≤◌, ◌<◌, ◌≡◌, refl, sym, ap, ◌∙◌, true, false, List, [], ◌∷◌, ◌++◌,
  Str, length, take, min, max, ltb, leb, arith, ◌⊎◌, inl, inr, length-append, take-append-drop,
  append_assoc, append-nil, take_all, length-take, Bool-cases, if◌then◌else◌, lt→ltb, ltb→lt,
  leb→le, take-append_left,
}
use key_cloak_sdk.Errors.{Thrown}
use key_cloak_sdk.Outcome.{Outcome, ok, raise}
use key_cloak_sdk.Capped.{
  Event, deliver, fault, Stream, Read, done, chunk, failed, read, read_from, deliver_from, Buffer,
  store, read_loop, read_capped, response_too_large_error, read_chunk_bytes,
}

-- What a read can do: end where no byte is left, hand over between one byte and as many as were
-- asked for, or fail with a fault of the transport.
pub data Reads (s : Stream) (size : ℕ) : Read → Type 0 where
  ends : s.bytes ≡ [] → Reads s size done
  hands :
      (value : Str) (rest : Stream)
      → s.bytes ≡ value ++ rest.bytes
      → 0 < length value
      → length value ≤ size
      → ((e : Thrown) → Memᴰ (fault e) rest.events → Memᴰ (fault e) s.events)
      → Reads s size (chunk value rest)
  fails : (e : Thrown) → Memᴰ (fault e) s.events → Reads s size (failed e)

taken : (n : ℕ) (b : ℕ) (bs : Str) → 0 < n → 0 < length (take n (b ∷ bs))
taken zero b bs h = absurd (omega arith)
taken (suc n) b bs h = omega arith

deliver_cases :
    (s : Stream) (k : ℕ) (events : List Event) (bytes : Str) (size : ℕ)
    → 0 < size
    → s.bytes ≡ bytes
    → ((e : Thrown) → Memᴰ (fault e) events → Memᴰ (fault e) s.events)
    → Reads s size (deliver_from k events bytes size)
unfolding deliver_from
deliver_cases s k events [] size h e inc = ends e
deliver_cases s k events (b ∷ bs) size h e inc =
    hands (take (min size (max 1 k)) (b ∷ bs)) _
      (e ∙ sym (take-append-drop (min size (max 1 k)) (b ∷ bs)))
      (taken (min size (max 1 k)) b bs (omega arith))
      (omega (arith, length-take (min size (max 1 k)) (b ∷ bs))) inc

read_from_cases :
    (s : Stream) (events : List Event) (size : ℕ)
    → 0 < size
    → s.events ≡ events
    → Reads s size (read_from events s.bytes size)
unfolding read_from
read_from_cases s [] size h e = deliver_cases s 1 [] s.bytes size h refl (λ x m. rw e m)
read_from_cases s (deliver k ∷ events) size h e =
    deliver_cases s k events s.bytes size h refl (λ x m. rw e (Memᴰ.tail m))
read_from_cases s (fault x ∷ events) size h e = fails x (rw e (Memᴰ.head refl))

pub read_cases : (s : Stream) (size : ℕ) → 0 < size → Reads s size (read s size)
unfolding read
read_cases s size h = read_from_cases s s.events size h refl

-- The buffer always has room: the value is at most as long as the room up to the limit.
store_lem :
    (limit : ℕ) (b : Buffer) (value : Str)
    → length b.stored + length value ≤ limit
    → (c : ℕ) × (store limit b value ≡ ok (record { stored = b.stored ++ value; capacity = c }))
unfolding store
store_lem limit b value h = (
  if ltb b.capacity (length b.stored + length value)
      then min (max (b.capacity * 2) (length b.stored + length value)) limit
      else b.capacity,
  ground arith,
)

-- The loop ends by its test or at the end of the body, with the body up to the limit, unless a
-- fault of the transport stops it.
abbrev Loops : ℕ → Str → Stream → Outcome Buffer → Type 0
Loops limit stored s (ok b) = b.stored ≡ take limit (stored ++ s.bytes)
Loops limit stored s (raise e) = Memᴰ (fault e) s.events

Loops-shift :
    (limit : ℕ) (stored value : Str) (s rest : Stream) (o : Outcome Buffer)
    → s.bytes ≡ value ++ rest.bytes
    → ((e : Thrown) → Memᴰ (fault e) rest.events → Memᴰ (fault e) s.events)
    → Loops limit (stored ++ value) rest o
    → Loops limit stored s o
Loops-shift limit stored value s rest (ok b) e inc h =
    h ∙ ap (take limit) (append_assoc stored value rest.bytes ∙ ap (λ t. stored ++ t) (sym e))
Loops-shift limit stored value s rest (raise x) e inc h = inc x h

abbrev request : ℕ → Buffer → ℕ
request limit b = min (min read_chunk_bytes limit) (limit - length b.stored)

loop_step :
    (fuel limit : ℕ) (b : Buffer) (s : Stream) (r : Read)
    → ((grown : Buffer) (rest : Stream)
        → length rest.bytes < fuel
        → length grown.stored ≤ limit
        → Loops limit grown.stored rest (read_loop fuel limit grown rest))
    → length s.bytes < suc fuel
    → length b.stored < limit
    → read s (request limit b) ≡ r
    → Reads s (request limit b) r
    → Loops limit b.stored s (read_loop (suc fuel) limit b s)
unfolding read_loop
loop_step fuel limit b s r ih f lt q (ends e) =
    rw (lt→ltb _ _ lt, q, read_loop)
      (sym (
        ap (λ t. take limit (b.stored ++ t)) e
        ∙ ap (take limit) (append-nil b.stored)
        ∙ take_all limit b.stored (omega arith)))
loop_step fuel limit b s r ih f lt q (hands value rest e some_bytes few inc) =
    let fits : length b.stored + length value ≤ limit = omega arith in
    let (c, stored) = store_lem limit b value fits in
    rw (lt→ltb _ _ lt, q, stored, read_loop)
      (Loops-shift limit b.stored value s rest _ e inc (
        ih (record { stored = b.stored ++ value; capacity = c }) rest
          (omega (arith, ap length e, length-append value rest.bytes))
          (omega (arith, length-append b.stored value))))
loop_step fuel limit b s r ih f lt q (fails e m) = rw (lt→ltb _ _ lt, q, read_loop) m

loop_lem :
    (fuel limit : ℕ) (b : Buffer) (s : Stream)
    → length s.bytes < fuel
    → length b.stored ≤ limit
    → Loops limit b.stored s (read_loop fuel limit b s)
unfolding read_loop
loop_lem zero limit b s f h = absurd (omega arith)
loop_lem (suc fuel) limit b s f h = elim (Bool-cases (ltb (length b.stored) limit)) [
  | inl more ↦
      let lt = ltb→lt _ _ more in
      loop_step fuel limit b s (read s (request limit b))
        (λ grown rest g k. loop_lem fuel limit grown rest g k) f lt refl
        (read_cases s (request limit b) (omega (arith, lt)))
  | inr full ↦
      let at_limit : length b.stored ≡ limit = ground arith in
      rw (full, read_loop) (sym (take-append_left limit b.stored s.bytes at_limit))
]

not_le : (a b : ℕ) → leb a b ≡ false → b < a
not_le a b h = ground arith

-- What a reader may return of a body under a cap.
abbrev pub Capped : Stream → ℕ → Outcome Str → Type 0
Capped body cap o =
    (o ≡ (
      if leb (length body.bytes) cap then ok body.bytes else raise (response_too_large_error cap)))
    ⊎ ((e : Thrown) × Memᴰ (fault e) body.events × (o ≡ raise e))

finish :
    (body : Stream) (cap : ℕ) (o : Outcome Buffer)
    → read_loop
        (length body.bytes + 1)
        (cap + 1)
        (record { stored = []; capacity = min read_chunk_bytes (cap + 1) })
        body
      ≡ o
    → Loops (cap + 1) [] body o
    → Capped body cap (read_capped body cap)
unfolding read_capped
finish body cap (raise e) q m = inr (e, m, rw (q, read_capped) refl)
finish body cap (ok b) q h = elim (Bool-cases (leb (length body.bytes) cap)) [
  | inl small ↦
      let whole : b.stored ≡ body.bytes =
        h ∙ take_all (cap + 1) body.bytes (omega (arith, leb→le _ _ small)) in
      let short : ltb cap (length b.stored) ≡ false = rw whole (ground arith) in
      inl (rw (q, read_capped) (rw (short, small) (ap ok whole)))
  | inr large ↦
      let over : ltb cap (length b.stored) ≡ true =
        lt→ltb _ _
          (omega (arith, ap length h, length-take (cap + 1) body.bytes, not_le _ _ large)) in
      inl (rw (q, read_capped) (rw (over, large) refl))
]

-- `readCapped` returns the whole body, however the transport cuts it into reads, when the body has
-- at most `cap` bytes, and throws the error of a body that is too long when it has more; the only
-- other end is a failure of the transport. In particular the buffer never overflows and the loop
-- ends.
pub read_capped_lem : (body : Stream) (cap : ℕ) → Capped body cap (read_capped body cap)
read_capped_lem body cap = finish body cap _ refl (
    loop_lem (length body.bytes + 1) (cap + 1)
      (record { stored = []; capacity = min read_chunk_bytes (cap + 1) }) body (omega arith)
      (omega arith))
