-- ===== src/Capped/Chunks.antt =====
-- The reader for a body that is no byte stream agrees with the byte reader.
use mathlib.Core.List.{Memᴰ}
use key_cloak_sdk.Common.{
  ℕ, zero, suc, ◌+◌, ◌≤◌, ◌<◌, ◌≡◌, refl, sym, ap, ◌∙◌, true, false, [], ◌++◌, Str, length, max,
  ltb, leb, arith, ◌⊎◌, inl, inr, length-append, append_assoc, append-nil, Bool-cases,
  if◌then◌else◌,
}
use key_cloak_sdk.Errors.{Thrown}
use key_cloak_sdk.Outcome.{Outcome, ok, raise}
use key_cloak_sdk.Capped.{
  fault, Stream, Read, read, chunks_loop, read_capped, read_capped_chunks, response_too_large_error,
}
use key_cloak_sdk.Capped.Laws.{Reads, ends, hands, fails, read_cases, Capped, read_capped_lem}

-- What the loop makes of the bytes stored and the bytes to come.
abbrev Within : ℕ → Str → Stream → Outcome Str → Type 0
Within cap out s o =
    (o ≡ (
      if leb (length (out ++ s.bytes)) cap
      then ok (out ++ s.bytes)
      else raise (response_too_large_error cap)))
    ⊎ ((e : Thrown) × Memᴰ (fault e) s.events × (o ≡ raise e))

Within-shift :
    (cap : ℕ) (out value : Str) (s rest : Stream) (o : Outcome Str)
    → s.bytes ≡ value ++ rest.bytes
    → ((e : Thrown) → Memᴰ (fault e) rest.events → Memᴰ (fault e) s.events)
    → Within cap (out ++ value) rest o
    → Within cap out s o
Within-shift cap out value s rest o e inc (inr (x, m, q)) = inr (x, inc x m, q)
Within-shift cap out value s rest o e inc (inl q) =
    let same : out ++ s.bytes ≡ (out ++ value) ++ rest.bytes =
      ap (λ t. out ++ t) e ∙ sym (append_assoc out value rest.bytes) in
    inl (rw same q)

too_long :
    (cap : ℕ) (out value : Str) (s rest : Stream)
    → s.bytes ≡ value ++ rest.bytes
    → ltb cap (length out + length value) ≡ true
    → leb (length (out ++ s.bytes)) cap ≡ false
too_long cap out value s rest e h =
    ground (arith, e, length-append out s.bytes, length-append value rest.bytes)

not_over : (a b : ℕ) → ltb a b ≡ false → b ≤ a
not_over a b h = ground arith

chunks_step :
    (fuel cap : ℕ) (out : Str) (s : Stream) (r : Read)
    → ((longer : Str) (rest : Stream)
        → length rest.bytes < fuel
        → length longer ≤ cap
        → Within cap longer rest (chunks_loop fuel cap longer rest))
    → length s.bytes < suc fuel
    → length out ≤ cap
    → read s (max 1 (length s.bytes)) ≡ r
    → Reads s (max 1 (length s.bytes)) r
    → Within cap out s (chunks_loop (suc fuel) cap out s)
unfolding chunks_loop
chunks_step fuel cap out s r ih f h q (ends e) =
    let same : out ++ s.bytes ≡ out = ap (λ t. out ++ t) e ∙ append-nil out in
    let small : leb (length out) cap ≡ true = ground arith in
    inl (rw (q, chunks_loop) (rw (same, small) refl))
chunks_step fuel cap out s r ih f h q (hands value rest e some_bytes few inc) =
    elim (Bool-cases (ltb cap (length out + length value))) [
      | inl over ↦ inl (rw (q, over, too_long cap out value s rest e over, chunks_loop) refl)
      | inr fits ↦
          rw (q, fits, chunks_loop)
            (Within-shift cap out value s rest _ e inc (
              ih (out ++ value) rest (omega (arith, ap length e, length-append value rest.bytes))
                (omega (arith, length-append out value, not_over _ _ fits))))
    ]
chunks_step fuel cap out s r ih f h q (fails e m) = inr (e, m, rw (q, chunks_loop) refl)

chunks_lem :
    (fuel cap : ℕ) (out : Str) (s : Stream)
    → length s.bytes < fuel
    → length out ≤ cap
    → Within cap out s (chunks_loop fuel cap out s)
chunks_lem zero cap out s f h = absurd (omega arith)
chunks_lem (suc fuel) cap out s f h =
    chunks_step fuel cap out s (read s (max 1 (length s.bytes)))
      (λ longer rest g k. chunks_lem fuel cap longer rest g k) f h refl
      (read_cases s (max 1 (length s.bytes)) (omega arith))

pub read_capped_chunks_lem :
    (body : Stream) (cap : ℕ) → Capped body cap (read_capped_chunks body cap)
unfolding read_capped_chunks
read_capped_chunks_lem body cap =
    chunks_lem (length body.bytes + 1) cap [] body (omega arith) (omega arith)

-- No read of the stream fails.
abbrev pub IsFaultless : Stream → Type 0
IsFaultless s = (e : Thrown) → ¬ Memᴰ (fault e) s.events

Capped-same :
    (a b : Stream) (cap : ℕ) (o p : Outcome Str)
    → a.bytes ≡ b.bytes
    → IsFaultless a
    → IsFaultless b
    → Capped a cap o
    → Capped b cap p
    → o ≡ p
Capped-same a b cap o p e fa fb (inr (x, m, q)) k = absurd (fa x m)
Capped-same a b cap o p e fa fb (inl q) (inr (x, m, k)) = absurd (fb x m)
Capped-same a b cap o p e fa fb (inl q) (inl k) = q ∙ rw e (sym k)

-- For the same bytes, cut up in any two ways by a transport that does not fail, the byte reader
-- and the default reader return the same: the body, or the error of a body over the cap.
pub readers_agree :
    (a b : Stream) (cap : ℕ)
    → a.bytes ≡ b.bytes
    → IsFaultless a
    → IsFaultless b
    → read_capped a cap ≡ read_capped_chunks b cap
readers_agree a b cap e fa fb =
    Capped-same a b cap (read_capped a cap) (read_capped_chunks b cap) e fa fb
      (read_capped_lem a cap) (read_capped_chunks_lem b cap)
