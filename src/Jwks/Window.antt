-- ===== src/Jwks/Window.antt =====
-- The window of the forced refetches in node/src/jwt.ts.
use key_cloak_sdk.Common.{
  ℕ, ◌+◌, ◌≤◌, ◌≡◌, Bool, true, false, none, some, List, [], ◌∷◌, arith, ◌&&◌, All,
}
use key_cloak_sdk.Jwks.{Attempted, in_window, decide}

-- The fetches that went out, the latest first: whether they were forced, and their time.
abbrev pub Sent : Type 0
Sent = List (Bool × ℕ)

-- A forced fetch stands at least the window after every fetch before it.
abbrev pub IsSpaced : ℕ → Sent → Type 0
IsSpaced window_ms [] = Unit
IsSpaced window_ms ((forced, at) ∷ before) =
    (forced ≡ true → All (λ r. r.1 + window_ms ≤ at) before) × IsSpaced window_ms before

-- The decisions that jose asks for, on a clock that does not go back: the time of the last reading,
-- the variable `lastAttempt`, and what was sent.
pub data Run (window_ms : ℕ) : ℕ → Attempted → Sent → Type 0 where
  start : {now : ℕ} → Run window_ms now none []
  sent :
      {now : ℕ} {last next : Attempted} {before : Sent} (forced : Bool) (seen stamped : ℕ)
      → Run window_ms now last before
      → now ≤ seen
      → seen ≤ stamped
      → decide window_ms forced seen stamped last ≡ some next
      → Run window_ms stamped next ((forced, stamped) ∷ before)
  refused :
      {now : ℕ} {last : Attempted} {before : Sent} (forced : Bool) (seen stamped : ℕ)
      → Run window_ms now last before
      → now ≤ seen
      → decide window_ms forced seen stamped last ≡ none
      → Run window_ms seen last before

-- The variable is the time of the latest fetch, and no fetch is later than it.
pub data IsLatest : Attempted → Sent → Type 0 where
  never : IsLatest none []
  at : {t : ℕ} {before : Sent} → All (λ r. r.1 ≤ t) before → IsLatest (some t) before

later-All :
    (window_ms t stamped : ℕ) (before : Sent)
    → All (λ r. r.1 ≤ t) before
    → t + window_ms ≤ stamped
    → All (λ r. r.1 + window_ms ≤ stamped) before
later-All window_ms t stamped [] h k = tt
later-All window_ms t stamped (r ∷ before) (h, hs) k =
    (omega (arith, h, k), later-All window_ms t stamped before hs k)

within :
    {last : Attempted} {before : Sent} (window_ms seen stamped : ℕ)
    → IsLatest last before
    → in_window window_ms seen last ≡ false
    → seen ≤ stamped
    → All (λ r. r.1 + window_ms ≤ stamped) before
unfolding in_window
within window_ms seen stamped never h k = tt
within {before = before} window_ms seen stamped (at {t = t} latest) h k =
    later-All window_ms t stamped before latest (ground arith)

raised-All :
    (t stamped : ℕ) (before : Sent)
    → All (λ r. r.1 ≤ t) before
    → t ≤ stamped
    → All (λ r. r.1 ≤ stamped) before
raised-All t stamped [] h k = tt
raised-All t stamped (r ∷ before) (h, hs) k =
    (omega (arith, h, k), raised-All t stamped before hs k)

-- What a run keeps: the spacing, the meaning of the variable, and that the clock has passed it.
abbrev Kept : ℕ → ℕ → Attempted → Sent → Type 0
Kept window_ms now last before =
    IsSpaced window_ms before × IsLatest last before × All (λ r. r.1 ≤ now) before

decide_lem :
    (window_ms : ℕ) (forced : Bool) (seen stamped : ℕ) (last next : Attempted)
    → decide window_ms forced seen stamped last ≡ some next
    → ((forced && in_window window_ms seen last) ≡ false) × (some stamped ≡ next)
unfolding decide
decide_lem window_ms forced seen stamped last next h = ground arith

kept :
    {window_ms now : ℕ} {last : Attempted} {before : Sent}
    → Run window_ms now last before
    → Kept window_ms now last before
kept start = (tt, never, tt)
kept {window_ms = window_ms}
      (sent {now = now} {last = last} {next = next} {before = before} forced seen stamped run h k
        e) =
    let (spaced, latest, passed) = kept run in
    let (open_window, stamp) = decide_lem window_ms forced seen stamped last next e in
    let passed_now = raised-All now stamped before passed (omega (arith, h, k)) in
    (
      (λ f. within window_ms seen stamped latest (ground (arith, f, open_window)) k, spaced),
      rw (← stamp) (at (omega arith, passed_now)),
      (omega arith, passed_now),
    )
kept (refused {now = now} {before = before} forced seen stamped run h e) =
    let (spaced, latest, passed) = kept run in (spaced, latest, raised-All now seen before passed h)

-- In every run a forced refetch leaves at least the window after every fetch that was sent before
-- it, whether that one succeeded or not.
pub spaced_lem :
    {window_ms now : ℕ} {last : Attempted} {before : Sent}
    → Run window_ms now last before
    → IsSpaced window_ms before
spaced_lem run = let (spaced, _, _) = kept run in spaced
