-- ===== src/InstallMatrix/Laws.antt =====
-- When the install matrix passes.
use mathlib.Core.List.{Memᴰ}
use key_cloak_sdk.Common.{
  ◌≤◌, ◌≡◌, refl, Bool, true, false, not, Option, none, some, List, [], ◌∷◌, ◌++◌, Str, arith, All,
  Bool-cases, inl, inr, or_default, str_eq, str_eq_iff, filter,
}
use key_cloak_sdk.InstallMatrix.{
  Signal, Conformance, Security, conformance_fails, security_fails, fails, failed_signals, is_seen,
  failed_langs,
}

-- A signal of a language that is installed and works: every stage is done, some check of the
-- contract passed and none failed, and every one of at least one attack was defended.
pub record IsPassing (s : Signal) : Type 0 where
  pub built : s.artifact_built ≡ true
  pub published : s.published ≡ true
  pub installed : s.installed ≡ true
  pub quickstart : s.quickstart_ok ≡ true
  pub boots : s.app_boot ≡ true
  pub contract :
      (cf : Conformance) × (s.conformance ≡ some cf)
      × (or_default cf.failed 0 ≡ 0)
      × (1 ≤ or_default cf.passed 0)
  pub defence :
      (sec : Security) × (s.security ≡ some sec)
      × (1 ≤ or_default sec.total 0)
      × (or_default sec.total 0 ≤ or_default sec.defended 0)

split_nil : (a b : List Str) → a ++ b ≡ [] → (a ≡ []) × (b ≡ [])
split_nil [] b h = (refl, h)
split_nil (x ∷ a) b h = cc

contract_lem :
    (c : Option Conformance)
    → conformance_fails c ≡ false
    → (cf : Conformance) × (c ≡ some cf)
      × (or_default cf.failed 0 ≡ 0)
      × (1 ≤ or_default cf.passed 0)
unfolding conformance_fails
contract_lem none h = cc
contract_lem (some cf) h = (cf, refl, ground arith, ground arith)

defence_lem :
    (c : Option Security)
    → security_fails c ≡ false
    → (sec : Security) × (c ≡ some sec)
      × (1 ≤ or_default sec.total 0)
      × (or_default sec.total 0 ≤ or_default sec.defended 0)
unfolding security_fails
defence_lem none h = cc
defence_lem (some sec) h = (sec, refl, ground arith, ground arith)

passing : (s : Signal) → fails s ≡ false → IsPassing s
unfolding fails
passing s h = record {
  built = ground arith;
  published = ground arith;
  installed = ground arith;
  quickstart = ground arith;
  boots = ground arith;
  contract = contract_lem s.conformance (ground arith);
  defence = defence_lem s.security (ground arith);
}

none_failed : (ss : List Signal) → failed_signals ss ≡ [] → All IsPassing ss
unfolding failed_signals
none_failed [] h = tt
none_failed (s ∷ ss) h = elim (Bool-cases (fails s)) [
  | inl failing ↦ ground arith
  | inr good ↦ (passing s good, none_failed ss (ground arith))
]

seen_signal :
    (ss : List Signal) (l : Str) → is_seen ss l ≡ true → (s : Signal) × Memᴰ s ss × (s.lang ≡ l)
unfolding is_seen
seen_signal [] l h = cc
seen_signal (s ∷ ss) l h = elim (Bool-cases (str_eq s.lang l)) [
  | inl same ↦ (s, Memᴰ.head refl, (str_eq_iff s.lang l).0 same)
  | inr different ↦
      let (found, m, named) = seen_signal ss l (ground arith) in (found, Memᴰ.tail m, named)
]

All-kept :
    (p : Str → Bool) (ls : List Str) → filter (λ l. not (p l)) ls ≡ [] → All (λ l. p l ≡ true) ls
All-kept p [] h = tt
All-kept p (l ∷ ls) h = elim (Bool-cases (p l)) [
  | inl good ↦ (good, All-kept p ls (ground arith))
  | inr bad ↦ ground arith
]

measured :
    (ss : List Signal) (ls : List Str)
    → All (λ l. is_seen ss l ≡ true) ls
    → All (λ l. (s : Signal) × Memᴰ s ss × (s.lang ≡ l)) ls
measured ss [] h = tt
measured ss (l ∷ ls) (h, hs) = (seen_signal ss l h, measured ss ls hs)

-- Where no language is reported as failed, every language that was expected has a signal, and
-- every signal is of a language that is installed and works: a language that was not measured
-- does not pass.
pub failed_langs_lem :
    (signals : List Signal) (expected : List Str)
    → failed_langs signals (some expected) ≡ []
    → All IsPassing signals × All (λ l. (s : Signal) × Memᴰ s signals × (s.lang ≡ l)) expected
unfolding failed_langs
failed_langs_lem signals expected h =
    let (a, b) = split_nil (failed_signals signals) _ h in
    (none_failed signals a, measured signals expected (All-kept (is_seen signals) expected b))
