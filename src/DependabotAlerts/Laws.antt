-- ===== src/DependabotAlerts/Laws.antt =====
-- What the verdict on the alerts says.
use key_cloak_sdk.Common.{
  ℕ, ◌≡◌, ◌≢◌, ◌↔◌, ◌⊎◌, inl, inr, refl, sym, ap, ◌∙◌, subst, Bool, true, false, Option, none, some,
  List, [], ◌∷◌, Str, lit, arith, map, filter, any, get_elem?,
}
use key_cloak_sdk.Values.Json.{
  Value, Elements, undefined, null, boolean, number, string, array, object, elements, elements_of,
  field,
}
use key_cloak_sdk.DependabotAlerts.{
  RangeLine, range, Query, refused, answered, is_mine, range_of, fix_of, is_open, report,
  alerts_verdict, code_of, exit_code,
}

filter_empty : {A : Type 0} (p : A → Bool) (xs : List A) → (filter p xs ≡ []) ↔ (any p xs ≡ false)
filter_empty p [] = (λ _. refl, λ _. refl)
filter_empty p (x ∷ xs) = ground (arith, filter_empty p xs)

-- The answer is a list of alerts.
pub IsList : Value → List Value → Type 0
IsList v alerts = (vs : Elements) × (v ≡ array vs) × (elements vs ≡ alerts)

verdict_lem :
    (v : Value)
    → (alerts_verdict v ≡ none)
      ⊎ ((alerts : List Value) × IsList v alerts
          × (alerts_verdict v ≡ some (map report (filter is_open alerts))))
unfolding alerts_verdict IsList
verdict_lem (array vs) = inr (elements vs, (vs, refl, refl), refl)
verdict_lem undefined = inl refl
verdict_lem null = inl refl
verdict_lem (boolean b) = inl refl
verdict_lem (number n) = inl refl
verdict_lem (string s) = inl refl
verdict_lem (object ms) = inl refl

list_verdict :
    (v : Value) (alerts : List Value)
    → IsList v alerts
    → alerts_verdict v ≡ some (map report (filter is_open alerts))
unfolding alerts_verdict IsList
list_verdict v alerts (vs, e, f) = rw (e, ← f) refl

code_of-map :
    (rs : List Value)
    → ((code_of (some (map report rs)) ≡ 0) × (rs ≡ []))
      ⊎ ((code_of (some (map report rs)) ≡ 1) × (rs ≢ []))
unfolding code_of
code_of-map [] = inl (refl, refl)
code_of-map (r ∷ rs) = inr (refl, λ h. cc)

none_code : code_of none ≢ 0
unfolding code_of
none_code h = cc

value_zero :
    (v : Value)
    → (code_of (alerts_verdict v) ≡ 0)
      ↔ ((alerts : List Value) × IsList v alerts × (any is_open alerts ≡ false))
value_zero v = (
  λ h. elim (verdict_lem v) [
    | inl e ↦ absurd (none_code (sym (ap code_of e) ∙ h))
    | inr (alerts, list, e) ↦ elim (code_of-map (filter is_open alerts)) [
      | inl (z, empty) ↦ (alerts, list, (filter_empty is_open alerts).0 empty)
      | inr (one, more) ↦
          let same : code_of (some (map report (filter is_open alerts))) ≡ 0 =
            sym (ap code_of e) ∙ h in
          absurd (omega arith)
    ]
  ],
  λ (alerts, list, closed). elim (code_of-map (filter is_open alerts)) [
    | inl (z, empty) ↦ ap code_of (list_verdict v alerts list) ∙ z
    | inr (one, more) ↦ absurd (more ((filter_empty is_open alerts).1 closed))
  ],
)

parsed_zero :
    (o : Option Value)
    → ((elim o as (λ _. ℕ) [ none ↦ 2 | some v ↦ code_of (alerts_verdict v) ]) ≡ 0) ↔ (
        (v : Value) × (alerts : List Value) × (o ≡ some v)
        × IsList v alerts
        × (any is_open alerts ≡ false))
parsed_zero none = (λ h. cc, λ h. cc)
parsed_zero (some v) = (
  λ h. let (alerts, list, closed) = (value_zero v).0 h in (v, alerts, refl, list, closed),
  λ (w, alerts, e, list, closed).
      (value_zero v).1 (alerts, subst (λ u. IsList u alerts) (sym (inj e)) list, closed),
)
  where
    inj : {a b : Value} → some a ≡ some b → a ≡ b
    inj h = cc

-- The process ends with 0 exactly when GitHub answers with a list of alerts of which none is open:
-- a refused query, a text that is no JSON and a value that is no list never count as no alert.
pub exit_zero_iff :
    (parse : Str → Option Value) (q : Query)
    → (exit_code parse q ≡ 0) ↔ (
        (out : Str) × (v : Value) × (alerts : List Value) × (q ≡ answered out)
        × (parse out ≡ some v)
        × IsList v alerts
        × (any is_open alerts ≡ false))
unfolding exit_code
exit_zero_iff parse (refused out) = (λ h. cc, λ h. cc)
exit_zero_iff parse (answered out) = (
  λ h.
      let (v, alerts, e, list, closed) = (parsed_zero (parse out)).0 h in
      (out, v, alerts, refl, e, list, closed),
  λ (o, v, alerts, q, e, list, closed).
      (parsed_zero (parse out)).1 (v, alerts, ap parse (answered_inj q) ∙ e, list, closed),
)
  where
    answered_inj : {a b : Str} → answered a ≡ answered b → a ≡ b
    answered_inj h = cc

IsAt : List Value → Value → Type 0
IsAt vs v = (i : ℕ) × (get_elem? vs i ≡ some v)

-- A line with a range is that of an entry for the package.
pub IsOwn : Value → List Value → RangeLine → Type 0
IsOwn pkg vs (range r fix) =
    (v : Value) × IsAt vs v × (is_mine pkg v ≡ true) × (range_of v ≡ r) × (fix_of v ≡ fix)
IsOwn pkg vs _ = Unit {0}

-- The entries of the advisory of an alert.
abbrev pub advisory_entries : Value → List Value
advisory_entries alert =
    elements_of (field (field alert (lit "security_advisory")) (lit "vulnerabilities"))
