-- ===== src/Bearer/Trimming.antt =====
-- The slice between the two loops: the text without the SP, HTAB, CR and LF at its ends.
use key_cloak_sdk.Common.{
  get_elem?-take, get_elem?-drop, length-drop, take-append-drop, ℕ, zero, suc, ◌+◌, ◌-◌, ◌≤◌, ◌<◌,
  ◌≡◌, refl, true, false, [], ◌∷◌, ◌++◌, Str, arith, all, ap, Bool-cases, inl, inr, ◌∙◌, sym, take,
  drop, length, get_elem?, length-take,
}
use key_cloak_sdk.Bearer.{is_edge, is_edge_at, edge_start, edge_end, trimmed}

abbrev pub IsEdges : Str → Type 0
IsEdges s = all is_edge s ≡ true

-- The text does not begin with an edge character.
abbrev pub StartsPlain : Str → Type 0
StartsPlain [] = Unit
StartsPlain (c ∷ s) = is_edge c ≡ false

-- The text does not end with one.
abbrev pub EndsPlain : Str → Type 0
EndsPlain [] = Unit
EndsPlain (c ∷ []) = is_edge c ≡ false
EndsPlain (c ∷ d ∷ s) = EndsPlain (d ∷ s)

edge_start-IsEdges : (s : Str) → IsEdges (take (edge_start s) s)
unfolding edge_start
edge_start-IsEdges [] = refl
edge_start-IsEdges (c ∷ s) = ground (arith, edge_start-IsEdges s)

edge_start_plain : (s : Str) → StartsPlain (drop (edge_start s) s)
unfolding edge_start
edge_start_plain [] = tt
edge_start_plain (c ∷ s) = elim (Bool-cases (is_edge c)) [
  | inl e ↦ rw e (edge_start_plain s)
  | inr e ↦ rw e e
]

edge_start-le : (s : Str) → edge_start s ≤ length s
unfolding edge_start
edge_start-le [] = omega arith
edge_start-le (c ∷ s) = ground (arith, edge_start-le s)

edge_end-le : (s : Str) (start n : ℕ) → edge_end s start n ≤ n
unfolding edge_end
edge_end-le s start zero = omega arith
edge_end-le s start (suc n) = ground (arith, edge_end-le s start n)

edge_end-ge : (s : Str) (start n : ℕ) → start ≤ n → start ≤ edge_end s start n
unfolding edge_end
edge_end-ge s start zero h = h
edge_end-ge s start (suc n) h = ground (arith, edge_end-ge s start n)

-- Where the second loop stops short of the start, it stops behind a character that is no edge.
edge_end_stop :
    (s : Str) (start n k : ℕ)
    → edge_end s start n ≡ suc k
    → start < suc k
    → is_edge_at (get_elem? s k) ≡ false
unfolding edge_end
edge_end_stop s start zero k e h = absurd (omega arith)
edge_end_stop s start (suc n) k e h = ground (arith, edge_end_stop s start n k)

-- Behind it there are edges only.
edge_end_edges :
    (s : Str) (start n i : ℕ) → edge_end s start n ≤ i → i < n → is_edge_at (get_elem? s i) ≡ true
unfolding edge_end
edge_end_edges s start zero i p q = absurd (omega arith)
edge_end_edges s start (suc n) i p q =
    ground (arith, edge_end_edges s start n i, ap (λ j. is_edge_at (get_elem? s j)))

IsEdges-of_positions :
    (s : Str) → ((i : ℕ) → i < length s → is_edge_at (get_elem? s i) ≡ true) → IsEdges s
unfolding is_edge_at
IsEdges-of_positions [] h = refl
IsEdges-of_positions (c ∷ s) h =
    ground (arith, h 0 (omega arith), IsEdges-of_positions s (λ i p. h (suc i) (omega arith)))

EndsPlain-of_last :
    (s : Str) → ((k : ℕ) → length s ≡ suc k → is_edge_at (get_elem? s k) ≡ false) → EndsPlain s
unfolding is_edge_at
EndsPlain-of_last [] h = tt
EndsPlain-of_last (c ∷ []) h = h 0 refl
EndsPlain-of_last (c ∷ d ∷ s) h = EndsPlain-of_last (d ∷ s) (λ k e. h (suc k) (ap suc e))

-- How the two loops divide the text.
pub record Division (s : Str) : Type 0 where
  pub before : Str
  pub after : Str
  pub parts : s ≡ before ++ (trimmed s ++ after)
  pub before_edges : IsEdges before
  pub after_edges : IsEdges after
  pub starts : StartsPlain (trimmed s ++ after)
  pub ends : EndsPlain (trimmed s)

module _ (s : Str) where
  abbrev from : ℕ
  from = edge_start s

  abbrev rest : Str
  rest = drop from s

  abbrev size : ℕ
  size = edge_end s from (length s) - from

  size-add : from + size ≡ edge_end s from (length s)
  size-add = omega (arith, edge_end-ge s from (length s) (edge_start-le s))

  size-le : size ≤ length rest
  size-le = omega (arith, length-drop s from, edge_end-le s from (length s))

  after_are-IsEdges : IsEdges (drop size rest)
  after_are-IsEdges = IsEdges-of_positions (drop size rest) λ i h.
      rw (get_elem?-drop rest size i, get_elem?-drop s from (size + i))
        (edge_end_edges s from (length s) (from + (size + i)) (omega (arith, size-add))
          (omega (arith, length-drop rest size, length-drop s from, h)))

  kept-EndsPlain : EndsPlain (take size rest)
  kept-EndsPlain = EndsPlain-of_last (take size rest) λ k h.
      let exact : size ≡ suc k = omega (arith, h, length-take size rest, size-le) in
      rw (get_elem?-take rest size k (omega (arith, exact)), get_elem?-drop s from k)
        (edge_end_stop s from (length s) (from + k) (omega (arith, size-add, exact)) (omega arith))

pub divide : (s : Str) → Division s
unfolding trimmed
divide s = record {
  before = take (from s) s;
  after = drop (size s) (rest s);
  parts =
      sym (take-append-drop (from s) s)
      ∙ ap (λ t. take (from s) s ++ t) (sym (take-append-drop (size s) (rest s)));
  before_edges = edge_start-IsEdges s;
  after_edges = after_are-IsEdges s;
  starts = rw take-append-drop (edge_start_plain s);
  ends = kept-EndsPlain s;
}
