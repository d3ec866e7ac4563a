-- ===== src/AdminPath/Laws.antt =====
-- A path determines the values that it was made of.
use key_cloak_sdk.Common.{
  ℕ, zero, suc, ◌+◌, ◌≤◌, ◌<◌, ◌≡◌, ◌≢◌, refl, sym, ap, ◌∙◌, true, some, List, [], ◌∷◌, ◌++◌, map,
  Str, lit, arith, ◌&&◌, All, all, length, Bool-cases, inl, inr, join, join_rest,
}
use mathlib.Core.Path.{ap₂}
use key_cloak_sdk.Outcome.{ok, >>=-eq-ok}
use key_cloak_sdk.AdminPath.{
  is_unreserved, is_lead, is_trail, escape_bytes, utf8, encode_unit, encode_uri_component,
  replace_marks, segment, segment_all, admin_path, code_point,
}
use key_cloak_sdk.AdminPath.Decode.{
  unescape, decode, decode_step, decode_nil, units_alone, units_pair, unit_lem, pair_lem,
}
use key_cloak_sdk.AdminPath.Escape.{IsUnits, is_encoded, prepend_inverse, segment_encoded}

alone :
    (fuel c : ℕ) (y t : Str) {s : Str}
    → c < 65536
    → encode_unit c ≡ ok y
    → decode fuel (unescape (replace_marks t)) ≡ s
    → decode (suc fuel) (unescape (replace_marks (y ++ t))) ≡ c ∷ s
alone fuel c y t h a ih =
    ap (decode (suc fuel)) (unit_lem c y t h a).0
    ∙ decode_step fuel c (unescape (replace_marks t)) (omega arith)
    ∙ ap₂ (λ x z. x ++ z) (units_alone c h) ih

roundtrip_from :
    (fuel : ℕ) (s e : Str)
    → length s ≤ fuel
    → IsUnits s
    → encode_uri_component s ≡ ok e
    → decode fuel (unescape (replace_marks e)) ≡ s
unfolding encode_uri_component unescape replace_marks
roundtrip_from fuel [] e f h q = let same : [] ≡ e = ground arith in rw (← same) (decode_nil fuel)
roundtrip_from zero (c ∷ s) e f h q = absurd (omega arith)
roundtrip_from (suc fuel) (c ∷ []) e f (hc, h) q =
    let (y, t, a, b, same) = prepend_inverse (encode_unit c) (ok []) e q in
    let last : [] ≡ t = ground arith in
    rw (← same, ← last) (alone fuel c y [] hc a (decode_nil fuel))
roundtrip_from (suc fuel) (c ∷ d ∷ s) e f (hc, (hd, h)) q =
    elim (Bool-cases (is_lead c && is_trail d)) [
      | inl pair ↦
          let (y, t, a, b, same) =
            prepend_inverse (ok (escape_bytes (utf8 (code_point c d)))) (encode_uri_component s) e
              (rw (pair, encode_uri_component) at q) in
          let first : escape_bytes (utf8 (code_point c d)) ≡ y = ground arith in
          let (us, small) = units_pair c d pair in
          rw (← same, ← first)
            (ap (decode (suc fuel)) (pair_lem c d t pair)
              ∙ decode_step fuel (code_point c d) (unescape (replace_marks t)) small
              ∙ ap₂ (λ x z. x ++ z) us (roundtrip_from fuel s t (omega arith) h b))
      | inr single ↦
          let (y, t, a, b, same) =
            prepend_inverse (encode_unit c) (encode_uri_component (d ∷ s)) e
              (rw (single, encode_uri_component) at q) in
          rw (← same)
            (alone fuel c y t hc a (roundtrip_from fuel (d ∷ s) t (omega arith) (hd, h) b))
    ]

-- Decoding an encoded segment, percent escapes first and UTF-8 next, gives the value back; as many
-- code points as the value has code units are enough.
pub segment_roundtrip :
    (fuel : ℕ) (s x : Str)
    → length s ≤ fuel
    → IsUnits s
    → segment (some s) ≡ ok x
    → decode fuel (unescape x) ≡ s
unfolding segment
segment_roundtrip fuel s x f h q =
    let (e, a, b) = >>=-eq-ok (encode_uri_component s) _ q in
    let same : replace_marks e ≡ x = ground arith in rw (← same) (roundtrip_from fuel s e f h a)

segment_injective :
    (s t x : Str)
    → IsUnits s
    → IsUnits t
    → segment (some s) ≡ ok x
    → segment (some t) ≡ ok x
    → s ≡ t
segment_injective s t x hs ht a b =
    sym (segment_roundtrip (length s + length t) s x (omega arith) hs a)
    ∙ segment_roundtrip (length s + length t) t x (omega arith) ht b

abbrev IsSegment : Str → Type 0
IsSegment x = all is_encoded x ≡ true

-- What stands behind a segment in a path: nothing, or a slash.
abbrev IsTail : Str → Type 0
IsTail [] = Unit
IsTail (c ∷ s) = c ≡ 47

not_slash : (c : ℕ) → is_encoded c ≡ true → c ≢ 47
unfolding is_unreserved
not_slash c h e = ground arith

cut :
    (x y r u : Str)
    → IsSegment x
    → IsSegment y
    → IsTail r
    → IsTail u
    → x ++ r ≡ y ++ u
    → (x ≡ y) × (r ≡ u)
cut [] [] r u hx hy hr hu e = (refl, e)
cut [] (d ∷ y) [] u hx hy hr hu e = absurd (cc)
cut [] (d ∷ y) (c ∷ r) u hx hy hr hu e = absurd (not_slash d (ground arith) (ground arith))
cut (c ∷ x) [] r [] hx hy hr hu e = absurd (cc)
cut (c ∷ x) [] r (d ∷ u) hx hy hr hu e = absurd (not_slash c (ground arith) (ground arith))
cut (c ∷ x) (d ∷ y) r u hx hy hr hu e = ground (arith, cut x y r u)

join_rest-IsTail : (xs : List Str) → IsTail (join_rest (lit "/") xs)
unfolding join_rest
join_rest-IsTail [] = tt
join_rest-IsTail (x ∷ xs) = refl

join_injective :
    (x y : Str) (xs ys : List Str)
    → IsSegment x
    → IsSegment y
    → All IsSegment xs
    → All IsSegment ys
    → x ++ join_rest (lit "/") xs ≡ y ++ join_rest (lit "/") ys
    → (x ∷ xs) ≡ (y ∷ ys)
unfolding join_rest
join_injective x y [] [] hx hy h k e = ground (arith, cut x y [] [] hx hy tt tt e)
join_injective x y [] (z ∷ ys) hx hy h k e =
    ground (arith, cut x y [] (47 ∷ z ++ join_rest (lit "/") ys) hx hy tt refl e)
join_injective x y (w ∷ xs) [] hx hy h k e =
    ground (arith, cut x y (47 ∷ w ++ join_rest (lit "/") xs) [] hx hy refl tt e)
join_injective x y (w ∷ xs) (z ∷ ys) hx hy (hw, h) (hz, k) e =
    let (first, later) =
      cut x y (47 ∷ w ++ join_rest (lit "/") xs) (47 ∷ z ++ join_rest (lit "/") ys) hx hy refl refl
        e in
    ap₂ (λ a b. a ∷ b) first (join_injective w z xs ys hw hz h k (ground arith))

-- The encoded values, one by one.
parts_of :
    (vs : List Str) (parts : List Str)
    → All IsUnits vs
    → segment_all (map some vs) ≡ ok parts
    → All IsSegment parts
unfolding segment_all
parts_of [] parts h q = let same : [] ≡ parts = ground arith in rw (← same) tt
parts_of (v ∷ vs) parts (hv, h) q =
    let (x, a, b) = >>=-eq-ok (segment (some v)) _ q in
    let (xs, c, d) = >>=-eq-ok (segment_all (map some vs)) _ b in
    let same : (x ∷ xs) ≡ parts = ground arith in
    rw (← same) (segment_encoded v x hv a, parts_of vs xs h c)

segment_all_injective :
    (vs ws : List Str) (parts : List Str)
    → All IsUnits vs
    → All IsUnits ws
    → segment_all (map some vs) ≡ ok parts
    → segment_all (map some ws) ≡ ok parts
    → vs ≡ ws
unfolding segment_all
segment_all_injective [] [] parts h k p q = refl
segment_all_injective [] (w ∷ ws) parts h k p q =
    let (x, a, b) = >>=-eq-ok (segment (some w)) _ q in
    let (xs, c, d) = >>=-eq-ok (segment_all (map some ws)) _ b in absurd (ground arith)
segment_all_injective (v ∷ vs) [] parts h k p q =
    let (x, a, b) = >>=-eq-ok (segment (some v)) _ p in
    let (xs, c, d) = >>=-eq-ok (segment_all (map some vs)) _ b in absurd (ground arith)
segment_all_injective (v ∷ vs) (w ∷ ws) parts (hv, h) (hw, k) p q =
    let (x, a, b) = >>=-eq-ok (segment (some v)) _ p in
    let (xs, c, d) = >>=-eq-ok (segment_all (map some vs)) _ b in
    let (y, a', b') = >>=-eq-ok (segment (some w)) _ q in
    let (ys, c', d') = >>=-eq-ok (segment_all (map some ws)) _ b' in
    let first : x ≡ y = ground arith in
    let later : xs ≡ ys = ground arith in
    ap₂ (λ s t. s ∷ t) (segment_injective v w x hv hw a (rw first a'))
      (segment_all_injective vs ws xs h k c (rw later c'))

pub path_parts :
    (vs : List Str) (p : Str)
    → admin_path (map some vs) ≡ ok p
    → (parts : List Str) × (segment_all (map some vs) ≡ ok parts)
      × (lit "/admin/realms/" ++ join (lit "/") parts ≡ p)
unfolding admin_path
path_parts vs p h =
    let (parts, a, b) = >>=-eq-ok (segment_all (map some vs)) _ h in (parts, a, ground arith)

filled_parts :
    (v : Str) (vs parts : List Str)
    → segment_all (map some (v ∷ vs)) ≡ ok parts
    → (x : Str) × (xs : List Str) × (parts ≡ x ∷ xs)
unfolding segment_all
filled_parts v vs parts h =
    let (x, a, b) = >>=-eq-ok (segment (some v)) _ h in
    let (xs, c, d) = >>=-eq-ok (segment_all (map some vs)) _ b in (x, xs, ground arith)

pub append_cancel : (a b c : Str) → a ++ b ≡ a ++ c → b ≡ c
append_cancel [] b c e = e
append_cancel (x ∷ a) b c e = append_cancel a b c (ground arith)

join_same :
    (p q : List Str) (x y : Str) (xs ys : List Str)
    → p ≡ x ∷ xs
    → q ≡ y ∷ ys
    → All IsSegment p
    → All IsSegment q
    → join (lit "/") p ≡ join (lit "/") q
    → p ≡ q
unfolding join
join_same p q x y xs ys e f h k j =
    let (hx, hxs) = rw e at h in
    let (hy, hys) = rw f at k in e ∙ join_injective x y xs ys hx hy hxs hys (rw (e, f) at j) ∙ sym f

-- Two lists of texts of UTF-16 units, neither empty, that both give one path, before a URL resolves
-- its dot segments, are the same list.
pub admin_path_injective :
    (v w : Str) (vs ws : List Str) (p : Str)
    → All IsUnits (v ∷ vs)
    → All IsUnits (w ∷ ws)
    → admin_path (map some (v ∷ vs)) ≡ ok p
    → admin_path (map some (w ∷ ws)) ≡ ok p
    → (v ∷ vs) ≡ (w ∷ ws)
admin_path_injective v w vs ws p h k a b =
    let (parts, c, e) = path_parts (v ∷ vs) p a in
    let (others, d, f) = path_parts (w ∷ ws) p b in
    let (x, xs, g) = filled_parts v vs parts c in
    let (y, ys, i) = filled_parts w ws others d in
    let joined =
      append_cancel (lit "/admin/realms/") (join (lit "/") parts) (join (lit "/") others)
        (e ∙ sym f) in
    let same =
      join_same parts others x y xs ys g i (parts_of (v ∷ vs) parts h c)
        (parts_of (w ∷ ws) others k d) joined in
    segment_all_injective (v ∷ vs) (w ∷ ws) parts h k c (rw same d)
