-- ===== src/AdminPath/Address.antt =====
-- The address of an admin request: what the URL makes of a path. A value `.` or `..` is not escaped
-- (node/src/admin/http.ts says so at `send`), and the URL resolves it.
use key_cloak_sdk.Common.{
  ◌+◌, ◌≡◌, ◌≢◌, refl, sym, ap, ◌∙◌, Bool, true, false, ◌||◌, some, List, [], ◌∷◌, ◌++◌, map, Str,
  lit, arith, ◌⊎◌, inl, inr, All, all, length, Bool-cases, join, str_eq, str_eq_iff,
}
use key_cloak_sdk.Outcome.{ok, >>=-eq-ok}
use key_cloak_sdk.AdminPath.{
  is_unreserved, is_mark, is_lead, is_trail, encode_unit, prepend, encode_uri_component,
  replace_marks, segment, segment_all, admin_path,
}
use key_cloak_sdk.AdminPath.Decode.{unescape, decode}
use key_cloak_sdk.AdminPath.Escape.{IsUnits, is_encoded, segment_encoded}
use key_cloak_sdk.AdminPath.Laws.{
  segment_roundtrip, admin_path_injective, path_parts, append_cancel,
}

-- The single-dot and double-dot segments of a URL, percent-encoded dots included.
pub is_dot_segment : Str → Bool
is_dot_segment x =
    str_eq x (lit ".")
    || str_eq x (lit "..")
    || str_eq x (lit "%2E")
    || str_eq x (lit "%2e")
    || str_eq x (lit ".%2E")
    || str_eq x (lit ".%2e")
    || str_eq x (lit "%2E.")
    || str_eq x (lit "%2e.")
    || str_eq x (lit "%2E%2E")
    || str_eq x (lit "%2E%2e")
    || str_eq x (lit "%2e%2E")
    || str_eq x (lit "%2e%2e")

-- A segment that a URL keeps as it is.
abbrev pub IsKept : Str → Type 0
IsKept x = (all is_encoded x ≡ true) × (is_dot_segment x ≡ false)

-- `pathname s` is what `url.pathname` gives after `url.pathname = s`: it keeps a path behind the
-- server's own, `front`, whose segments hold only unreserved characters and percent signs and are
-- no dot segments.
abbrev pub KeepsPlain : (Str → Str) → Str → Type 0
KeepsPlain pathname front =
    (segments : List Str)
    → All IsKept segments
    → let path = front ++ (lit "/admin/realms/" ++ join (lit "/") segments) in pathname path ≡ path

-- A value that is neither `.` nor `..`.
abbrev pub IsNoDot : Str → Type 0
IsNoDot v = (v ≢ lit ".") × (v ≢ lit "..")

-- Values are the same where their segments decode to the same bytes.
same_value :
    (v u x z : Str)
    → IsUnits v
    → IsUnits u
    → segment (some v) ≡ ok x
    → segment (some u) ≡ ok z
    → unescape x ≡ unescape z
    → v ≡ u
same_value v u x z hv hu a b e =
    sym (segment_roundtrip (length v + length u) v x (omega arith) hv a)
    ∙ ap (decode (length v + length u)) e
    ∙ segment_roundtrip (length v + length u) u z (omega arith) hu b

ok_inj : {x y : Str} → ok x ≡ ok y → x ≡ y
ok_inj h = cc

-- A segment is not `y`, where `y` decodes to the bytes of the segment of another value, or of
-- one whose segment is not `y`.
never :
    (v x y u z : Str)
    → IsUnits v
    → IsUnits u
    → segment (some v) ≡ ok x
    → segment (some u) ≡ ok z
    → unescape y ≡ unescape z
    → (v ≢ u) ⊎ (z ≢ y)
    → str_eq x y ≡ false
never v x y u z hv hu a b e other = elim (Bool-cases (str_eq x y)) [
  | inr differs ↦ differs
  | inl same ↦
      let found : x ≡ y = (str_eq_iff x y).0 same in
      let value = same_value v u x z hv hu a b (ap unescape found ∙ e) in
      elim other [
        | inl apart ↦ absurd (apart value)
        | inr apart ↦
            absurd (apart (ok_inj (sym b ∙ ap (λ t. segment (some t)) (sym value) ∙ a) ∙ found))
      ]
]

-- The segment of a value that is neither `.` nor `..` is no dot segment.
segment-IsKept :
    (v x : Str) → IsUnits v → IsNoDot v → segment (some v) ≡ ok x → is_dot_segment x ≡ false
unfolding is_dot_segment segment encode_uri_component encode_unit prepend replace_marks
    is_unreserved is_mark is_lead is_trail unescape
segment-IsKept v x hv (one, two) a = ground (
  arith,
  never v x (lit ".") (lit ".") (lit ".") hv (omega arith, tt) a refl refl (inl one),
  never v x (lit "..") (lit "..") (lit "..") hv (omega arith, (omega arith, tt)) a refl refl
      (inl two),
  never v x (lit "%2E") (lit ".") (lit ".") hv (omega arith, tt) a refl refl (inl one),
  never v x (lit "%2e") (lit "N") (lit "N") hv (omega arith, tt) a refl refl (inr (λ h. cc)),
  never v x (lit ".%2E") (lit "..") (lit "..") hv (omega arith, (omega arith, tt)) a refl refl
      (inl two),
  never v x (lit ".%2e") (lit ".N") (lit ".N") hv (omega arith, (omega arith, tt)) a refl refl
      (inr (λ h. cc)),
  never v x (lit "%2E.") (lit "..") (lit "..") hv (omega arith, (omega arith, tt)) a refl refl
      (inl two),
  never v x (lit "%2e.") (lit "N.") (lit "N.") hv (omega arith, (omega arith, tt)) a refl refl
      (inr (λ h. cc)),
  never v x (lit "%2E%2E") (lit "..") (lit "..") hv (omega arith, (omega arith, tt)) a refl refl
      (inl two),
  never v x (lit "%2E%2e") (lit ".N") (lit ".N") hv (omega arith, (omega arith, tt)) a refl refl
      (inr (λ h. cc)),
  never v x (lit "%2e%2E") (lit "N.") (lit "N.") hv (omega arith, (omega arith, tt)) a refl refl
      (inr (λ h. cc)),
  never v x (lit "%2e%2e") (lit "NN") (lit "NN") hv (omega arith, (omega arith, tt)) a refl refl
      (inr (λ h. cc)),
)

IsKept-parts :
    (vs : List Str) (parts : List Str)
    → All IsUnits vs
    → All IsNoDot vs
    → segment_all (map some vs) ≡ ok parts
    → All IsKept parts
unfolding segment_all
IsKept-parts [] parts h n q = let same : [] ≡ parts = ground arith in rw (← same) tt
IsKept-parts (v ∷ vs) parts (hv, h) (nv, n) q =
    let (x, a, b) = >>=-eq-ok (segment (some v)) _ q in
    let (xs, c, d) = >>=-eq-ok (segment_all (map some vs)) _ b in
    let same : (x ∷ xs) ≡ parts = ground arith in
    rw (← same) ((segment_encoded v x hv a, segment-IsKept v x hv nv a), IsKept-parts vs xs h n c)

kept_path :
    (pathname : Str → Str) (front : Str) (vs : List Str) (p : Str)
    → KeepsPlain pathname front
    → All IsUnits vs
    → All IsNoDot vs
    → admin_path (map some vs) ≡ ok p
    → pathname (front ++ p) ≡ front ++ p
kept_path pathname front vs p keeps h n a =
    let (parts, c, e) = path_parts vs p a in rw (← e) (keeps parts (IsKept-parts vs parts h n c))

-- Where the URL keeps a path of plain segments that are no dot segments: two lists of texts of UTF-16
-- units, neither empty and none of the texts `.` or `..`, whose paths behind the server's own give one
-- `pathname`, are the same list, whatever characters their texts have, slashes, percent signs and
-- question marks included.
pub admin_address_injective :
    (pathname : Str → Str) (front v w : Str) (vs ws : List Str) (p q : Str)
    → KeepsPlain pathname front
    → All IsUnits (v ∷ vs)
    → All IsUnits (w ∷ ws)
    → All IsNoDot (v ∷ vs)
    → All IsNoDot (w ∷ ws)
    → admin_path (map some (v ∷ vs)) ≡ ok p
    → admin_path (map some (w ∷ ws)) ≡ ok q
    → pathname (front ++ p) ≡ pathname (front ++ q)
    → (v ∷ vs) ≡ (w ∷ ws)
admin_address_injective pathname front v w vs ws p q keeps h k m n a b e =
    let one = kept_path pathname front (v ∷ vs) p keeps h m a in
    let other = kept_path pathname front (w ∷ ws) q keeps k n b in
    let same = append_cancel front p q (sym one ∙ e ∙ other) in
    admin_path_injective v w vs ws p h k a (b ∙ ap ok (sym same))
