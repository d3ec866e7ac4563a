-- ===== src/Tests/AdminPath.antt =====
-- Paths of the admin API, on an id with a slash in it.
use key_cloak_sdk.AdminPath.{
  is_unreserved, is_lead, is_trail, escape_bytes, utf8, encode_unit, encode_uri_component,
  replace_marks, segment, segment_all, admin_path, code_point, is_mark, hex, escape_byte, prepend,
}
use key_cloak_sdk.AdminPath.Decode.{unescape, decode}
use key_cloak_sdk.AdminPath.Laws.{segment_roundtrip}
use key_cloak_sdk.AdminPath.Address.{admin_address_injective}
use key_cloak_sdk.Common.{join, join_rest, ◌≡◌, refl, List, [], ◌∷◌, Str, lit, arith}

abbrev named : List Str
named = lit "a/b" ∷ []

-- A URL that keeps every path.
abbrev kept : Str → Str
kept s = s

admin_address_injective_example : (lit "r" ∷ named) ≡ (lit "r" ∷ named)
unfolding admin_path segment_all segment encode_uri_component encode_unit prepend replace_marks
    escape_bytes escape_byte hex utf8 code_point is_unreserved is_mark is_lead is_trail join
    join_rest
admin_address_injective_example =
    admin_address_injective kept (lit "/auth") (lit "r") (lit "r") named named
      (lit "/admin/realms/r/a%2Fb") (lit "/admin/realms/r/a%2Fb") (λ segments h. refl)
      ((omega arith, tt), ((omega arith, (omega arith, (omega arith, tt))), tt))
      ((omega arith, tt), ((omega arith, (omega arith, (omega arith, tt))), tt))
      ((λ h. cc, λ h. cc), ((λ h. cc, λ h. cc), tt)) ((λ h. cc, λ h. cc), ((λ h. cc, λ h. cc), tt))
      refl refl refl

segment_roundtrip_example : decode 3 (unescape (lit "a%2Fb")) ≡ (lit "a/b")
unfolding admin_path segment_all segment encode_uri_component encode_unit prepend replace_marks
    escape_bytes escape_byte hex utf8 code_point is_unreserved is_mark is_lead is_trail join
    join_rest
segment_roundtrip_example =
    segment_roundtrip 3 (lit "a/b") (lit "a%2Fb") (omega arith)
      (omega arith, (omega arith, (omega arith, tt))) refl
