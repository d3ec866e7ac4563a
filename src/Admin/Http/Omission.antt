-- ===== src/Admin/Http/Omission.antt =====
-- What `omit` leaves of a representation.
use key_cloak_sdk.Common.{
  ◌≡◌, [], ◌∷◌, Str, str_eq, str_eq_refl, str_eq_iff, includes, arith, if◌then◌else◌,
}
use key_cloak_sdk.Values.Json.{Value, undefined, Members, end, member, get}
use key_cloak_sdk.Admin.Http.{omit, spread_with}

includes_one : (k key : Str) → includes (key ∷ []) k ≡ str_eq key k
unfolding includes
includes_one k key = ground arith

str_eq_comm : (a b : Str) → str_eq a b ≡ str_eq b a
str_eq_comm a b = ground (arith, str_eq_iff a b, str_eq_iff b a)

omit-spread :
    (ms : Members) (key : Str) (v : Value)
    → omit (spread_with ms key v) (key ∷ []) ≡ omit ms (key ∷ [])
unfolding omit spread_with
omit-spread end key v = ground (arith, includes_one key key, str_eq_refl key)
omit-spread (member k w ms) key v =
    ground (arith, includes_one k key, str_eq_comm k key, omit-spread ms key v)

get-omit :
    (ms : Members) (key j : Str)
    → get (omit ms (key ∷ [])) j ≡ (if str_eq key j then undefined else get ms j)
unfolding omit get
get-omit end key j = ground arith
get-omit (member k w ms) key j = ground (
  arith,
  includes_one k key,
  str_eq_iff k j,
  str_eq_iff key j,
  str_eq_iff key k,
  get-omit ms key j,
)

-- The payload of a create call, made by setting `realm` and taking it out again, reads like the
-- representation under every key but `realm`, and has no `realm`.
pub created_payload :
    (representation : Members) (realm_key j : Str) (realm : Value)
    → get (omit (spread_with representation realm_key realm) (realm_key ∷ [])) j
      ≡ (if str_eq realm_key j then undefined else get representation j)
created_payload representation realm_key j realm =
    rw (omit-spread representation realm_key realm) (get-omit representation realm_key j)
