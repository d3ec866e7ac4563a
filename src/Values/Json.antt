-- ===== src/Values/Json.antt =====
-- The values that `unknown` and `Record<string, unknown>` stand for in the source.
use key_cloak_sdk.Common.{
  Bool, true, false, not, ◌&&◌, List, [], ◌∷◌, Option, none, some, Str, str_eq, if◌then◌else◌,
}
use key_cloak_sdk.Values.{Num, num_le}

mutual
  pub data Value : Type 0 where
    undefined null : Value
    boolean : Bool → Value
    number : Num → Value
    string : Str → Value
    array : Elements → Value
    object : Members → Value

  pub data Elements : Type 0 where
    nil : Elements
    cons : Value → Elements → Elements

  -- Own enumerable properties, in insertion order.
  pub data Members : Type 0 where
    end : Members
    member : Str → Value → Members → Members

-- `o[key]`: a key that is not an own property reads as `undefined`.
unfoldable pub get : Members → Str → Value
unfolding str_eq
get end key = undefined
get (member k v ms) key = if str_eq k key then v else get ms key

unfoldable pub elements : Elements → List Value
elements nil = []
elements (cons v vs) = v ∷ elements vs

-- `typeof v === 'string' ? v : undefined`
unfoldable pub string_or_undefined : Value → Option Str
string_or_undefined (string s) = some s
string_or_undefined _ = none

-- `typeof v === 'number' ? v : undefined`
unfoldable pub number_or_undefined : Value → Option Num
number_or_undefined (number n) = some n
number_or_undefined _ = none

-- `v === null || v === undefined`
unfoldable pub is_nullish : Value → Bool
is_nullish undefined = true
is_nullish null = true
is_nullish _ = false

-- `value?.[key]`: of the values of a parsed text, only an object has a member of its own.
unfoldable pub field : Value → Str → Value
field (object ms) key = get ms key
field v key = undefined

-- `a === b`, for values that come from two parsed texts: no array or object of one is that of the
-- other.
unfoldable pub strict_equal : Value → Value → Bool
unfolding str_eq
strict_equal undefined undefined = true
strict_equal null null = true
strict_equal (boolean true) (boolean b) = b
strict_equal (boolean false) (boolean b) = not b
strict_equal (number n) (number m) = num_le n m && num_le m n
strict_equal (string s) (string t) = str_eq s t
strict_equal _ _ = false

-- `Object.entries(o)`
unfoldable pub entries : Members → List (Str × Value)
entries end = []
entries (member k v ms) = (k, v) ∷ entries ms

-- The members of `v ?? {}`.
unfoldable pub members_of : Value → Members
members_of (object ms) = ms
members_of _ = end

-- The elements of `v ?? []`.
unfoldable pub elements_of : Value → List Value
unfolding elements
elements_of (array vs) = elements vs
elements_of _ = []

-- `list.includes(v)`, and `new Set(list).has(v)`
unfoldable pub has : List Value → Value → Bool
unfolding strict_equal
has [] v = false
has (w ∷ ws) v = let later = has ws v in if strict_equal w v then true else later
