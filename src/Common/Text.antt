-- ===== src/Common/Text.antt =====
-- Text as JavaScript has it: a list of UTF-16 code units.
use Prim.Native.Nat.{ℕ, zero, suc, ◌+◌, ◌/◌, ◌%◌}
use Prim.Native.Char.{code}
use Prim.Native.String.{String}
use mathlib.Core.Path.{◌≡◌, refl, ap₂}
use mathlib.Core.Logic.{◌↔◌}
use mathlib.Core.Bool.{Bool, true, false, ◌&&◌, ◌||◌}
use mathlib.Core.List.{List, [], ◌∷◌, ◌++◌}
use native.Mathlib.Omega.{arith}
use key_cloak_sdk.Common.Logic.{◌==◌, ==_iff, ==_refl, and-eq-true, ltb, if◌then◌else◌}

abbrev pub Str : Type 0
Str = List ℕ

-- A literal of the source; every literal used is in the basic plane, whose code points are its code units.
abbrev pub lit : String → Str
lit String.[] = []
lit (String.◌∷◌ c s) = code c ∷ lit s

-- `s === t`
unfoldable pub str_eq : Str → Str → Bool
str_eq [] [] = true
str_eq [] (d ∷ t) = false
str_eq (c ∷ s) [] = false
str_eq (c ∷ s) (d ∷ t) = (c == d) && str_eq s t

str_eq_sound : (s t : Str) → str_eq s t ≡ true → s ≡ t
unfolding str_eq
str_eq_sound [] [] h = refl
str_eq_sound [] (d ∷ t) h = cc
str_eq_sound (c ∷ s) [] h = cc
str_eq_sound (c ∷ s) (d ∷ t) h =
    let (here, later) = and-eq-true (c == d) (str_eq s t) h in
    ap₂ (λ a b. a ∷ b) ((==_iff c d).0 here) (str_eq_sound s t later)

pub str_eq_refl : (s : Str) → str_eq s s ≡ true
unfolding str_eq
str_eq_refl [] = refl
str_eq_refl (c ∷ s) = ground (arith, ==_refl c, str_eq_refl s)

pub str_eq_iff : (s t : Str) → (str_eq s t ≡ true) ↔ (s ≡ t)
str_eq_iff s t = (str_eq_sound s t, λ e. rw e (str_eq_refl t))

-- `list.includes(s)`
unfoldable pub includes : List Str → Str → Bool
unfolding str_eq
includes [] s = false
includes (x ∷ xs) s = str_eq x s || includes xs s

-- `s.startsWith(p)`
unfoldable pub starts_with : Str → Str → Bool
starts_with s [] = true
starts_with [] (d ∷ p) = false
starts_with (c ∷ s) (d ∷ p) = (c == d) && starts_with s p

-- The tail of `parts.join(sep)`: each further part behind a separator.
unfoldable pub join_rest : Str → List Str → Str
join_rest sep [] = []
join_rest sep (p ∷ ps) = sep ++ (p ++ join_rest sep ps)

-- `parts.join(sep)`
unfoldable pub join : Str → List Str → Str
unfolding join_rest
join sep [] = []
join sep (p ∷ ps) = p ++ join_rest sep ps

-- Decimal digits, the last first.
digits_of : ℕ → ℕ → Str → Str
digits_of zero n acc = acc
digits_of (suc f) n acc =
    let longer = digits_of f (n / 10) ((48 + n % 10) ∷ acc) in
    if ltb n 10 then (48 + n % 10) ∷ acc else longer

-- `String(n)` of a whole number: a number has at most as many digits as its value plus one.
unfoldable pub show : ℕ → Str
unfolding digits_of
show n = digits_of (n + 1) n []

show_runs : show 2147483647 ≡ lit "2147483647"
unfolding show
show_runs = refl
