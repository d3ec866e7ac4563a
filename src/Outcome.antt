-- ===== src/Outcome.antt =====
-- A computation that returns a value or throws, and `await` on a promise that has settled.
use key_cloak_sdk.Common.{◌≡◌, ◌⊎◌, inl, inr, refl, Bool, true, false}
use key_cloak_sdk.Errors.{Thrown}

pub data Outcome {ℓ} (A : Type ℓ) : Type ℓ where
  ok : A → Outcome A
  raise : Thrown → Outcome A

-- `try { m } catch (e) { handler }`
abbrev pub catch {ℓ} : {A : Type ℓ} → Outcome A → (Thrown → Outcome A) → Outcome A
catch (ok a) handler = ok a
catch (raise e) handler = handler e

-- `if (!test) throw e`
abbrev pub require : Bool → Thrown → Outcome (Unit {0})
require false thrown = raise thrown
require true thrown = ok tt

-- What follows a computation is left out where it throws.
infixl 5 ◌>>=◌ ◌>>◌
abbrev pub ◌>>=◌ {ℓ κ} : {X : Type ℓ} {Y : Type κ} → Outcome X → (X → Outcome Y) → Outcome Y
raise thrown >>= rest = raise thrown
ok value >>= rest = rest value

abbrev pub ◌>>◌ {ℓ} : {Y : Type ℓ} → Outcome (Unit {0}) → Outcome Y → Outcome Y
first >> rest = first >>= λ unit. rest

-- A value of the whole is one that the rest gave for a value of the first.
pub >>=-eq-ok {ℓ κ} :
    {X : Type ℓ} {Y : Type κ} (first : Outcome X) (rest : X → Outcome Y) {y : Y}
    → (first >>= rest) ≡ ok y
    → (x : X) × (first ≡ ok x) × (rest x ≡ ok y)
>>=-eq-ok (raise thrown) rest whole = cc
>>=-eq-ok (ok x) rest whole = (x, refl, whole)

pub Outcome-cases {ℓ} :
    {A : Type ℓ} (o : Outcome A) → ((a : A) × (o ≡ ok a)) ⊎ ((e : Thrown) × (o ≡ raise e))
Outcome-cases (ok a) = inl (a, refl)
Outcome-cases (raise e) = inr (e, refl)
