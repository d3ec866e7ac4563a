-- ===== src/Effects.antt =====
-- Computations that change the world outside and may throw: `W` is any type of its states.
use key_cloak_sdk.Errors.{Thrown}
use key_cloak_sdk.Outcome.{Outcome, ok, raise}

abbrev pub Eff : Type 0 → Type 0 → Type 0
Eff W A = W → Outcome A × W

abbrev pub bind_result : {W A B : Type 0} → Outcome A × W → (A → Eff W B) → Outcome B × W
bind_result (ok a, w) f = f a w
bind_result (raise e, w) f = (raise e, w)

abbrev pub catch_result : {W A : Type 0} → Outcome A × W → (Thrown → Eff W A) → Outcome A × W
catch_result (ok a, w) handler = (ok a, w)
catch_result (raise e, w) handler = handler e w

infixl 5 ◌>>=◌ ◌>>◌
abbrev pub ◌>>=◌ : {W A B : Type 0} → Eff W A → (A → Eff W B) → Eff W B
◌>>=◌ m f w = bind_result (m w) f

abbrev pub ◌>>◌ : {W B : Type 0} → Eff W (Unit {0}) → Eff W B → Eff W B
m >> k = m >>= λ _. k

abbrev pub pure : {W A : Type 0} → A → Eff W A
pure a w = (ok a, w)

abbrev pub throw : {W A : Type 0} → Thrown → Eff W A
throw e w = (raise e, w)

abbrev pub lift : {W A : Type 0} → Outcome A → Eff W A
lift o w = (o, w)

-- `try { m } catch (e) { handler(e) }`
abbrev pub attempt : {W A : Type 0} → Eff W A → (Thrown → Eff W A) → Eff W A
attempt m handler w = catch_result (m w) handler
