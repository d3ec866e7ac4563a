-- ===== src/RepoConfig/Canonical/Order.antt =====
-- The order of texts by code units.
use key_cloak_sdk.Common.{◌≡◌, ◌⊎◌, inl, inr, refl, true, [], ◌∷◌, Str, arith}
use key_cloak_sdk.RepoConfig.Canonical.{str_le}

pub str_le_total : (s t : Str) → (str_le s t ≡ true) ⊎ (str_le t s ≡ true)
unfolding str_le
str_le_total [] t = inl refl
str_le_total (c ∷ s) [] = inr refl
str_le_total (c ∷ s) (d ∷ t) = ground (arith, str_le_total s t)

pub str_le_trans : (s t u : Str) → str_le s t ≡ true → str_le t u ≡ true → str_le s u ≡ true
unfolding str_le
str_le_trans [] t u h k = refl
str_le_trans (c ∷ s) [] u h k = cc
str_le_trans (c ∷ s) (d ∷ t) [] h k = cc
str_le_trans (c ∷ s) (d ∷ t) (e ∷ u) h k = ground (arith, str_le_trans s t u)

pub str_le_antisym : (s t : Str) → str_le s t ≡ true → str_le t s ≡ true → s ≡ t
unfolding str_le
str_le_antisym [] [] h k = refl
str_le_antisym [] (d ∷ t) h k = cc
str_le_antisym (c ∷ s) [] h k = cc
str_le_antisym (c ∷ s) (d ∷ t) h k = ground (arith, str_le_antisym s t)
