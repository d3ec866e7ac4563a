-- ===== src/Config/Masking.antt =====
-- The masked form of a configuration.
use key_cloak_sdk.Common.{◌≡◌, refl, some, Str, lit}
use key_cloak_sdk.Config.{KeycloakConfig, masked, mask}

-- What is logged of a configuration does not depend on the client secret, only on whether there
-- is one; with the secret put back it is the configuration again, so no other field is hidden.
pub masked_hides :
    (c : KeycloakConfig) (s t : Str)
    → (masked (record c { client_secret = some s }) ≡ masked (record c { client_secret = some t }))
      × ((masked (record c { client_secret = some s })).client_secret ≡ some (lit "***"))
      × (record (masked c) { client_secret = c.client_secret } ≡ c)
unfolding masked mask
masked_hides c s t = (refl, refl, refl)
