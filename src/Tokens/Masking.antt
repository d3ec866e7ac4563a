-- ===== src/Tokens/Masking.antt =====
-- What is logged of a token set.
use key_cloak_sdk.Common.{◌≡◌, refl, Option, Str}
use key_cloak_sdk.Values.{Num}
use key_cloak_sdk.Tokens.{TokenSet, to_json, masked_text}

-- Neither the JSON form nor the text of a token set depends on its access token, its refresh
-- token or its id token, or on whether it has the last two.
pub token_set_hides :
    (number_text : Num → Str) (t : TokenSet) (access : Str) (refresh id : Option Str)
    → let u = record t { access_token = access; refresh_token = refresh; id_token = id } in
      (to_json u ≡ to_json t) × (masked_text number_text u ≡ masked_text number_text t)
unfolding to_json masked_text
token_set_hides number_text t access refresh id = (refl, refl)
