-- ===== src/Errors/Mapping.antt =====
-- Which exception an HTTP status becomes.
use key_cloak_sdk.Common.{ℕ, ◌≡◌, ◌≢◌, ◌↔◌, arith, Str}
use key_cloak_sdk.Errors.{
  Thrown, other, object, ErrorClass, sdk, plain, admin, not_found, conflict, forbidden,
  map_http_error,
}

-- The class of a thrown value; a value that is no object has none, like a plain object.
abbrev pub class_of : Thrown → ErrorClass
class_of (other v) = plain
class_of (object f c) = f.class

-- An HTTP status is mapped to `KeycloakNotFoundError` exactly when it is 404, to
-- `KeycloakConflictError` exactly when it is 409, to `KeycloakForbiddenError` exactly when it is
-- 403, and to the general `KeycloakAdminError` exactly when it is none of these.
pub map_http_error_classes :
    (status : ℕ) (message : Str) (cause : Thrown)
    → let c = class_of (map_http_error status message cause) in
      ((c ≡ sdk not_found) ↔ (status ≡ 404))
      × ((c ≡ sdk conflict) ↔ (status ≡ 409))
      × ((c ≡ sdk forbidden) ↔ (status ≡ 403))
      × ((c ≡ sdk admin) ↔ ((status ≢ 404) × (status ≢ 409) × (status ≢ 403)))
unfolding map_http_error
map_http_error_classes status message cause = ground arith
