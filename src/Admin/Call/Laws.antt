-- ===== src/Admin/Call/Laws.antt =====
-- What the admin operations raise for a response that is no success.
use key_cloak_sdk.Common.{
  ℕ, ◌≡◌, ◌≢◌, ◌↔◌, refl, false, some, [], ◌∷◌, ◌++◌, Str, lit, arith, ◌==◌, Bool-cases, inl, inr,
}
use key_cloak_sdk.Values.Json
use key_cloak_sdk.Values.Json.{Value, undefined, string, null}
use key_cloak_sdk.Errors.{
  Thrown, sdk, not_found, conflict, forbidden, admin, sdk_error, no_cause, map_http_error,
}
use key_cloak_sdk.Errors.Mapping.{class_of, map_http_error_classes}
use key_cloak_sdk.Outcome.{ok, raise}
use key_cloak_sdk.AdminPath.{admin_path}
use key_cloak_sdk.Admin.Platform.{Platform, Response, Session}
use key_cloak_sdk.Admin.Http.{
  AdminHttp, network_error, is_ok, send, receive, receive_one, acknowledge, read_one, write,
}
use key_cloak_sdk.Admin.Http.Laws.{reject_lem, error_body-IsBounded}
use key_cloak_sdk.Admin.Call.{call, converted, require_found, message_of, status_of}
use key_cloak_sdk.Admin.Users

-- The exception's class is the one that belongs to the HTTP status.
abbrev pub IsFor : ℕ → Thrown → Type 0
IsFor status e =
    ((class_of e ≡ sdk not_found) ↔ (status ≡ 404))
    × ((class_of e ≡ sdk conflict) ↔ (status ≡ 409))
    × ((class_of e ≡ sdk forbidden) ↔ (status ≡ 403))
    × ((class_of e ≡ sdk admin) ↔ ((status ≢ 404) × (status ≢ 409) × (status ≢ 403)))

converted-network_error :
    (status : ℕ) (content : Value) → IsFor status (converted (network_error status content))
unfolding converted network_error status_of
converted-network_error status content =
    map_http_error_classes status (message_of (network_error status content))
      (network_error status content)

module _ {W : Type 0} (p : Platform W) where
  -- Deleting a user whose request is answered with a status that is no success raises the exception
  -- that belongs to the status.
  pub delete_lem :
      (http : AdminHttp) (realm id path : Str) (res : Response) (s t : Session W)
      → admin_path (some realm ∷ some (lit "users") ∷ some id ∷ []) ≡ ok path
      → send p http (lit "DELETE") path [] (Json.object Json.end) s ≡ (ok res, t)
      → is_ok res.status ≡ false
      → (e : Thrown) × ((Users.delete p http realm id s).0 ≡ raise e) × IsFor res.status e
  unfolding Users.delete write call converted acknowledge status_of
  delete_lem http realm id path res s t named sent failed =
      let (content, r) = reject_lem p Unit res t in
      (
        converted (network_error res.status content),
        rw (named, sent, failed, r) refl,
        converted-network_error res.status content,
      )

  -- Getting a user whose request is answered with 404 raises "User not found" with the id; any other
  -- status that is no success raises the exception that belongs to it.
  pub get_lem :
      (http : AdminHttp) (realm id path : Str) (res : Response) (s t : Session W)
      → admin_path (some realm ∷ some (lit "users") ∷ some id ∷ []) ≡ ok path
      → send p http (lit "GET") path [] undefined s ≡ (ok res, t)
      → is_ok res.status ≡ false
      → (e : Thrown) × ((Users.get p http realm id s).0 ≡ raise e)
        × IsFor res.status e
        × (res.status ≡ 404 → e ≡ sdk_error not_found (lit "User not found: " ++ id) no_cause)
  unfolding Users.get read_one call converted receive_one receive status_of require_found
      Json.is_nullish sdk_error map_http_error
  get_lem http realm id path res s t named sent failed = elim (Bool-cases (res.status == 404)) [
    | inl missing ↦
        let (v, u, read, bounded) = error_body-IsBounded p res t in
        let e : res.status ≡ 404 = ground arith in
        (
          sdk_error not_found (lit "User not found: " ++ id) no_cause,
          rw (named, read_one, sent, missing, receive_one, read, call, require_found) refl,
          rw e (map_http_error_classes 404 [] no_cause),
          λ _. refl,
        )
    | inr other ↦
        let (content, r) = reject_lem p Value res t in
        (
          converted (network_error res.status content),
          rw (named, read_one, sent, other, failed, receive_one, receive, r, call) refl,
          converted-network_error res.status content,
          λ missing. absurd (ground arith),
        )
  ]
