-- ===== src/Admin/Roles.antt =====
-- node/src/admin/roles.ts: realm roles, addressed by name.
use key_cloak_sdk.Common.{some, [], ◌∷◌, ◌++◌, Str, lit}
use key_cloak_sdk.Values.Json.{Value, object, string, Members, end}
use key_cloak_sdk.AdminPath.{admin_path}
use key_cloak_sdk.Admin.Platform.{Platform, M, ◌>>=◌, pure, lift}
use key_cloak_sdk.Admin.Http.{AdminHttp, omit, spread_with, or_empty}
use key_cloak_sdk.Admin.Http
use key_cloak_sdk.Admin.Call.{call, require_found}

module _ {W : Type 0} (p : Platform W) (http : AdminHttp) (realm : Str) where
  -- `RolesResource.create(representation)`: the id is required and dropped.
  unfoldable pub create : Members → M W (Unit {0})
  create representation = do
    _ ← call (do
      path ← lift (admin_path (some realm ∷ some (lit "roles") ∷ []))
      Http.create p http path (
          object
            (omit (spread_with representation (lit "realm") (string realm)) (lit "realm" ∷ []))))
    pure tt

  -- `RolesResource.get(name)`
  unfoldable pub get : Str → M W Value
  get name = do
    value ← call (do
      path ← lift (admin_path (some realm ∷ some (lit "roles") ∷ some name ∷ []))
      Http.read_one p http path)
    lift (require_found value (lit "Role not found: " ++ name))

  -- `RolesResource.list()`
  unfoldable pub list : M W Value
  list =
      call (do
        path ← lift (admin_path (some realm ∷ some (lit "roles") ∷ []))
        Http.read p http path [])

  -- `RolesResource.update(name, representation)`
  unfoldable pub update : Str → Value → M W (Unit {0})
  update name representation = call (do
    path ← lift (admin_path (some realm ∷ some (lit "roles") ∷ some name ∷ []))
    Http.write p http (lit "PUT") path (or_empty representation))

  -- `RolesResource.delete(name)`
  unfoldable pub delete : Str → M W (Unit {0})
  delete name = call (do
    path ← lift (admin_path (some realm ∷ some (lit "roles") ∷ some name ∷ []))
    Http.write p http (lit "DELETE") path (object end))
