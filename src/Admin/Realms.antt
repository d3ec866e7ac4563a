-- ===== src/Admin/Realms.antt =====
-- node/src/admin/realms.ts: realms, addressed by name; the resource is bound to none.
use key_cloak_sdk.Common.{some, [], ◌∷◌, ◌++◌, Str, lit}
use key_cloak_sdk.Values.Json.{Value, object, Members, end}
use key_cloak_sdk.AdminPath.{admin_path}
use key_cloak_sdk.Admin.Platform.{Platform, M, ◌>>=◌, pure, lift}
use key_cloak_sdk.Admin.Http.{AdminHttp, omit, spread_with, or_empty}
use key_cloak_sdk.Admin.Http
use key_cloak_sdk.Admin.Call.{call, require_found}

module _ {W : Type 0} (p : Platform W) (http : AdminHttp) where
  -- `RealmsResource.create(representation)`: the id is required and dropped. `omit(v, [])` of the
  -- object is its own properties.
  unfoldable pub create : Members → M W (Unit {0})
  create representation = do
    _ ← call (do
      path ← lift (admin_path (some [] ∷ []))
      Http.create p http path (object (omit representation [])))
    pure tt

  -- `RealmsResource.get(realm_name)`
  unfoldable pub get : Str → M W Value
  get realm_name = do
    value ← call (do path ← lift (admin_path (some realm_name ∷ [])); Http.read_one p http path)
    lift (require_found value (lit "Realm not found: " ++ realm_name))

  -- `RealmsResource.list()`
  unfoldable pub list : M W Value
  list = call (do path ← lift (admin_path (some [] ∷ [])); Http.read p http path [])

  -- `RealmsResource.update(realm_name, representation)`
  unfoldable pub update : Str → Value → M W (Unit {0})
  update realm_name representation = call (do
    path ← lift (admin_path (some realm_name ∷ []))
    Http.write p http (lit "PUT") path (or_empty representation))

  -- `RealmsResource.delete(realm_name)`
  unfoldable pub delete : Str → M W (Unit {0})
  delete realm_name = call (do
    path ← lift (admin_path (some realm_name ∷ []))
    Http.write p http (lit "DELETE") path (object end))
