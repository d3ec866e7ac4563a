-- ===== src/Admin/Groups.antt =====
-- node/src/admin/groups.ts: groups.
use key_cloak_sdk.Common.{Option, some, [], ◌∷◌, ◌++◌, Str, lit, or_default}
use key_cloak_sdk.Values.{Num, whole}
use key_cloak_sdk.Values.Json.{Value, object, number, string, Members, end}
use key_cloak_sdk.AdminPath.{admin_path}
use key_cloak_sdk.Admin.Platform.{Platform, M, ◌>>=◌, lift}
use key_cloak_sdk.Admin.Http.{AdminHttp, omit, spread_with, or_empty}
use key_cloak_sdk.Admin.Http
use key_cloak_sdk.Admin.Call.{call, require_found}

module _ {W : Type 0} (p : Platform W) (http : AdminHttp) (realm : Str) where
  -- `GroupsResource.create(representation)`
  unfoldable pub create : Members → M W Str
  create representation = call (do
    path ← lift (admin_path (some realm ∷ some (lit "groups") ∷ some [] ∷ []))
    Http.create p http path (
        object (omit (spread_with representation (lit "realm") (string realm)) (lit "realm" ∷ []))))

  -- `GroupsResource.get(id)`
  unfoldable pub get : Str → M W Value
  get id = do
    value ← call (do
      path ← lift (admin_path (some realm ∷ some (lit "groups") ∷ some id ∷ []))
      Http.read_one p http path)
    lift (require_found value (lit "Group not found: " ++ id))

  -- `GroupsResource.list(first, max)`, with its defaults.
  unfoldable pub list : Option Num → Option Num → M W Value
  list first max = call (do
    path ← lift (admin_path (some realm ∷ some (lit "groups") ∷ some [] ∷ []))
    Http.read p http path (
        (lit "first", number (or_default first (whole 0)))
        ∷ (lit "max", number (or_default max (whole 100)))
        ∷ []))

  -- `GroupsResource.update(id, representation)`
  unfoldable pub update : Str → Value → M W (Unit {0})
  update id representation = call (do
    path ← lift (admin_path (some realm ∷ some (lit "groups") ∷ some id ∷ []))
    Http.write p http (lit "PUT") path (or_empty representation))

  -- `GroupsResource.delete(id)`
  unfoldable pub delete : Str → M W (Unit {0})
  delete id = call (do
    path ← lift (admin_path (some realm ∷ some (lit "groups") ∷ some id ∷ []))
    Http.write p http (lit "DELETE") path (object end))
