-- ===== src/Admin/Clients.antt =====
-- node/src/admin/clients.ts: clients; `id` is the internal id of a client.
use key_cloak_sdk.Common.{some, [], ◌∷◌, ◌++◌, Str, lit}
use key_cloak_sdk.Values.Json.{Value, object, string, Members, end}
use key_cloak_sdk.AdminPath.{admin_path}
use key_cloak_sdk.Admin.Platform.{Platform, M, ◌>>=◌, lift}
use key_cloak_sdk.Admin.Http.{AdminHttp, omit, spread_with, or_empty}
use key_cloak_sdk.Admin.Http
use key_cloak_sdk.Admin.Call.{call, require_found}

module _ {W : Type 0} (p : Platform W) (http : AdminHttp) (realm : Str) where
  -- `ClientsResource.create(representation)`
  unfoldable pub create : Members → M W Str
  create representation = call (do
    path ← lift (admin_path (some realm ∷ some (lit "clients") ∷ some [] ∷ []))
    Http.create p http path (
        object (omit (spread_with representation (lit "realm") (string realm)) (lit "realm" ∷ []))))

  -- `ClientsResource.get(id)`
  unfoldable pub get : Str → M W Value
  get id = do
    value ← call (do
      path ← lift (admin_path (some realm ∷ some (lit "clients") ∷ some id ∷ []))
      Http.read_one p http path)
    lift (require_found value (lit "Client not found: " ++ id))

  -- `ClientsResource.findByClientId(clientId)`
  unfoldable pub find_by_client_id : Str → M W Value
  find_by_client_id client_id = call (do
    path ← lift (admin_path (some realm ∷ some (lit "clients") ∷ some [] ∷ []))
    Http.read p http path ((lit "clientId", string client_id) ∷ []))

  -- `ClientsResource.update(id, representation)`
  unfoldable pub update : Str → Value → M W (Unit {0})
  update id representation = call (do
    path ← lift (admin_path (some realm ∷ some (lit "clients") ∷ some id ∷ []))
    Http.write p http (lit "PUT") path (or_empty representation))

  -- `ClientsResource.delete(id)`
  unfoldable pub delete : Str → M W (Unit {0})
  delete id = call (do
    path ← lift (admin_path (some realm ∷ some (lit "clients") ∷ some id ∷ []))
    Http.write p http (lit "DELETE") path (object end))
