-- ===== src/HarnessApp/Admin.antt =====
-- harness/apps/node/server.js: the routes of the admin API.
use key_cloak_sdk.Common.{true, none, some, List, [], ◌∷◌, Str, lit, if◌then◌else◌}
use key_cloak_sdk.Values.Json.{
  field, Value, undefined, boolean, string, array, object, Members, Elements, nil, cons, end,
  member, null, elements,
}
use key_cloak_sdk.Errors
use key_cloak_sdk.Errors.{Thrown, SdkError, type_error, no_cause}
use key_cloak_sdk.Outcome.{Outcome, ok, raise}
use key_cloak_sdk.Effects.{Eff, ◌>>=◌, pure, lift}
use key_cloak_sdk.HarnessApp.{
  Sdk, App, Reply, is_present, prop, json, fail, no_content, calls, or_fail, or_fail_as,
  not_readable,
}

-- `res.status(201).json({ [key]: value })`
unfoldable pub created : Str → Value → Reply
created key value = record { status = 201; body = some (object (member key value end)) }

unfoldable pub not_a_function : Thrown
not_a_function =
    Errors.object
      (record {
        class = type_error;
        name = string (lit "TypeError");
        message = lit "us.map is not a function";
        code = undefined;
        stack = none;
        status = none;
        response_data = undefined;
      })
      no_cause

-- `({ id: u.id, [key]: u[key] })`
unfoldable pub summary : Str → Value → Outcome Members
summary key u = elim (prop u (lit "id")) [
  | raise e ↦ raise e
  | ok id ↦ ok (member (lit "id") id (member key (field u key) end))
]

unfoldable pub summaries : List Value → Outcome Elements
unfolding summary
summaries [] = ok nil
summaries (u ∷ us) = elim (summary (lit "username") u) [
  | raise e ↦ raise e
  | ok ms ↦ elim (summaries us) [ raise e ↦ raise e | ok vs ↦ ok (cons (object ms) vs) ]
]

-- `us.map((u) => ({ id: u.id, username: u.username }))`
unfoldable pub mapped : Value → Outcome Elements
unfolding summaries
mapped (array vs) = summaries (elements vs)
mapped undefined = raise (not_readable (lit "undefined") (lit "map"))
mapped null = raise (not_readable (lit "null") (lit "map"))
mapped v = raise not_a_function

abbrev enabled : Members
enabled = member (lit "enabled") (boolean true) end

module _ {W : Type 0} (kc : Sdk W) where
  -- A creation that answers with the new id.
  unfoldable pub create_with_id : Eff W Str → Eff (App W) Reply
  create_with_id create =
      or_fail_as SdkError.conflict 409 500
        (do _ ← calls kc.admin; id ← calls create; pure (created (lit "id") (string id)))

  -- A single resource, with its id and one more member.
  unfoldable pub get_one : Str → Eff W Value → Eff (App W) Reply
  get_one key read =
      or_fail_as SdkError.not_found 404 500
        (do _ ← calls kc.admin; u ← calls read; ms ← lift (summary key u); pure (json ms))

  unfoldable pub delete_one : Eff W (Unit {0}) → Eff (App W) Reply
  delete_one delete =
      or_fail_as SdkError.not_found 404 500
        (do _ ← calls kc.admin; _ ← calls delete; pure no_content)

  -- `app.post('/admin/users', …)`
  unfoldable pub users_create : Value → Eff (App W) Reply
  users_create body =
      let answer = create_with_id (
        kc.users_create (
          member (lit "username") (field body (lit "username"))
            (member (lit "email") (field body (lit "email")) enabled))) in
      if is_present (field body (lit "username"))
      then answer
      else pure (fail 400 (string (lit "username required")))

  -- `app.get('/admin/users/:id', …)`
  unfoldable pub users_get : Str → Eff (App W) Reply
  users_get id = get_one (lit "username") (kc.users_get id)

  -- `app.get('/admin/users', …)`, for the query's `username`.
  unfoldable pub users_list : Value → Eff (App W) Reply
  users_list username = or_fail 500 (do
    _ ← calls kc.admin
    us ← calls (kc.users_search username 0 20)
    vs ← lift (mapped us)
    pure (record { status = 200; body = some (array vs) }))

  -- `app.delete('/admin/users/:id', …)`
  unfoldable pub users_delete : Str → Eff (App W) Reply
  users_delete id = delete_one (kc.users_delete id)

  -- `app.post('/admin/clients', …)`
  unfoldable pub clients_create : Value → Eff (App W) Reply
  clients_create body =
      create_with_id
        (kc.clients_create (member (lit "clientId") (field body (lit "clientId")) enabled))

  -- `app.get('/admin/clients/:id', …)`
  unfoldable pub clients_get : Str → Eff (App W) Reply
  clients_get id = get_one (lit "clientId") (kc.clients_get id)

  -- `app.delete('/admin/clients/:id', …)`
  unfoldable pub clients_delete : Str → Eff (App W) Reply
  clients_delete id = delete_one (kc.clients_delete id)

  -- `app.post('/admin/roles', …)`
  unfoldable pub roles_create : Value → Eff (App W) Reply
  roles_create body = or_fail_as SdkError.conflict 409 500 (do
    _ ← calls kc.admin
    _ ← calls (kc.roles_create (member (lit "name") (field body (lit "name")) end))
    pure (created (lit "name") (field body (lit "name"))))

  -- `app.get('/admin/roles/:name', …)`
  unfoldable pub roles_get : Str → Eff (App W) Reply
  roles_get name = or_fail_as SdkError.not_found 404 500 (do
    _ ← calls kc.admin
    r ← calls (kc.roles_get name)
    found ← lift (prop r (lit "name"))
    pure (json (member (lit "name") found end)))

  -- `app.delete('/admin/roles/:name', …)`
  unfoldable pub roles_delete : Str → Eff (App W) Reply
  roles_delete name = delete_one (kc.roles_delete name)

  -- `app.post('/admin/groups', …)`
  unfoldable pub groups_create : Value → Eff (App W) Reply
  groups_create body =
      create_with_id (kc.groups_create (member (lit "name") (field body (lit "name")) end))

  -- `app.get('/admin/groups/:id', …)`
  unfoldable pub groups_get : Str → Eff (App W) Reply
  groups_get id = get_one (lit "name") (kc.groups_get id)

  -- `app.delete('/admin/groups/:id', …)`
  unfoldable pub groups_delete : Str → Eff (App W) Reply
  groups_delete id = delete_one (kc.groups_delete id)

  -- `app.post('/admin/realms', …)`
  unfoldable pub realms_create : Value → Eff (App W) Reply
  realms_create body = or_fail_as SdkError.forbidden 403 500 (do
    _ ← calls kc.admin
    _ ← calls (kc.realms_create (member (lit "realm") (field body (lit "realm")) enabled))
    pure (created (lit "realm") (field body (lit "realm"))))
