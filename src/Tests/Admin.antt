-- ===== src/Tests/Admin.antt =====
-- A server that answers every request with 404.
use key_cloak_sdk.Admin.Users
use key_cloak_sdk.Values.Json
use key_cloak_sdk.Admin.Call.Laws.{IsFor, get_lem}
use key_cloak_sdk.Admin.Http.{
  AdminHttp, acknowledge, send, json_of, receive, receive_one, is_ok, get_token, fetch,
  network_error,
}
use key_cloak_sdk.Admin.Http.Laws.{IsBounded, IsContent, with_text, receive-IsBounded}
use key_cloak_sdk.Capped.{Stream}
use key_cloak_sdk.Admin.Platform.{Platform, Response, Session}
use key_cloak_sdk.AdminPath.{
  admin_path, segment_all, segment, encode_uri_component, encode_unit, prepend, replace_marks,
  escape_bytes, escape_byte, hex, utf8, code_point, is_unreserved, is_mark, is_lead, is_trail,
}
use key_cloak_sdk.Bearer.{
  sendable_bearer, trimmed, edge_start, edge_end, is_edge_at, is_edge, b64_token, b64_rest,
  b64_padding, is_b64,
}
use key_cloak_sdk.Common.{join, join_rest, lit, ℕ, ◌≡◌, refl, none, some, [], ◌++◌, Str, Option}
use key_cloak_sdk.Errors.{Thrown, not_found, sdk_error, no_cause}
use key_cloak_sdk.Outcome.{Outcome, ok, raise}
use key_cloak_sdk.Values.{whole}
use key_cloak_sdk.Values.Json.{
  undefined, Value, string, null, Members, end, member, get, object, array, is_nullish,
  string_or_undefined,
}

abbrev answered : ℕ → Response
answered status = record {
  status = status;
  url = lit "https://k";
  content_length = none;
  location = some (lit "https://k/users/1");
  body = none;
}

-- The world is the status that the server answers with.
abbrev platform : Platform ℕ
platform = record {
  token = λ w. (ok (lit "ab"), w);
  exchange = λ r w. (ok (answered w), w);
  text = λ body. ok [];
  pathname = λ url. ok (lit "/");
  href = λ url path query. path;
  query_text = λ query. [];
  value_text = λ v. [];
  stringify = λ v. some (lit "{}");
  parse_json = λ s. none;
  decode_utf8 = λ s. s;
  number_of = λ s. whole 0;
}

abbrev http : AdminHttp
http = record { server_url = lit "https://k"; timeout_ms = whole 30000 }

abbrev session : Session ℕ
session = record { outer = 404; sent = []; uses = [] }

abbrev after : Session ℕ
after = (send platform http (lit "GET") (lit "/admin/realms/r/users/1") [] undefined session).1

abbrev after_delete : Session ℕ
after_delete =
    (send platform http (lit "DELETE") (lit "/admin/realms/r/users/1") [] (Json.object Json.end)
      session).1

abbrev other_text : Option Stream → Outcome Str
other_text body = ok (lit "other")

receive-IsBounded_example :
    ((receive_one (with_text platform other_text) (answered 500) session
        ≡ receive_one platform (answered 500) session)
      × (receive (with_text platform other_text) (answered 500) session
          ≡ receive platform (answered 500) session)
      × (acknowledge (with_text platform other_text) (answered 500) session
          ≡ acknowledge platform (answered 500) session))
    × ((content : Value) × IsContent platform (answered 500) content
        × ((receive platform (answered 500) session).0
            ≡ raise (network_error (answered 500).status content))
        × ((acknowledge platform (answered 500) session).0
            ≡ raise (network_error (answered 500).status content)))
    × IsBounded session.uses (receive_one platform (answered 500) session).1.uses
    × IsBounded session.uses (receive platform (answered 500) session).1.uses
    × IsBounded session.uses (acknowledge platform (answered 500) session).1.uses
unfolding is_ok
receive-IsBounded_example = receive-IsBounded platform other_text (answered 500) session refl

get_lem_example :
    (e : Thrown) × ((Users.get platform http (lit "r") (lit "1") session).0 ≡ raise e)
    × IsFor (answered 404).status e
    × ((answered 404).status ≡ 404
        → e ≡ sdk_error not_found (lit "User not found: " ++ (lit "1")) no_cause)
unfolding admin_path segment_all segment encode_uri_component encode_unit prepend replace_marks
    escape_bytes escape_byte hex utf8 code_point is_unreserved is_mark is_lead is_trail join
    join_rest is_ok send get_token fetch json_of sendable_bearer trimmed edge_start edge_end
    is_edge_at is_edge b64_token b64_rest b64_padding is_b64
get_lem_example =
    get_lem platform http (lit "r") (lit "1") (lit "/admin/realms/r/users/1") (answered 404) session
      after refl refl refl
