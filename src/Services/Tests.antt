-- ===== src/Services/Tests.antt =====
-- The services at concrete requests.
mod Servers
use sockchat.Prelude.{
  String, ◌≡◌, ◌⊎◌, refl, true, false, Option, none, some, List, [], ◌∷◌, ◌==◌, string_key, nat_key,
  All,
}
use sockchat.Prelude.GoMap
use sockchat.Api.Effects.{Result, ok, err}
use sockchat.Api.Json.{Json, obj, field, str, end}
use sockchat.Api.Structs.{pos, MessageEvent, CreateProfileRequest}
use sockchat.Api.WsMessages.{SocketMessage}
use sockchat.Api.Serialization.{
  unmarshal_create_profile_request, unmarshal_edit_profile_request, json_error,
}
use sockchat.ChannelStore.Tests.{diary, lobby, ann}
use sockchat.Users.{
  ConnectedUsersPool, new_connected_users_pool, channel_request, make_request, replied,
}
use sockchat.Users.Online.{is_open_for}
use sockchat.Users.Histories.{new-Tracks}
use sockchat.Profiles.Tests.{test_service, empty_cache, works}
use sockchat.Profiles.Tests.Stores.{test_users, test_redis, test_bcrypt, test_users-IsTable, row_of}
use sockchat.Profiles.Coherence.{profile_or_error}
use sockchat.Profiles.Updates.{answer_create}
use sockchat.Services.Interfaces.{ProfileStore, profile_service}
use sockchat.Services.Messaging.{
  Session, Round, breaks, panics, failed, opened, serve_session, parse_websocket_message,
}
use sockchat.Services.Messaging.Requests.{parsed-Answered}
use sockchat.Services.Messaging.Sessions.{LeavesAlone, IsCleared, serve_session-Closes}
use sockchat.Services.Authentication.{decode_token, basic_auth}
use sockchat.Services.Authentication.Tokens.{
  decode_token-join, decode_token-join, basic_auth-decode_token, join,
}
use sockchat.Services.Web.{
  Request, returns, auth_middleware, edit_profile_handler, get_profile_handler, register_handler,
  parse_request,
}
use sockchat.Services.Web.Guards.{
  Guards, verdict, auth_middleware-Guards, edits, edit_profile_handler-own,
}
use sockchat.Services.Web.Responses.{
  seen, read_answer, unwritten, get_profile_handler-answers, registered, register_handler-answers,
  Panics, malformed-Panics,
}
use sockchat.Services.Grpc.{
  Context, auth_interceptor, is_protected, token_from_ctx, edit_profile_method, get_profile_method,
}
use sockchat.Services.Grpc.Statuses as Rpc

-- Everybody's password is "secret".
abbrev one_password : ProfileStore (Unit {0})
one_password = record {
  create = λ u s. (ok tt, s);
  edit = λ nick u s. (ok tt, s);
  is_auth_valid = λ nick password s. (password == "secret", s);
  get_profile = λ nick s. (ok (record { nick = nick; description = "" }), s);
}

abbrev join_lobby : SocketMessage
join_lobby = record { action = "join"; payload = obj (field "name" (str "lobby") end) }

joins : parse_websocket_message join_lobby ≡ ok (channel_request (record { name = "lobby" }))
unfolding parse_websocket_message
joins = refl

abbrev empty_pool : ConnectedUsersPool (List MessageEvent)
empty_pool = new_connected_users_pool lobby

parsed-Answered_example :
    (r : Result (Unit {0})) × ((make_request diary ann "join"
        (channel_request (record { name = "lobby" }))
        (pos 7)
        empty_pool).0
      ≡ replied r)
parsed-Answered_example =
    parsed-Answered diary ann (pos 7) empty_pool join_lobby
      (channel_request (record { name = "lobby" })) joins

abbrev log_in : SocketMessage
log_in = record {
  action = "login";
  payload = obj (field "nick" (str "cy") (field "password" (str "secret") end));
}

abbrev new_session : Session (List MessageEvent) (Unit {0})
new_session = opened diary one_password 60 5 3 empty_pool tt

-- A login, and then a request to join a channel.
abbrev frame : SocketMessage → Json
frame m = obj (field "action" (str m.action) (field "payload" m.payload end))

abbrev rounds : List (Round (List MessageEvent))
rounds =
    record { frame = frame log_in; now = pos 7; between = λ p. p }
    ∷ record { frame = frame join_lobby; now = pos 8; between = λ p. p }
    ∷ []

undisturbed : All (LeavesAlone 3 diary one_password 60 5) rounds
undisturbed = (λ p online t. (online, t, λ n. refl), (λ p online t. (online, t, λ n. refl), tt))

nobody_at_3 : (n : String) → is_open_for [] 3 n ≡ false
unfolding is_open_for GoMap.get
nobody_at_3 n = refl

serve_session-Closes_example :
    let (next, t) = serve_session diary one_password 60 5 3 rounds failed empty_pool tt in
    ((next ≡ breaks) ⊎ (next ≡ panics))
    × (t.conn.closed ≡ true)
    × IsCleared 3 diary one_password 60 5 t.pool
serve_session-Closes_example =
    serve_session-Closes 3 diary one_password 60 5 rounds failed empty_pool tt [] (new-Tracks lobby)
      nobody_at_3 undisturbed

-- A decoder for tokens that are not encoded.
abbrev plain : String → Option String
plain text = some text

ann_token :
    decode_token plain "Basic ann:secret" ≡ ok (record { username = "ann"; password = "secret" })
unfolding decode_token
ann_token = refl

abbrev asks : Json → String → Request
asks body nick = record {
  authorization = "Basic ann:secret";
  body = some body;
  nick = nick;
  channel = "lobby";
  search = "";
}

abbrev news : Json
news = obj (field "description" (str "new") end)

auth_middleware-Guards_example :
    Guards one_password plain
      (get_profile_handler one_password)
      (asks news "ann")
      tt
      (verdict one_password plain (decode_token plain "Basic ann:secret") tt)
      (auth_middleware one_password plain
        (get_profile_handler one_password)
        (asks news "ann")
        (record { status = none; written = []; profiles = tt }))
auth_middleware-Guards_example =
    auth_middleware-Guards one_password plain (get_profile_handler one_password) (asks news "ann")
      tt

news_parsed :
    parse_request unmarshal_edit_profile_request (some news) ≡ ok (record { description = "new" })
unfolding unmarshal_edit_profile_request
news_parsed = refl

edit_profile_handler-own_example :
    auth_middleware one_password plain
      (edit_profile_handler one_password plain)
      (asks news "bob")
      (record { status = none; written = []; profiles = tt })
    ≡ edits one_password plain
        (asks news "bob")
        tt
        "ann"
        (record { description = "new" })
        (record { status = none; written = []; profiles = tt })
edit_profile_handler-own_example =
    edit_profile_handler-own one_password plain (asks news "bob") tt
      (record { username = "ann"; password = "secret" }) (record { description = "new" }) ann_token
      refl news_parsed

get_profile_handler-answers_example :
    seen (
      get_profile_handler
        (profile_service test_users test_redis test_bcrypt 5)
        (asks news "bob")
        (unwritten test_service))
    ≡ read_answer (
        profile_or_error test_users test_redis test_bcrypt row_of test_users-IsTable "bob"
          (row_of test_service.store "bob"))
get_profile_handler-answers_example =
    get_profile_handler-answers test_users test_redis test_bcrypt 5 test_service (asks news "bob")
      row_of test_users-IsTable (empty_cache row_of test_service.store) (works [] "bob")

abbrev bob_body : Json
bob_body = obj (field "nick" (str "bob") (field "password" (str "hunter2") end))

abbrev bob : CreateProfileRequest
bob = record { nick = "bob"; password = "hunter2"; description = "" }

bob_parsed : parse_request unmarshal_create_profile_request (some bob_body) ≡ ok bob
unfolding unmarshal_create_profile_request
bob_parsed = refl

register_handler-answers_example :
    seen (
      register_handler
        (profile_service test_users test_redis test_bcrypt 5)
        (asks bob_body "")
        (unwritten test_service))
    ≡ (let (code, body) =
          registered test_users test_redis test_bcrypt 5 test_service
            (asks bob_body "")
            bob
            (answer_create test_users test_redis test_bcrypt 5 bob test_service.store) in
        (returns, some code, body ∷ []))
register_handler-answers_example =
    register_handler-answers test_users test_redis test_bcrypt 5 test_service (asks bob_body "") bob
      bob_parsed

no_creation : parse_request unmarshal_create_profile_request (some (str "x")) ≡ err json_error
unfolding unmarshal_create_profile_request
no_creation = refl

no_edit : parse_request unmarshal_edit_profile_request (some (str "x")) ≡ err json_error
unfolding unmarshal_edit_profile_request
no_edit = refl

abbrev metadata : Context
metadata = some ("Basic ann:secret" ∷ [])

ann_metadata : token_from_ctx metadata ≡ ok "Basic ann:secret"
unfolding token_from_ctx
ann_metadata = refl

edit_profile_method-own_example :
    auth_interceptor one_password plain metadata "/sockchat.Sockchat/EditProfile"
      (edit_profile_method one_password plain metadata "new")
      tt
    ≡ Rpc.edits one_password plain "ann" "new" tt
edit_profile_method-own_example =
    Rpc.edit_profile_method-own one_password plain metadata "new" "Basic ann:secret"
      (record { username = "ann"; password = "secret" }) tt ann_metadata ann_token refl

decode_token-join_example :
    (decode_token plain "Basic ann:se:cret"
      ≡ ok (record { username = "ann"; password = "se:cret" }))
    × (basic_auth plain "Basic ann:se:cret" ≡ ("ann", "se:cret", true))
decode_token-join_example = decode_token-join plain "ann" "se:cret" "ann:se:cret" refl refl
