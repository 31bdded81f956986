-- ===== src/Services/Tests/Servers.antt =====
-- The server's sessions, routes and APIs at concrete requests.
use sockchat.Prelude.{◌≡◌, refl, false, none, some, List, [], ◌∷◌, string_key, nat_key, ◌↔◌}
use sockchat.Prelude.GoMap
use sockchat.Api.Effects.{ok, completes}
use sockchat.Api.Json.{obj, field, str, end}
use sockchat.Api.Structs.{pos, MessageEvent, CreateProfileRequest}
use sockchat.Api.Serialization.{unmarshal_create_profile_request}
use sockchat.ChannelStore.Tests.{diary, lobby}
use sockchat.Services.Server.{
  Server, Client, new_server, accept, receive, Reach, here, next, opens, receives,
}
use sockchat.Services.Server.Logins.{Serves, reachable-Serves}
use sockchat.Services.Web.{Request, Handler, returns, parse_request}
use sockchat.Services.Grpc.{
  register_profile_method, responds, exits, Outcome, Context, token_from_ctx,
}
use sockchat.Services.Grpc.Calls.{
  serve_call, Reply, Breaks, call_method, get_profile, serve_call-guarded,
}
use sockchat.Services.Grpc.Statuses.{guarded, credentials}
use sockchat.Storage.Reports.{unavailable}
use sockchat.Services.Agreement.{over_http, message, registers_alike}
use sockchat.Services.Tests.{one_password, frame, log_in, plain}

abbrev start : Server (List MessageEvent) (Unit {0})
start = new_server lobby tt

abbrev connected : Server (List MessageEvent) (Unit {0})
connected = accept diary one_password 60 5 3 start

abbrev client : Client
client = record {
  conn = record { addr = 3; authorized = false; read_timeout = 5; closed = false };
  nick = "";
}

nobody_yet : GoMap.get 3 start.clients ≡ none
unfolding new_server GoMap.get
nobody_yet = refl

there : GoMap.get 3 connected.clients ≡ some client
unfolding accept new_server GoMap.get GoMap.set
there = refl

-- A connection opens and logs in.
logged_in :
    Reach diary one_password 60 5 start
      (receive diary one_password 60 5 3 (frame log_in) (pos 7) client connected)
logged_in =
    next (next here (opens 3 nobody_yet refl)) (receives 3 client (frame log_in) (pos 7) there refl)

reachable-Serves_example :
    Serves (receive diary one_password 60 5 3 (frame log_in) (pos 7) client connected) "cy"
reachable-Serves_example = reachable-Serves diary one_password 60 5 lobby tt "cy" logged_in

abbrev anonymous : Request
anonymous = record {
  authorization = "Basic ann:wrong";
  body = none;
  nick = "ann";
  channel = "";
  search = "";
}

-- A session that has ended.
abbrev session : Request → Handler (Unit {0})
session r x = (returns, x)

abbrev newcomer : Request
newcomer = record {
  authorization = "";
  body = some (obj (field "nick" (str "dan") (field "password" (str "pw") end)));
  nick = "";
  channel = "";
  search = "";
}

abbrev dan : CreateProfileRequest
dan = record { nick = "dan"; password = "pw"; description = "" }

newcomer_reads : parse_request unmarshal_create_profile_request newcomer.body ≡ ok dan
unfolding unmarshal_create_profile_request
newcomer_reads = refl

registers_alike_example :
    let (outcome, q) =
      register_profile_method one_password plain (message one_password plain newcomer tt dan) tt in
    ((over_http one_password plain newcomer tt dan).profiles ≡ q)
    × (((over_http one_password plain newcomer tt dan).status ≡ some 201)
        ↔ (outcome ≡ responds (record {})))
registers_alike_example = registers_alike one_password plain newcomer tt dan newcomer_reads refl

abbrev metadata : Context
metadata = some ("Basic ann:secret" ∷ [])

abbrev asked_profile : Outcome Reply × Unit {0}
asked_profile =
    serve_call one_password plain lobby (λ channel search. completes (ok [])) (λ text. none)
      (λ time. "") (λ query. unavailable) metadata (get_profile "bob") tt

serve_call-guarded_example :
    (asked_profile
      ≡ guarded one_password plain
          (credentials one_password plain (token_from_ctx metadata))
          (call_method one_password plain lobby
            (λ channel search. completes (ok []))
            (λ text. none)
            (λ time. "")
            (λ query. unavailable)
            metadata
            (get_profile "bob"))
          tt)
    × (asked_profile.0 ≡ exits
        → Breaks one_password plain lobby
            (λ channel search. completes (ok []))
            (λ text. none)
            (λ time. "")
            (λ query. unavailable)
            (get_profile "bob"))
serve_call-guarded_example =
    serve_call-guarded one_password plain lobby (λ channel search. completes (ok [])) (λ text. none)
      (λ time. "") (λ query. unavailable) metadata (get_profile "bob") tt
