-- ===== src/Services/Messaging.antt =====
-- services/messaging.go: a websocket session, from its first message to the end of its connection.
pub mod Requests
pub mod Logins
pub mod Frames
pub mod Turns
pub mod Sessions
use sockchat.Prelude.{
  ℕ, String, Bool, true, false, ◌||◌, Option, none, some, List, [], ◌∷◌, ◌++◌, ◌==◌, if◌then◌else◌,
  string_key,
}
use Prim.Native.String as Text
use sockchat.Api.Errors.{Error, error_text, err_invalid_request, other}
use sockchat.Api.Effects.{Result, ok, err}
use sockchat.Api.Json.{
  Json, Fields, end, field, malformed, null, obj, equal_fold, string_field, empty_string,
}
use sockchat.Api.Structs.{
  ℤ, LoginRequest, PublicProfile, login_action, create_action, join_action, leave_action,
  send_message_action,
}
use sockchat.Api.WsMessages.{SocketMessage, text, new_socket_message, new_socket_error}
use sockchat.Api.Serialization.{
  unmarshal_login_request, unmarshal_channel_request, unmarshal_message_request,
}
use sockchat.ChannelStore.{MessageStore}
use sockchat.Users.{
  ConnectedUsersPool, RequestPayload, channel_request, send_message_request, Reply, replied, never,
  panicked, get_handler, add_connection, remove_connection, make_request,
}
use sockchat.Services.Interfaces.{ProfileStore}

-- The connection, known by its address; `read_timeout` is the timeout that its read deadline was last
-- set by.
pub record SockChatWs : Type 0 where
  pub addr : ℕ
  pub authorized : Bool
  pub read_timeout : ℕ
  pub closed : Bool

-- A session with the state that it shares with the others.
pub record Session (S P : Type 0) : Type 0 where
  pub conn : SockChatWs
  pub nick : String
  pub pool : ConnectedUsersPool S
  pub profiles : P

-- What a turn of the loop does: it goes on, it leaves the loop, a nil pointer or a type assertion
-- panics, or it waits forever.
pub data Next : Type 0 where
  continues breaks panics hangs : Next

-- Why there is no further message.
pub data Ending : Type 0 where
  timed_out failed : Ending

-- A message that arrives, the time at which it is served, and what the other sessions and goroutines
-- have done to the pool since the last one.
pub record Round (S : Type 0) : Type 0 where
  pub frame : Json
  pub now : ℤ
  pub between : ConnectedUsersPool S → ConnectedUsersPool S

-- A field of type `json.RawMessage`: its text as it is.
unfoldable raw_field : String → Fields → Json → Json
unfolding equal_fold
raw_field name end value = value
raw_field name (field key value rest) old =
    raw_field name rest (if equal_fold key name then value else old)

-- `json.Unmarshal(msgBytes, &msg)`, whose error is dropped: `null` makes the pointer nil, and what is
-- no object leaves the empty message, whose payload is no JSON.
unfoldable pub unmarshal_socket_message : Json → Option SocketMessage
unfolding string_field raw_field
unmarshal_socket_message null = none
unmarshal_socket_message (obj fields) = some (record {
  action = (string_field "action" fields empty_string).0;
  payload = raw_field "payload" fields malformed;
})
unmarshal_socket_message _ = some (record { action = ""; payload = malformed })

unfoldable pub parse_websocket_message : SocketMessage → Result RequestPayload
unfolding unmarshal_channel_request unmarshal_message_request
parse_websocket_message msg =
    if msg.action == create_action || (msg.action == join_action || msg.action == leave_action)
    then elim (unmarshal_channel_request msg.payload) [
      | ok r ↦ ok (channel_request r)
      | err e ↦ err e
    ]
    else if msg.action == send_message_action
    then elim (unmarshal_message_request msg.payload) [
      | ok r ↦ ok (send_message_request r)
      | err e ↦ err e
    ]
    else err (other (error_text err_invalid_request))

abbrev must_log_in : Error
must_log_in = other "you must log in first using login action"

abbrev login_rejected : Error
login_rejected = other "login rejected: invalid credentials"

module _ {S P : Type 0} where
  unfoldable pub write_socket_msg : SocketMessage → Session S P → Session S P
  write_socket_msg m s =
      let p = s.pool in record s { pool = record p { sent = p.sent ++ (s.conn.addr, m) ∷ [] } }

  abbrev pub set_read_deadline : ℕ → Session S P → Session S P
  set_read_deadline timeout s =
      let c = s.conn in record s { conn = record c { read_timeout = timeout } }

  -- A read that fails.
  unfoldable pub read_error : Ending → Session S P → Session S P
  unfolding write_socket_msg new_socket_message
  read_error timed_out s =
      write_socket_msg (new_socket_message "connection_timed_out" (text "{}")) s
  read_error failed s = s

  unfoldable pub shut_connection : Session S P → Session S P
  unfolding remove_connection
  shut_connection s =
      let c = s.conn in
      let p = if c.authorized then remove_connection c.addr s.pool else s.pool in
      record s { pool = p; conn = record c { closed = true } }

module _ {S P : Type 0} (store : MessageStore S) (user_profiles : ProfileStore P)
    (timeout_authorized timeout_unauthorized : ℕ) where
  unfoldable pub login_user : LoginRequest → P → Result PublicProfile × P
  login_user req p =
      let (valid, q) = user_profiles.is_auth_valid req.nick req.password p in
      (if valid then ok (record { nick = req.nick; description = "" }) else err login_rejected, q)

  -- What a login that is accepted does.
  unfoldable pub log_in : String → Session S P → Session S P
  unfolding add_connection write_socket_msg new_socket_message
  log_in nick s =
      let c = s.conn in
      set_read_deadline timeout_authorized (
        write_socket_msg (new_socket_message (Text.◌++◌ "logged_in:" nick) (text "{}")) (record s {
          conn = record c { authorized = true };
          pool = add_connection c.addr nick s.pool;
        }))

  unfoldable pub authorize_connection : SocketMessage → Session S P → Result String × Session S P
  unfolding login_user unmarshal_login_request log_in
  authorize_connection request s =
      if request.action == login_action
      then elim (unmarshal_login_request request.payload) [
        | err _ ↦ (err err_invalid_request, s)
        | ok req ↦
            let (u, q) = login_user req s.profiles in
            let t = record s { profiles = q } in
            elim u [ err e ↦ (err e, t) | ok profile ↦ (ok req.nick, log_in profile.nick t) ]
      ]
      else (err must_log_in, s)

  -- What serving one message gives: how the loop goes on, with the session.
  abbrev after_reply : Reply × ConnectedUsersPool S → Session S P → Next × Session S P
  after_reply (reply, p) s =
      let t = record s { pool = p } in
      elim reply [
        | replied (ok _) ↦ (continues, t)
        | replied (err e) ↦ (continues, write_socket_msg (new_socket_error (error_text e)) t)
        | never ↦ (hangs, t)
        | panicked ↦ (panics, t)
      ]

  unfoldable pub serve_authorized_connection : SocketMessage → ℤ → Session S P → Next × Session S P
  unfolding parse_websocket_message write_socket_msg new_socket_error get_handler make_request
  serve_authorized_connection received now s =
      let t = set_read_deadline timeout_authorized s in
      elim (parse_websocket_message received) [
        | err e ↦ (continues, write_socket_msg (new_socket_error (error_text e)) t)
        | ok req ↦ elim (get_handler t.nick t.pool) [
          | none ↦ (breaks, t)
          | some handler ↦ after_reply (make_request store handler received.action req now t.pool) t
        ]
      ]

  -- The loop after `authorizeConnection`.
  abbrev after_authorize : Result String × Session S P → Session S P
  after_authorize (r, s) = set_read_deadline timeout_authorized (elim r [
    | ok nick ↦ record s { nick = nick }
    | err e ↦ write_socket_msg (new_socket_error (error_text e)) (record s { nick = "" })
  ])

  -- One turn of the loop, with the message that was read; `none` is the nil pointer.
  unfoldable pub serve_message : Option SocketMessage → ℤ → Session S P → Next × Session S P
  unfolding serve_authorized_connection authorize_connection write_socket_msg new_socket_error
  serve_message none now s = (panics, s)
  serve_message (some m) now s =
      if s.conn.authorized
      then serve_authorized_connection m now s
      else (continues, after_authorize (authorize_connection m s))

  abbrev turn : Round S → Session S P → Next × Session S P
  turn r s =
      serve_message (unmarshal_socket_message r.frame) r.now (record s { pool = r.between s.pool })

  -- The loop over the messages that arrive before a read fails. Messages after its end are not read.
  unfoldable pub serve_loop : List (Round S) → Ending → Session S P → Next × Session S P
  unfolding serve_message unmarshal_socket_message read_error
  serve_loop [] ending s = (breaks, read_error ending s)
  serve_loop (r ∷ rs) ending s =
      let (next, t) = turn r s in
      let rest = serve_loop rs ending t in
      elim next [
        | continues ↦ rest
        | breaks ↦ (breaks, t)
        | panics ↦ (panics, t)
        | hangs ↦ (hangs, t)
      ]

  abbrev pub opened : ℕ → ConnectedUsersPool S → P → Session S P
  opened addr p profiles = record {
    conn = record {
      addr = addr;
      authorized = false;
      read_timeout = timeout_unauthorized;
      closed = false;
    };
    nick = "";
    pool = p;
    profiles = profiles;
  }

  -- The deferred call runs at every end of the loop, but a loop that waits forever has none.
  unfoldable pub serve_session :
      ℕ → List (Round S) → Ending → ConnectedUsersPool S → P → Next × Session S P
  unfolding serve_loop shut_connection
  serve_session addr rs ending p profiles =
      let (next, s) = serve_loop rs ending (opened addr p profiles) in
      elim next [
        | continues ↦ (continues, shut_connection s)
        | breaks ↦ (breaks, shut_connection s)
        | panics ↦ (panics, shut_connection s)
        | hangs ↦ (hangs, s)
      ]
