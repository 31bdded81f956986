-- ===== src/Users.antt =====
-- user_connections.go: the pool of connected users, a user's handler, and the requests that the
-- handler serves one at a time.
mod Types
pub mod Online
pub mod Connect
pub mod Close
pub mod Histories
pub mod Requests
pub mod Races
pub mod Calls
pub mod Scheduling
pub mod Delivery
mod Tests
unfoldable pub use Types.*
use sockchat.Prelude.{
  ℕ, suc, String, Bool, true, false, not, Option, none, some, List, [], ◌∷◌, ◌++◌, map, ◌==◌, ltb,
  if◌then◌else◌, length, nat_key, string_key,
}
use sockchat.Prelude.GoMap
use sockchat.Prelude.GoSet
use sockchat.Api.Errors.{err_user_not_in_channel}
use sockchat.Api.Effects.{Result, ok, err, Action, ◌>>=◌, ◌>>◌}
use sockchat.Api.Structs.{
  ℤ, MessageEvent, ChannelRequest, SendMessageRequest, create_action, join_action, leave_action,
  send_message_action, you_left_channel_event,
}
use sockchat.Api.WsMessages.{SocketMessage}
use sockchat.ChannelStore.{
  ChannelStore, MessageStore, UserRef, Task, create_channel, add_user_to_channel,
  remove_user_from_channel, disconnect_user, is_user_present_in, message_channel, run_task, spawn,
  announcement,
}

-- `NewUserHandler`; its loop serves the requests of `make_request`.
abbrev new_user_handler : String → UserHandler
new_user_handler nick = record { nick = nick; connections = [] }

-- `GetNick`
abbrev get_nick : UserRef → String
get_nick user = user.nick

module _ {S : Type 0} where
  unfoldable pub new_connected_users_pool : ChannelStore S → ConnectedUsersPool S
  new_connected_users_pool store = record {
    handlers = [];
    connections = [];
    heap = [];
    next_addr = 0;
    channel_store = store;
    sent = [];
  }

  unfoldable pub get_handler : String → ConnectedUsersPool S → Option UserRef
  get_handler nick p = GoMap.get nick p.handlers

  -- The data of the handler at an address.
  abbrev pub handler_at : ℕ → ConnectedUsersPool S → Option UserHandler
  handler_at addr p = GoMap.get addr p.heap

  -- The methods of `UserHandler` that concern its connections.
  unfoldable pub connections_of : ℕ → ConnectedUsersPool S → List ℕ
  connections_of addr p = elim (handler_at addr p) [ none ↦ [] | some h ↦ h.connections ]

  abbrev pub write_handler : ℕ → (List ℕ → List ℕ) → ConnectedUsersPool S → ConnectedUsersPool S
  write_handler addr f p = elim (handler_at addr p) [
    | none ↦ p
    | some h ↦ record p {
      heap = GoMap.set addr (record h { connections = f h.connections }) p.heap;
    }
  ]

  unfoldable pub handler_add_connection : ℕ → ℕ → ConnectedUsersPool S → ConnectedUsersPool S
  handler_add_connection addr conn = write_handler addr (GoSet.insert conn)

  unfoldable pub handler_remove_connection : ℕ → ℕ → ConnectedUsersPool S → ConnectedUsersPool S
  handler_remove_connection addr conn = write_handler addr (GoSet.delete conn)

  unfoldable pub get_active_connections_count : ℕ → ConnectedUsersPool S → ℕ
  unfolding connections_of
  get_active_connections_count addr p = length (connections_of addr p)

  -- `addHandler`, which allocates the handler that it puts into the pool.
  unfoldable pub add_handler : String → ConnectedUsersPool S → UserRef × ConnectedUsersPool S
  add_handler nick p = (
    handler,
    record p {
      heap = GoMap.set p.next_addr (new_user_handler nick) p.heap;
      next_addr = suc p.next_addr;
      handlers = GoMap.set nick handler p.handlers;
    },
  )
    where
      handler : UserRef
      handler = record { addr = p.next_addr; nick = nick }

  -- The handler of the nick, made if there is none.
  unfoldable pub find_or_add_handler :
      String → ConnectedUsersPool S → UserRef × ConnectedUsersPool S
  unfolding get_handler add_handler
  find_or_add_handler nick p = elim (get_handler nick p) [
    | some handler ↦ (handler, p)
    | none ↦ add_handler nick p
  ]

  unfoldable pub add_connection : ℕ → String → ConnectedUsersPool S → ConnectedUsersPool S
  unfolding find_or_add_handler handler_add_connection
  add_connection conn nick p =
      let (handler, q) = find_or_add_handler nick p in
      let r = handler_add_connection handler.addr conn q in
      record r { connections = GoMap.set conn nick r.connections }

  -- `m.connections[conn]`, the empty text where there is no entry.
  unfoldable pub nick_of : ℕ → ConnectedUsersPool S → String
  nick_of conn p = elim (GoMap.get conn p.connections) [ none ↦ "" | some nick ↦ nick ]

  -- The last section of `RemoveConnection`, for the last connection of a handler.
  abbrev pub drop_handler : String → ℕ → UserRef → ConnectedUsersPool S → ConnectedUsersPool S
  drop_handler nick conn handler p = record p {
    handlers = GoMap.delete nick p.handlers;
    connections = GoMap.delete conn p.connections;
    channel_store = (disconnect_user handler p.channel_store).1;
  }

  unfoldable pub remove_connection : ℕ → ConnectedUsersPool S → ConnectedUsersPool S
  unfolding nick_of get_handler get_active_connections_count handler_remove_connection
  remove_connection conn p =
      let nick = nick_of conn p in
      elim (get_handler nick p) [
        | none ↦ p
        | some handler ↦
            if ltb 1 (get_active_connections_count handler.addr p)
            then handler_remove_connection handler.addr conn p
            else drop_handler nick conn handler p
      ]

  -- `UserHandler.Write`: the message goes to each connection that the handler has, in the map's order,
  -- and the call waits for all of these writes. The goroutines that it starts, one for each connection, are
  -- within this one step.
  unfoldable pub handler_write : ℕ → SocketMessage → ConnectedUsersPool S → ConnectedUsersPool S
  unfolding connections_of
  handler_write addr message p = record p {
    sent = p.sent ++ map (λ conn. (conn, message)) (connections_of addr p);
  }

  -- What a goroutine does when it is picked.
  unfoldable pub run_goroutine : Task → ConnectedUsersPool S → ConnectedUsersPool S
  unfolding handler_write run_task
  run_goroutine (Task.write addr message) p = handler_write addr message p
  run_goroutine t p = record p { channel_store = run_task t p.channel_store }

  -- A call of the channel store.
  abbrev on_store : {A : Type 0} → Action (ChannelStore S) A → Action (ConnectedUsersPool S) A
  on_store m p = let (r, s) = m p.channel_store in (r, record p { channel_store = s })

  -- `req.errCallback <- …`
  abbrev pub answer :
      Action (ConnectedUsersPool S) (Unit {0}) → ConnectedUsersPool S → Reply × ConnectedUsersPool S
  answer m p = let (r, q) = m p in (replied r, q)

  -- `req.payload.(*api.ChannelRequest)` and `req.payload.(*api.SendMessageRequest)`
  abbrev with_channel_request :
      RequestPayload
      → (ChannelRequest → ConnectedUsersPool S → Reply × ConnectedUsersPool S)
      → ConnectedUsersPool S
      → Reply × ConnectedUsersPool S
  with_channel_request (channel_request r) k p = k r p
  with_channel_request (send_message_request _) k p = (panicked, p)

  abbrev with_send_message_request :
      RequestPayload
      → (SendMessageRequest → ConnectedUsersPool S → Reply × ConnectedUsersPool S)
      → ConnectedUsersPool S
      → Reply × ConnectedUsersPool S
  with_send_message_request (send_message_request r) k p = k r p
  with_send_message_request (channel_request _) k p = (panicked, p)

  -- The cases of `HandleRequests`.
  unfoldable pub handle_create : UserRef → ChannelRequest → Action (ConnectedUsersPool S) (Unit {0})
  handle_create u r = do on_store (create_channel r.name); on_store (add_user_to_channel r.name u)

  unfoldable pub handle_join : UserRef → ChannelRequest → Action (ConnectedUsersPool S) (Unit {0})
  handle_join u r = on_store (add_user_to_channel r.name u)

  unfoldable pub handle_leave : UserRef → ChannelRequest → Action (ConnectedUsersPool S) (Unit {0})
  handle_leave u r = do
    on_store (remove_user_from_channel r.name u)
    on_store (spawn (Task.write u.addr (announcement you_left_channel_event r.name u) ∷ []))

module _ {S : Type 0} (store : MessageStore S) where
  -- `now` is `time.Now().Unix()`.
  unfoldable pub handle_send_message :
      UserRef → SendMessageRequest → ℤ → Action (ConnectedUsersPool S) (Unit {0})
  handle_send_message u r now p =
      if not (is_user_present_in u r.channel p.channel_store)
      then (err err_user_not_in_channel, p)
      else on_store (message_channel store event) p
    where
      event : MessageEvent
      event = record { text = r.text; channel = r.channel; author = get_nick u; timestamp = now }

  -- One round of the loop of `HandleRequests`.
  unfoldable pub handle_request :
      UserRef → UserHandlerRequest → ℤ → ConnectedUsersPool S → Reply × ConnectedUsersPool S
  unfolding handle_create handle_join handle_leave handle_send_message
  handle_request u req now =
      if req.action == create_action
      then with_channel_request req.payload (λ r. answer (handle_create u r))
      else if req.action == join_action
      then with_channel_request req.payload (λ r. answer (handle_join u r))
      else if req.action == leave_action
      then with_channel_request req.payload (λ r. answer (handle_leave u r))
      else if req.action == send_message_action
      then with_send_message_request req.payload (λ r. answer (handle_send_message u r now))
      else λ p. (never, p)

  -- `MakeRequest`: the request is handed to the loop, and the answer is waited for.
  unfoldable pub make_request :
      UserRef → String → RequestPayload → ℤ → ConnectedUsersPool S → Reply × ConnectedUsersPool S
  unfolding handle_request
  make_request u action payload = handle_request u (record { action = action; payload = payload })
