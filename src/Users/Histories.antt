-- ===== src/Users/Histories.antt =====
-- user_connections.go over a whole history of connections that open and close.
use sockchat.Prelude.{
  ℕ, String, ◌≡◌, refl, sym, ◌∙◌, ◌↔◌, false, true, some, List, [], ◌∷◌, ◌++◌, map, arith, nat_key,
  string_key,
}
use sockchat.Prelude.GoMap
use sockchat.Api.WsMessages.{SocketMessage}
use sockchat.Prelude.GoSet.{some_item, contains}
use sockchat.ChannelStore.{ChannelStore, UserRef}
use sockchat.Users.{
  ConnectedUsersPool, handler_write, new_connected_users_pool, get_handler, add_connection,
  remove_connection,
}
use sockchat.Users.Online.{Online, is_open_for, Tracks}
use sockchat.Users.Connect.{add_connection-Tracks}
use sockchat.Users.Close.{remove_connection-Tracks, has_handler}

-- A session that logs in opens its connection for the user; one that ends closes it.
pub data Event : Type 0 where
  opens : ℕ → String → Event
  closes : ℕ → Event

-- The open connections after an event.
abbrev online_step : Event → Online → Online
online_step (opens conn nick) online = GoMap.set conn nick online
online_step (closes conn) online = GoMap.delete conn online

abbrev pub online_run : List Event → Online → Online
online_run [] online = online
online_run (e ∷ es) online = online_run es (online_step e online)

-- A session opens its own connection once, and closes it only if it is open.
abbrev IsPossible : Event → Online → Type 0
IsPossible (opens conn nick) online = (n : String) → is_open_for online conn n ≡ false
IsPossible (closes conn) online = (nick : String) × (is_open_for online conn nick ≡ true)

abbrev pub IsOrderly : List Event → Online → Type 0
IsOrderly [] online = Unit
IsOrderly (e ∷ es) online = IsPossible e online × IsOrderly es (online_step e online)

module _ {S : Type 0} where
  abbrev pool_step : Event → ConnectedUsersPool S → ConnectedUsersPool S
  pool_step (opens conn nick) p = add_connection conn nick p
  pool_step (closes conn) p = remove_connection conn p

  abbrev pub pool_run : List Event → ConnectedUsersPool S → ConnectedUsersPool S
  pool_run [] p = p
  pool_run (e ∷ es) p = pool_run es (pool_step e p)

  step-Tracks :
      (e : Event) (p : ConnectedUsersPool S) (online : Online)
      → IsPossible e online
      → Tracks p online
      → Tracks (pool_step e p) (online_step e online)
  step-Tracks (opens conn nick) p online unopened t =
      add_connection-Tracks p online conn nick unopened t
  step-Tracks (closes conn) p online (nick, is_open) t =
      remove_connection-Tracks p online conn nick is_open t

  pub run-Tracks :
      (es : List Event) (p : ConnectedUsersPool S) (online : Online)
      → IsOrderly es online
      → Tracks p online
      → Tracks (pool_run es p) (online_run es online)
  run-Tracks [] p online o t = t
  run-Tracks (e ∷ es) p online o t =
      run-Tracks es (pool_step e p) (online_step e online) o.1 (step-Tracks e p online o.0 t)

  pub new-Tracks : (store : ChannelStore S) → Tracks (new_connected_users_pool store) []
  unfolding new_connected_users_pool get_handler is_open_for GoMap.get
  new-Tracks store = record {
    manages = λ nick h e. absurd (cc e);
    absent = λ nick e conn. refl;
    known = λ conn nick e. absurd (cc e);
    fresh = λ addr l. refl;
  }

  -- After any orderly history of connections a user has a handler exactly if one of the user's
  -- connections is open.
  pub history_handlers :
      (store : ChannelStore S) (es : List Event) (nick : String)
      → IsOrderly es []
      → ((h : UserRef) × (get_handler nick (pool_run es (new_connected_users_pool store)) ≡ some h))
        ↔ ((conn : ℕ) × (is_open_for (online_run es []) conn nick ≡ true))
  history_handlers store es nick o =
      let t = run-Tracks es (new_connected_users_pool store) [] o (new-Tracks store) in
      (
        λ (h, e).
            let (object, m) = t.manages nick h e in
            let (conn, c) = some_item object.connections m.used in (conn, sym (m.exact conn) ∙ c),
        λ (conn, e). let (h, object, here, m) = has_handler _ _ conn nick t e in (h, here),
      )

  -- After any orderly history a message that is written to a user's handler goes to connections that
  -- are open for that user, to every one of them, and nowhere else. Nothing else changes.
  pub history_write :
      (store : ChannelStore S) (es : List Event) (nick : String) (h : UserRef)
      (message : SocketMessage)
      → IsOrderly es []
      → let p = pool_run es (new_connected_users_pool store) in
        get_handler nick p ≡ some h
        → (conns : List ℕ) × (handler_write h.addr message p
            ≡ record p { sent = p.sent ++ map (λ conn. (conn, message)) conns })
          × ((conn : ℕ) → contains conn conns ≡ is_open_for (online_run es []) conn nick)
  unfolding handler_write
  history_write store es nick h message o e =
      let t = run-Tracks es (new_connected_users_pool store) [] o (new-Tracks store) in
      let (object, m) = t.manages nick h e in
      (object.connections, ground (arith, m.stored), m.exact)
