-- ===== src/Services/Messaging/Logins.antt =====
-- services/messaging.go: what a connection can do before it has logged in.
use sockchat.Prelude.{
  ℕ, String, ◌≡◌, ◌⊎◌, inl, inr, refl, Bool, true, false, Option, none, some, arith, ◌==◌,
  if◌then◌else◌, string_key, Bool-cases, Option-cases,
}
use sockchat.Api.Effects.{Result, ok, err}
use sockchat.Api.Errors.{Error}
use sockchat.Api.Structs.{ℤ, LoginRequest, login_action}
use sockchat.Api.WsMessages.{SocketMessage}
use sockchat.Api.Serialization.{unmarshal_login_request}
use sockchat.ChannelStore.{MessageStore}
use sockchat.Users.{
  ConnectedUsersPool, add_connection, get_handler, find_or_add_handler, add_handler,
  handler_add_connection, handler_at,
}
use sockchat.Services.Interfaces.{ProfileStore}
use sockchat.Services.Messaging.{
  Session, Next, continues, authorize_connection, login_user, log_in, serve_message,
  write_socket_msg,
}

-- The credentials that a message carries, if it is a login.
abbrev pub credentials : SocketMessage → Result LoginRequest → Option LoginRequest
credentials m (ok req) = if m.action == login_action then some req else none
credentials m (err e) = none

module _ {S : Type 0} where
  written-channel_store :
      (addr conn : ℕ) (p : ConnectedUsersPool S)
      → (handler_add_connection addr conn p).channel_store ≡ p.channel_store
  unfolding handler_add_connection
  written-channel_store addr conn p = elim (Option-cases (handler_at addr p)) [
    | inl e ↦ ground arith
    | inr (h, e) ↦ ground arith
  ]

  add_connection-channel_store :
      (conn : ℕ) (nick : String) (p : ConnectedUsersPool S)
      → (add_connection conn nick p).channel_store ≡ p.channel_store
  unfolding add_connection find_or_add_handler add_handler
  add_connection-channel_store conn nick p = elim (Option-cases (get_handler nick p)) [
    | inl e ↦ ground (arith, written-channel_store p.next_addr conn)
    | inr (h, e) ↦ ground (arith, written-channel_store h.addr conn)
  ]

login_cases :
    (r : Result LoginRequest) → ((x : LoginRequest) × (r ≡ ok x)) ⊎ ((e : Error) × (r ≡ err e))
login_cases (ok x) = inl (x, refl)
login_cases (err e) = inr (e, refl)

module _ {S P : Type 0} (store : MessageStore S) (profiles : ProfileStore P)
    (timeout_authorized timeout_unauthorized : ℕ) (m : SocketMessage) (now : ℤ)
    (s : Session S P) where
  -- The nick under which the message logs in, if the profile store accepts its password.
  abbrev pub accepted : Option LoginRequest → Option String
  accepted none = none
  accepted (some req) =
      if (profiles.is_auth_valid req.nick req.password s.profiles).0 then some req.nick else none

  abbrev pool_after : Option String → ConnectedUsersPool S
  pool_after none = s.pool
  pool_after (some nick) = add_connection s.conn.addr nick s.pool

  abbrev is_some : Option String → Bool
  is_some none = false
  is_some (some _) = true

  abbrev pub OnlyLogsIn : Option String → Next × Session S P → Type 0
  OnlyLogsIn who (next, t) =
      (next ≡ continues)
      × (t.conn.addr ≡ s.conn.addr)
      × (t.conn.authorized ≡ is_some who)
      × (t.nick ≡ elim who [ none ↦ "" | some nick ↦ nick ])
      × (t.pool.handlers ≡ (pool_after who).handlers)
      × (t.pool.connections ≡ (pool_after who).connections)
      × (t.pool.heap ≡ (pool_after who).heap)
      × (t.pool.next_addr ≡ (pool_after who).next_addr)
      × (t.pool.channel_store ≡ s.pool.channel_store)

  pub unauthorized-OnlyLogsIn :
      s.conn.authorized ≡ false
      → OnlyLogsIn
          (accepted (credentials m (unmarshal_login_request m.payload)))
          (serve_message store profiles timeout_authorized timeout_unauthorized (some m) now s)
  unfolding serve_message authorize_connection login_user log_in write_socket_msg
  unauthorized-OnlyLogsIn h = elim (Bool-cases (m.action == login_action)) [
    | inl a ↦ elim (login_cases (unmarshal_login_request m.payload)) [
      | inl (req, e) ↦
          elim (Bool-cases (profiles.is_auth_valid req.nick req.password s.profiles).0) [
            | inl v ↦ ground (arith, add_connection-channel_store s.conn.addr req.nick s.pool)
            | inr v ↦ ground arith
          ]
      | inr (x, e) ↦ ground arith
    ]
    | inr a ↦ elim (login_cases (unmarshal_login_request m.payload)) [
      | inl (req, e) ↦ ground arith
      | inr (x, e) ↦ ground arith
    ]
  ]
