-- ===== src/Services/Messaging/Turns.antt =====
-- services/messaging.go: one turn of a session's loop beside the pool of connected users.
use sockchat.Prelude.{
  ℕ, String, Bool, if◌then◌else◌, ◌≡◌, ◌⊎◌, inl, inr, refl, sym, ap, ◌∙◌, subst, false, ◌&&◌,
  Option, none, some, [], ◌∷◌, ◌++◌, arith, ◌==◌, ==_iff, string_key, nat_key, Bool-cases,
  Option-cases,
}
use sockchat.Prelude.GoMap
use sockchat.Api.Effects.{Result, ok, err}
use sockchat.Api.Errors.{Error}
use sockchat.Api.Structs.{ℤ}
use sockchat.Api.WsMessages.{SocketMessage}
use sockchat.ChannelStore.{MessageStore, UserRef}
use sockchat.Users.{RequestPayload, add_connection, get_handler, make_request}
use sockchat.Prelude.{ℕ}
use sockchat.Api.Serialization.{unmarshal_login_request}
use sockchat.Api.Errors.{error_text}
use sockchat.Api.WsMessages.{new_socket_error}
use sockchat.Users.{replied}
use sockchat.Services.Interfaces.{ProfileStore}
use sockchat.Services.Messaging.{
  Session, Next, continues, breaks, panics, write_socket_msg, set_read_deadline,
  serve_authorized_connection, serve_message, parse_websocket_message,
}
use sockchat.Services.Messaging.Requests.{parsed-Answered}
use sockchat.Services.Messaging.Logins.{OnlyLogsIn, unauthorized-OnlyLogsIn, accepted, credentials}
use sockchat.Users.Online.{Online, Tracks, is_open_for, is_open_for-set}
use sockchat.Users.Connect.{add_connection-Tracks}
use sockchat.Services.Messaging.Frames.{handle_request-Frames, moved-Tracks, same_fields}

parse_cases :
    (r : Result RequestPayload) → ((x : RequestPayload) × (r ≡ ok x)) ⊎ ((e : Error) × (r ≡ err e))
parse_cases (ok x) = inl (x, refl)
parse_cases (err e) = inr (e, refl)

reply_cases : (r : Result (Unit {0})) → ((x : Unit {0}) × (r ≡ ok x)) ⊎ ((e : Error) × (r ≡ err e))
reply_cases (ok x) = inl (x, refl)
reply_cases (err e) = inr (e, refl)

module _ {S P : Type 0} (addr : ℕ) (others : ℕ → String → Bool) where
  -- The pool tracks the open connections: the session's own one for the session's nick exactly while
  -- it is authorized, and any other one for whom `others` says.
  abbrev pub Held : Session S P → Type 0
  Held s =
      (online : Online) × Tracks s.pool online
      × (s.conn.addr ≡ addr)
      × ((c : ℕ) (n : String)
          → is_open_for online c n
            ≡ (if c == addr then s.conn.authorized && s.nick == n else others c n))

  pub write-Held : (m : SocketMessage) (s : Session S P) → Held s → Held (write_socket_msg m s)
  unfolding write_socket_msg
  write-Held m s (online, t, a, o) = (
    online,
    moved-Tracks s.pool online s.pool.channel_store (s.pool.sent ++ (s.conn.addr, m) ∷ []) t,
    a,
    o,
  )

  request-Held :
      (store : MessageStore S) (u : UserRef) (action : String) (payload : RequestPayload) (now : ℤ)
      (s : Session S P)
      → Held s
      → Held (record s { pool = (make_request store u action payload now s.pool).1 })
  request-Held store u action payload now s (online, t, a, o) =
      let q = (make_request store u action payload now s.pool).1 in
      (
        online,
        subst (λ p. Tracks p online) (sym (handle_request-Frames store u action payload now s.pool))
            (moved-Tracks s.pool online q.channel_store s.pool.sent t),
        a,
        o,
      )

  -- How one turn ends.
  abbrev pub Turned : Next × Session S P → Type 0
  Turned (next, t) = Held t × ((next ≡ continues) ⊎ ((next ≡ breaks) ⊎ (next ≡ panics)))

  module _ (store : MessageStore S) (profiles : ProfileStore P)
      (timeout_authorized timeout_unauthorized : ℕ) where
    abbrev serve : SocketMessage → ℤ → Session S P → Next × Session S P
    serve = serve_authorized_connection store profiles timeout_authorized timeout_unauthorized

    abbrev due : Session S P → Session S P
    due s = set_read_deadline timeout_authorized s

    refused :
        (m : SocketMessage) (now : ℤ) (s : Session S P) (e : Error)
        → parse_websocket_message m ≡ err e
        → serve m now s ≡ (continues, write_socket_msg (new_socket_error (error_text e)) (due s))
    unfolding serve_authorized_connection
    refused m now s e h = ground arith

    gone :
        (m : SocketMessage) (now : ℤ) (s : Session S P) (req : RequestPayload)
        → parse_websocket_message m ≡ ok req
        → get_handler s.nick s.pool ≡ none
        → serve m now s ≡ (breaks, due s)
    unfolding serve_authorized_connection
    gone m now s req h g = ground arith

    done :
        (m : SocketMessage) (now : ℤ) (s : Session S P) (req : RequestPayload) (u : UserRef)
        (x : Unit {0})
        → parse_websocket_message m ≡ ok req
        → get_handler s.nick s.pool ≡ some u
        → (make_request store u m.action req now s.pool).0 ≡ replied (ok x)
        → serve m now s
          ≡ (continues, record (due s) { pool = (make_request store u m.action req now s.pool).1 })
    unfolding serve_authorized_connection
    done m now s req u x h g r = ground arith

    denied :
        (m : SocketMessage) (now : ℤ) (s : Session S P) (req : RequestPayload) (u : UserRef)
        (e : Error)
        → parse_websocket_message m ≡ ok req
        → get_handler s.nick s.pool ≡ some u
        → (make_request store u m.action req now s.pool).0 ≡ replied (err e)
        → serve m now s ≡ (
          continues,
          write_socket_msg
              (new_socket_error (error_text e))
              (record (due s) { pool = (make_request store u m.action req now s.pool).1 }),
        )
    unfolding serve_authorized_connection
    denied m now s req u e h g r = ground arith

    serve-Turned : (m : SocketMessage) (now : ℤ) (s : Session S P) → Held s → Turned (serve m now s)
    serve-Turned m now s held = elim (parse_cases (parse_websocket_message m)) [
      | inr (e, h) ↦
          subst Turned (sym (refused m now s e h))
            (write-Held (new_socket_error (error_text e)) (due s) held, inl refl)
      | inl (req, h) ↦ elim (Option-cases (get_handler s.nick s.pool)) [
        | inl g ↦ subst Turned (sym (gone m now s req h g)) (held, inr (inl refl))
        | inr (u, g) ↦
            let after = request-Held store u m.action req now (due s) held in
            let (reply, r) = parsed-Answered store u now s.pool m req h in
            elim (reply_cases reply) [
              | inl (x, y) ↦
                  subst Turned (sym (done m now s req u x h g (r ∙ ap replied y))) (after, inl refl)
              | inr (e, y) ↦ subst Turned (sym (denied m now s req u e h g (r ∙ ap replied y))) (
                write-Held (new_socket_error (error_text e))
                    (record (due s) { pool = (make_request store u m.action req now s.pool).1 })
                    after,
                inl refl,
              )
            ]
      ]
    ]

    -- A turn before the login.
    login-Held :
        (who : Option String) (s t : Session S P) (m : SocketMessage) (now : ℤ) (next : Next)
        → s.conn.authorized ≡ false
        → OnlyLogsIn store profiles timeout_authorized timeout_unauthorized m now s who (next, t)
        → Held s
        → Held t
    login-Held none s t m now next h only (online, tracks, a, o) = (
      online,
      subst (λ p. Tracks p online) (same_fields s.pool t.pool only.4 only.5 only.6 only.7)
          (moved-Tracks s.pool online t.pool.channel_store t.pool.sent tracks),
      only.1 ∙ a,
      λ c n. ground (arith, only.2, o c n),
    )
    login-Held (some nick) s t m now next h only (online, tracks, a, o) =
        let q = add_connection s.conn.addr nick s.pool in
        (
          GoMap.set s.conn.addr nick online,
          subst (λ p. Tracks p (GoMap.set s.conn.addr nick online))
              (same_fields q t.pool only.4 only.5 only.6 only.7)
              (moved-Tracks q (GoMap.set s.conn.addr nick online) t.pool.channel_store t.pool.sent (
                add_connection-Tracks s.pool online s.conn.addr nick
                  (λ n. ground (arith, o addr n, a, h, ==_iff addr addr)) tracks)),
          only.1 ∙ a,
          λ c n. ground (
            arith,
            a,
            ==_iff addr c,
            ==_iff c addr,
            o c n,
            is_open_for-set online addr nick c n,
            ap (λ x. is_open_for (GoMap.set x nick online) c n) a,
            only.2,
            only.3,
          ),
        )

    pub message-Turned :
        (m : Option SocketMessage) (now : ℤ) (s : Session S P)
        → Held s
        → Turned (serve_message store profiles timeout_authorized timeout_unauthorized m now s)
    unfolding serve_message
    message-Turned none now s held = (held, inr (inr refl))
    message-Turned (some m) now s held = elim (Bool-cases s.conn.authorized) [
      | inl h ↦
          let same : serve_message store profiles timeout_authorized timeout_unauthorized (some m)
                now s
              ≡ serve m now s =
            ground arith in
          subst Turned (sym same) (serve-Turned m now s held)
      | inr h ↦
          let only =
            unauthorized-OnlyLogsIn store profiles timeout_authorized timeout_unauthorized m now s
              h in
          let (next, t) =
            serve_message store profiles timeout_authorized timeout_unauthorized (some m) now s in
          (
            login-Held
                (accepted store profiles timeout_authorized timeout_unauthorized m now s
                  (credentials m (unmarshal_login_request m.payload)))
                s t m now next h only held,
            inl only.0,
          )
    ]
