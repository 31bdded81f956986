-- ===== src/Services/Messaging/Sessions.antt =====
-- services/messaging.go: a whole session beside the pool of connected users.
use sockchat.Prelude.{
  ℕ, String, Bool, ◌==◌, ◌≡◌, ◌⊎◌, inl, inr, refl, sym, ap, subst, true, false, List, [], ◌∷◌,
  arith, ==_iff, if◌then◌else◌, string_key, nat_key, Bool-cases,
}
use sockchat.Prelude.GoMap
use sockchat.ChannelStore.{MessageStore}
use sockchat.Users.{ConnectedUsersPool, remove_connection}
use sockchat.Prelude.{All, ℕ}
use sockchat.Api.WsMessages.{new_socket_message, text}
use sockchat.Services.Interfaces.{ProfileStore}
use sockchat.Services.Messaging.{
  Session, Next, continues, breaks, panics, Ending, timed_out, failed, Round, read_error,
  shut_connection, serve_message, serve_loop, serve_session, opened, unmarshal_socket_message,
}
use sockchat.Users.Online.{Online, Tracks, is_open_for, is_open_for-delete}
use sockchat.Users.Close.{remove_connection-Tracks}
use sockchat.Services.Messaging.Turns.{Held, message-Turned, write-Held}

-- A view of the connections, with what it says of this one put aside.
pub open_apart :
    (addr : ℕ) (online : Online) (c : ℕ) (n : String) {b : Bool}
    → is_open_for online addr n ≡ b
    → is_open_for online c n ≡ (if c == addr then b else is_open_for online c n)
open_apart addr online c n e = elim (Bool-cases (c == addr)) [
  | inl h ↦ ground (arith, e, ap (λ x. is_open_for online x n) ((==_iff c addr).0 h))
  | inr h ↦ ground arith
]

module _ {S P : Type 0} (addr : ℕ) where
  -- As `Held`, whatever the other connections are.
  abbrev Holds : Session S P → Type 0
  Holds s = (others : ℕ → String → Bool) × Held addr others s

  pub read_error-Held :
      (others : ℕ → String → Bool) (ending : Ending) (s : Session S P)
      → Held addr others s
      → Held addr others (read_error ending s)
  unfolding read_error
  read_error-Held others timed_out s held =
      write-Held addr others (new_socket_message "connection_timed_out" (text "{}")) s held
  read_error-Held others failed s held = held

  -- A session that ends closes its own connection and no other.
  pub shut-Tracks :
      (others : ℕ → String → Bool) (s : Session S P)
      → Held addr others s
      → (after : Online) × Tracks (shut_connection s).pool after
        × ((c : ℕ) (n : String) → is_open_for after c n ≡ (if c == addr then false else others c n))
  unfolding shut_connection
  shut-Tracks others s (online, tracks, a, o) = elim (Bool-cases s.conn.authorized) [
    | inl h ↦
        let there : is_open_for online s.conn.addr s.nick ≡ true =
          ground (arith, o s.conn.addr s.nick, a, ==_iff s.nick s.nick, ==_iff s.conn.addr addr) in
        let shut : (if s.conn.authorized then remove_connection s.conn.addr s.pool else s.pool)
            ≡ remove_connection s.conn.addr s.pool =
          ground arith in
        (
          GoMap.delete s.conn.addr online,
          subst (λ p. Tracks p (GoMap.delete s.conn.addr online)) (sym shut)
              (remove_connection-Tracks s.pool online s.conn.addr s.nick there tracks),
          λ c n. ground (
            arith,
            is_open_for-delete online s.conn.addr c n,
            a,
            o c n,
            ==_iff s.conn.addr c,
            ==_iff c addr,
          ),
        )
    | inr h ↦
        let shut : (if s.conn.authorized then remove_connection s.conn.addr s.pool else s.pool)
            ≡ s.pool =
          ground arith in
        (online, subst (λ p. Tracks p online) (sym shut) tracks, λ c n. ground (arith, o c n, h))
  ]

  module _ (store : MessageStore S) (profiles : ProfileStore P)
      (timeout_authorized timeout_unauthorized : ℕ) where
    -- What the others do to the pool between two messages leaves this session's connection alone.
    abbrev pub LeavesAlone : Round S → Type 0
    LeavesAlone r =
        (p : ConnectedUsersPool S) (online : Online)
        → Tracks p online
        → (after : Online) × Tracks (r.between p) after
          × ((n : String) → is_open_for after addr n ≡ is_open_for online addr n)

    between-Holds :
        (r : Round S) (s : Session S P)
        → LeavesAlone r
        → Holds s
        → Holds (record s { pool = r.between s.pool })
    between-Holds r s alone (others, (online, tracks, a, o)) =
        let (after, t, same) = alone s.pool online tracks in
        (
          is_open_for after,
          (
            after,
            t,
            a,
            λ c n. open_apart addr after c n (ground (arith, same n, o addr n, ==_iff addr addr)),
          ),
        )

    -- How the loop ends.
    abbrev Ended : Next × Session S P → Type 0
    Ended (next, t) = Holds t × ((next ≡ breaks) ⊎ (next ≡ panics))

    abbrev loop : List (Round S) → Ending → Session S P → Next × Session S P
    loop = serve_loop store profiles timeout_authorized timeout_unauthorized

    abbrev turned : Round S → Session S P → Next × Session S P
    turned r s =
        serve_message store profiles timeout_authorized timeout_unauthorized
          (unmarshal_socket_message r.frame) r.now (record s { pool = r.between s.pool })

    loop_goes_on :
        (r : Round S) (rs : List (Round S)) (ending : Ending) (s : Session S P)
        → (turned r s).0 ≡ continues
        → loop (r ∷ rs) ending s ≡ loop rs ending (turned r s).1
    unfolding serve_loop
    loop_goes_on r rs ending s h = ground arith

    loop_breaks :
        (r : Round S) (rs : List (Round S)) (ending : Ending) (s : Session S P)
        → (turned r s).0 ≡ breaks
        → loop (r ∷ rs) ending s ≡ (breaks, (turned r s).1)
    unfolding serve_loop
    loop_breaks r rs ending s h = ground arith

    loop_panics :
        (r : Round S) (rs : List (Round S)) (ending : Ending) (s : Session S P)
        → (turned r s).0 ≡ panics
        → loop (r ∷ rs) ending s ≡ (panics, (turned r s).1)
    unfolding serve_loop
    loop_panics r rs ending s h = ground arith

    loop-Ended :
        (rs : List (Round S)) (ending : Ending) (s : Session S P)
        → All LeavesAlone rs
        → Holds s
        → Ended (loop rs ending s)
    unfolding serve_loop
    loop-Ended [] ending s alone (others, held) =
        ((others, read_error-Held others ending s held), inl refl)
    loop-Ended (r ∷ rs) ending s alone holds =
        let (others, held) = between-Holds r s alone.0 holds in
        let (kept, how) =
          message-Turned addr others store profiles timeout_authorized timeout_unauthorized
            (unmarshal_socket_message r.frame) r.now (record s { pool = r.between s.pool }) held in
        elim how [
          | inl h ↦
              subst Ended (sym (loop_goes_on r rs ending s h))
                (loop-Ended rs ending (turned r s).1 alone.1 (others, kept))
          | inr (inl h) ↦ subst Ended (sym (loop_breaks r rs ending s h)) ((others, kept), inl refl)
          | inr (inr h) ↦ subst Ended (sym (loop_panics r rs ending s h)) ((others, kept), inr refl)
        ]

    -- Whoever is tracked, the connection is open for nobody.
    abbrev pub IsCleared : ConnectedUsersPool S → Type 0
    IsCleared p =
        (online : Online) × Tracks p online × ((n : String) → is_open_for online addr n ≡ false)

    shut-IsCleared : (s : Session S P) → Holds s → IsCleared (shut_connection s).pool
    shut-IsCleared s (others, held) =
        let (after, tracks, o) = shut-Tracks others s held in
        (after, tracks, λ n. ground (arith, o addr n, ==_iff addr addr))

    shut-closed : (s : Session S P) → (shut_connection s).conn.closed ≡ true
    unfolding shut_connection
    shut-closed s = refl

    abbrev Closes : Next × Session S P → Type 0
    Closes (next, t) =
        ((next ≡ breaks) ⊎ (next ≡ panics)) × (t.conn.closed ≡ true) × IsCleared t.pool

    abbrev session : List (Round S) → Ending → ConnectedUsersPool S → P → Next × Session S P
    session rs ending p users =
        serve_session store profiles timeout_authorized timeout_unauthorized addr rs ending p users

    abbrev start : ConnectedUsersPool S → P → Session S P
    start p users = opened store profiles timeout_authorized timeout_unauthorized addr p users

    session_breaks :
        (rs : List (Round S)) (ending : Ending) (p : ConnectedUsersPool S) (users : P)
        → (loop rs ending (start p users)).0 ≡ breaks
        → session rs ending p users ≡ (breaks, shut_connection (loop rs ending (start p users)).1)
    unfolding serve_session
    session_breaks rs ending p users h = ground arith

    session_panics :
        (rs : List (Round S)) (ending : Ending) (p : ConnectedUsersPool S) (users : P)
        → (loop rs ending (start p users)).0 ≡ panics
        → session rs ending p users ≡ (panics, shut_connection (loop rs ending (start p users)).1)
    unfolding serve_session
    session_panics rs ending p users h = ground arith

    -- A session over a connection that is not open for anybody ends whatever the client sends and
    -- whatever the others do to the pool, as long as that leaves this connection alone and the pool
    -- right: the loop is left, or it panics, but it never waits forever for an answer to a request.
    -- When the session has ended its connection is closed, and the pool tracks the open connections
    -- without it, so no handler has it any more.
    pub serve_session-Closes :
        (rs : List (Round S)) (ending : Ending) (p : ConnectedUsersPool S) (users : P)
        (online : Online)
        → Tracks p online
        → ((n : String) → is_open_for online addr n ≡ false)
        → All LeavesAlone rs
        → let (next, t) =
            serve_session store profiles timeout_authorized timeout_unauthorized addr rs ending p
              users in
          ((next ≡ breaks) ⊎ (next ≡ panics)) × (t.conn.closed ≡ true) × IsCleared t.pool
    serve_session-Closes rs ending p users online tracks unopened alone =
        let s = opened store profiles timeout_authorized timeout_unauthorized addr p users in
        let (kept, how) = loop-Ended rs ending s alone (
          is_open_for online,
          (online, tracks, refl, λ c n. open_apart addr online c n (unopened n)),
        ) in
        let cleared = shut-IsCleared (loop rs ending s).1 kept in
        elim how [
          | inl h ↦
              subst Closes (sym (session_breaks rs ending p users h))
                (inl refl, shut-closed (loop rs ending s).1, cleared)
          | inr h ↦
              subst Closes (sym (session_panics rs ending p users h))
                (inr refl, shut-closed (loop rs ending s).1, cleared)
        ]
