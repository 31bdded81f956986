-- ===== src/Services/Server/Logins.antt =====
-- services/messaging.go over user_connections.go: who has a handler while sessions open, talk and end
-- in any order.
use sockchat.Prelude.{
  ℕ, String, ◌≡◌, ◌⊎◌, inl, inr, refl, sym, subst, ◌∙◌, true, false, ◌&&◌, none, some, List, [],
  ◌++◌, arith, ◌==◌, ==_iff, if◌then◌else◌, string_key, nat_key, Option-cases,
}
use sockchat.Prelude.GoMap
use sockchat.Prelude.GoMap.{Map, get-set, get-delete}
use sockchat.Prelude.GoSet.{contains, some_item}
use sockchat.ChannelStore.{ChannelStore, MessageStore, Task, UserRef}
use sockchat.Api.WsMessages.{SocketMessage}
use sockchat.Users.{ConnectedUsersPool, connections_of, get_handler, run_goroutine}
use sockchat.Users.Online.{Online, Tracks, is_open_for}
use sockchat.Users.Histories.{new-Tracks}
use sockchat.Services.Interfaces.{ProfileStore}
use sockchat.Services.Messaging.{
  Session, Next, continues, breaks, panics, hangs, read_error, shut_connection, opened,
  unmarshal_socket_message,
}
use sockchat.Services.Messaging.Frames.{moved-Tracks}
use sockchat.Services.Messaging.Turns.{Held, Turned, message-Turned}
use sockchat.Services.Messaging.Sessions.{read_error-Held, shut-Tracks, open_apart}
use sockchat.Services.Server.{
  Server, Client, is_logged_in, new_server, session_of, keep, forget, settle, lose, schedule,
  accept, receive, Step, opens, receives, loses, picks, serves_others, Reach, here, next,
}

is_logged_in-set :
    (a : ℕ) (c : Client) (m : Map ℕ Client) (b : ℕ) (n : String)
    → is_logged_in (GoMap.set a c m) b n
      ≡ (if b == a then c.conn.authorized && c.nick == n else is_logged_in m b n)
unfolding is_logged_in
is_logged_in-set a c m b n = ground (arith, get-set a b c m, ==_iff a b, ==_iff b a)

is_logged_in-delete :
    (a : ℕ) (m : Map ℕ Client) (b : ℕ) (n : String)
    → is_logged_in (GoMap.delete a m) b n ≡ (if b == a then false else is_logged_in m b n)
unfolding is_logged_in
is_logged_in-delete a m b n = ground (arith, get-delete a b m, ==_iff a b, ==_iff b a)

run_goroutine-moves :
    {S : Type 0} (t : Task) (p : ConnectedUsersPool S)
    → let q = run_goroutine t p in q ≡ record p { channel_store = q.channel_store; sent = q.sent }
unfolding run_goroutine
run_goroutine-moves (Task.write addr m) p = refl
run_goroutine-moves (Task.message_members name m) p = refl
run_goroutine-moves (Task.remove_user_from_channel name user) p = refl

module _ {S P : Type 0} where
  -- The pool tracks the connections of the sessions that have logged in, each session at its own
  -- address.
  pub record IsRight (s : Server S P) : Type 0 where
    pub online : Online
    pub tracks : Tracks s.pool online
    pub logged_in : (a : ℕ) (n : String) → is_open_for online a n ≡ is_logged_in s.clients a n
    pub own : (a : ℕ) (c : Client) → GoMap.get a s.clients ≡ some c → c.conn.addr ≡ a

  -- The session of a client, among the others.
  session-Held :
      (s : Server S P) (addr : ℕ) (c : Client)
      → GoMap.get addr s.clients ≡ some c
      → IsRight s
      → Held addr (is_logged_in s.clients) (session_of c s)
  unfolding is_logged_in
  session-Held s addr c e r = (
    r.online,
    r.tracks,
    r.own addr c e,
    λ a n. ground (arith, r.logged_in a n, open_apart addr r.online a n (r.logged_in addr n), e),
  )

  kept-IsRight :
      (s : Server S P) (addr : ℕ) (t : Session S P)
      → IsRight s
      → Held addr (is_logged_in s.clients) t
      → IsRight (keep addr t s)
  kept-IsRight s addr t r (online, tracks, a, o) = record {
    online = online;
    tracks = tracks;
    logged_in = λ b n. ground (
      arith,
      o b n,
      is_logged_in-set addr (record { conn = t.conn; nick = t.nick }) s.clients b n,
    );
    own = λ b c e. ground (
      arith,
      a,
      get-set addr b (record { conn = t.conn; nick = t.nick }) s.clients,
      ==_iff addr b,
      r.own b c,
    );
  }

  forgotten-IsRight :
      (s : Server S P) (addr : ℕ) (t : Session S P)
      → IsRight s
      → Held addr (is_logged_in s.clients) t
      → IsRight (forget addr (shut_connection t) s)
  forgotten-IsRight s addr t r held =
      let (after, tracks, o) = shut-Tracks addr (is_logged_in s.clients) t held in
      record {
        online = after;
        tracks = tracks;
        logged_in = λ b n. ground (arith, o b n, is_logged_in-delete addr s.clients b n);
        own = λ b c e. ground (arith, get-delete addr b s.clients, r.own b c);
      }

  settled-IsRight :
      (s : Server S P) (addr : ℕ) (o : Next × Session S P)
      → IsRight s
      → Turned addr (is_logged_in s.clients) o
      → IsRight (settle addr o s)
  unfolding settle
  settled-IsRight s addr (continues, t) r (held, how) = kept-IsRight s addr t r held
  settled-IsRight s addr (breaks, t) r (held, how) = forgotten-IsRight s addr t r held
  settled-IsRight s addr (panics, t) r (held, how) = forgotten-IsRight s addr t r held
  settled-IsRight s addr (hangs, t) r (held, how) = kept-IsRight s addr t r held

  -- What is neither a session nor a handler.
  moved-IsRight :
      (s : Server S P) (q : P) (c : ChannelStore S) (w : List (ℕ × SocketMessage))
      → IsRight s
      → let p = s.pool in
        IsRight (record s { profiles = q; pool = record p { channel_store = c; sent = w } })
  moved-IsRight s q c w r = record {
    online = r.online;
    tracks = moved-Tracks s.pool r.online c w r.tracks;
    logged_in = r.logged_in;
    own = r.own;
  }

  schedule-IsRight :
      (before : List Task) (task : Task) (behind : List Task) (s : Server S P)
      → IsRight s
      → IsRight (schedule before task behind s)
  unfolding schedule
  schedule-IsRight before task behind s r =
      let p = s.pool in
      let c = p.channel_store in
      let rest = record p { channel_store = record c { spawned = before ++ behind } } in
      let q = run_goroutine task rest in
      subst (λ x. IsRight (record s { pool = x })) (sym (run_goroutine-moves task rest))
        (moved-IsRight s s.profiles q.channel_store q.sent r)

  new_server-IsRight : (store : ChannelStore S) (users : P) → IsRight (new_server store users)
  unfolding new_server is_logged_in is_open_for GoMap.get
  new_server-IsRight store users = record {
    online = [];
    tracks = new-Tracks store;
    logged_in = λ a n. refl;
    own = λ a c e. absurd (cc e);
  }

  -- A user has a handler exactly if somebody has logged in as the user, and then the handler has the
  -- connections of exactly those sessions.
  abbrev pub Serves : Server S P → String → Type 0
  Serves s nick =
      ((get_handler nick s.pool ≡ none) × ((a : ℕ) → is_logged_in s.clients a nick ≡ false))
      ⊎ ((h : UserRef) × (get_handler nick s.pool ≡ some h)
          × ((a : ℕ) × (is_logged_in s.clients a nick ≡ true))
          × ((a : ℕ) → contains a (connections_of h.addr s.pool) ≡ is_logged_in s.clients a nick))

  right-Serves : (s : Server S P) (nick : String) → IsRight s → Serves s nick
  unfolding connections_of
  right-Serves s nick r = elim (Option-cases (get_handler nick s.pool)) [
    | inl e ↦ inl (e, λ a. sym (r.logged_in a nick) ∙ r.tracks.absent nick e a)
    | inr (h, e) ↦
        let (object, m) = r.tracks.manages nick h e in
        let (a, c) = some_item object.connections m.used in
        inr (
          h,
          e,
          (a, ground (arith, c, m.exact a, r.logged_in a nick)),
          λ b. ground (arith, m.stored, m.exact b, r.logged_in b nick),
        )
  ]

module _ {S P : Type 0} (store : MessageStore S) (user_profiles : ProfileStore P)
    (timeout_authorized timeout_unauthorized : ℕ) where
  accept-IsRight :
      (s : Server S P) (addr : ℕ)
      → GoMap.get addr s.clients ≡ none
      → IsRight s
      → IsRight (accept store user_profiles timeout_authorized timeout_unauthorized addr s)
  unfolding accept is_logged_in
  accept-IsRight s addr e r =
      kept-IsRight s addr
        (opened store user_profiles timeout_authorized timeout_unauthorized addr s.pool s.profiles)
        r
        (
          r.online,
          r.tracks,
          refl,
          λ a n.
              ground (arith, r.logged_in a n, open_apart addr r.online a n (r.logged_in addr n), e),
        )

  Step-IsRight :
      {s t : Server S P}
      → Step store user_profiles timeout_authorized timeout_unauthorized s t
      → IsRight s
      → IsRight t
  unfolding receive lose
  Step-IsRight {s} (opens addr e f) r = subst IsRight (sym f) (accept-IsRight s addr e r)
  Step-IsRight {s} (receives addr c frame now e f) r = subst IsRight (sym f) (
      settled-IsRight s addr _ r (
        message-Turned addr (is_logged_in s.clients) store user_profiles timeout_authorized
          timeout_unauthorized (unmarshal_socket_message frame) now (session_of c s)
          (session-Held s addr c e r)))
  Step-IsRight {s} (loses addr c ending e f) r = subst IsRight (sym f) (
      forgotten-IsRight s addr (read_error ending (session_of c s)) r (
        read_error-Held addr (is_logged_in s.clients) ending (session_of c s)
          (session-Held s addr c e r)))
  Step-IsRight {s} (picks before task behind e f) r =
      subst IsRight (sym f) (schedule-IsRight before task behind s r)
  Step-IsRight {s} (serves_others q m f) r =
      let p = s.pool in
      let c = p.channel_store in
      subst IsRight (sym f) (moved-IsRight s q (record c { message_store = m }) p.sent r)

  Reach-IsRight :
      {s t : Server S P}
      → Reach store user_profiles timeout_authorized timeout_unauthorized s t
      → IsRight s
      → IsRight t
  Reach-IsRight here r = r
  Reach-IsRight (next reach step) r = Step-IsRight step (Reach-IsRight reach r)

  -- Whatever connections open, whatever the clients send and in whatever order reads fail and
  -- goroutines run from the start of the server on: a user has a handler exactly if a session that has
  -- not ended is logged in as the user, and the handler has the connections of exactly these sessions.
  -- The calls of the pool are not interleaved with each other.
  pub reachable-Serves :
      (channels : ChannelStore S) (users : P) {s : Server S P} (nick : String)
      → Reach store user_profiles timeout_authorized timeout_unauthorized
          (new_server channels users)
          s
      → Serves s nick
  reachable-Serves channels users {s} nick reach =
      right-Serves s nick (Reach-IsRight reach (new_server-IsRight channels users))
