-- ===== src/Services/Server.antt =====
-- services/messaging.go over user_connections.go: all sessions of the server at once. A connection
-- opens, a message arrives, a read fails and a goroutine is picked in any order.
pub mod Logins
use sockchat.Prelude.{
  ℕ, String, ◌≡◌, refl, Bool, true, false, ◌&&◌, Option, none, some, List, [], ◌∷◌, ◌++◌, arith,
  ◌==◌, ==_iff, if◌then◌else◌, string_key, nat_key,
}
use sockchat.Prelude.GoMap
use sockchat.Prelude.GoMap.{Map}
use sockchat.Api.Structs.{ℤ}
use sockchat.Api.Json.{Json}
use sockchat.ChannelStore.{ChannelStore, MessageStore, Task}
use sockchat.Users.{ConnectedUsersPool, new_connected_users_pool, run_goroutine}
use sockchat.Services.Interfaces.{ProfileStore}
use sockchat.Services.Messaging.{
  SockChatWs, Session, Next, continues, breaks, panics, hangs, Ending, read_error, shut_connection,
  serve_message, opened, unmarshal_socket_message,
}

-- What a session keeps for itself: its connection and its user's nick.
pub record Client : Type 0 where
  pub conn : SockChatWs
  pub nick : String

-- The state that the sessions share, and the sessions that have not ended, by their connections'
-- addresses.
pub record Server (S P : Type 0) : Type 0 where
  pub pool : ConnectedUsersPool S
  pub profiles : P
  pub clients : Map ℕ Client

-- Whether the session at the address has logged in as that user.
unfoldable pub is_logged_in : Map ℕ Client → ℕ → String → Bool
is_logged_in clients addr nick = elim (GoMap.get addr clients) [
  | none ↦ false
  | some c ↦ c.conn.authorized && c.nick == nick
]

module _ {S P : Type 0} where
  unfoldable pub new_server : ChannelStore S → P → Server S P
  unfolding new_connected_users_pool
  new_server store profiles = record {
    pool = new_connected_users_pool store;
    profiles = profiles;
    clients = [];
  }

  -- The session of a client, with the shared state, and back.
  abbrev pub session_of : Client → Server S P → Session S P
  session_of c s = record { conn = c.conn; nick = c.nick; pool = s.pool; profiles = s.profiles }

  abbrev pub keep : ℕ → Session S P → Server S P → Server S P
  keep addr t s = record s {
    pool = t.pool;
    profiles = t.profiles;
    clients = GoMap.set addr (record { conn = t.conn; nick = t.nick }) s.clients;
  }

  abbrev pub forget : ℕ → Session S P → Server S P → Server S P
  forget addr t s = record s {
    pool = t.pool;
    profiles = t.profiles;
    clients = GoMap.delete addr s.clients;
  }

  -- What becomes of a session after a turn of its loop: a session that leaves the loop runs its
  -- deferred call and is gone.
  unfoldable pub settle : ℕ → Next × Session S P → Server S P → Server S P
  unfolding shut_connection
  settle addr (continues, t) s = keep addr t s
  settle addr (breaks, t) s = forget addr (shut_connection t) s
  settle addr (panics, t) s = forget addr (shut_connection t) s
  settle addr (hangs, t) s = keep addr t s

  -- A read fails, so the loop is left.
  unfoldable pub lose : ℕ → Ending → Client → Server S P → Server S P
  unfolding read_error shut_connection
  lose addr ending c s = forget addr (shut_connection (read_error ending (session_of c s))) s

  -- A goroutine of the channel store runs.
  unfoldable pub schedule : List Task → Task → List Task → Server S P → Server S P
  unfolding run_goroutine
  schedule before task behind s =
      let p = s.pool in
      let c = p.channel_store in
      record s {
        pool =
            run_goroutine task
              (record p { channel_store = record c { spawned = before ++ behind } });
      }

  -- What the HTTP and gRPC APIs may do.
  abbrev serve_elsewhere : P → S → Server S P → Server S P
  serve_elsewhere q m s =
      let p = s.pool in
      let c = p.channel_store in
      record s { profiles = q; pool = record p { channel_store = record c { message_store = m } } }

module _ {S P : Type 0} (store : MessageStore S) (user_profiles : ProfileStore P)
    (timeout_authorized timeout_unauthorized : ℕ) where
  -- The beginning of `ServeSession`.
  unfoldable pub accept : ℕ → Server S P → Server S P
  accept addr s =
      keep addr
        (opened store user_profiles timeout_authorized timeout_unauthorized addr s.pool s.profiles)
        s

  -- A turn of the loop of `ServeSession`.
  unfoldable pub receive : ℕ → Json → ℤ → Client → Server S P → Server S P
  unfolding serve_message unmarshal_socket_message settle
  receive addr frame now c s =
      settle addr
        (serve_message store user_profiles timeout_authorized timeout_unauthorized
          (unmarshal_socket_message frame) now (session_of c s))
        s

-- One step of the server. A new connection has an address that no session has; the HTTP and gRPC
-- APIs may change the users' profiles and the state of the message store, and nothing else.
pub data Step {S P : Type 0} (store : MessageStore S) (user_profiles : ProfileStore P)
    (timeout_authorized timeout_unauthorized : ℕ) (s t : Server S P) : Type 0 where
  opens :
      (addr : ℕ)
      → GoMap.get addr s.clients ≡ none
      → t ≡ accept store user_profiles timeout_authorized timeout_unauthorized addr s
      → Step store user_profiles timeout_authorized timeout_unauthorized s t
  receives :
      (addr : ℕ) (c : Client) (frame : Json) (now : ℤ)
      → GoMap.get addr s.clients ≡ some c
      → t ≡ receive store user_profiles timeout_authorized timeout_unauthorized addr frame now c s
      → Step store user_profiles timeout_authorized timeout_unauthorized s t
  loses :
      (addr : ℕ) (c : Client) (ending : Ending)
      → GoMap.get addr s.clients ≡ some c
      → t ≡ lose addr ending c s
      → Step store user_profiles timeout_authorized timeout_unauthorized s t
  picks :
      (before : List Task) (task : Task) (behind : List Task)
      → s.pool.channel_store.spawned ≡ before ++ task ∷ behind
      → t ≡ schedule before task behind s
      → Step store user_profiles timeout_authorized timeout_unauthorized s t
  serves_others :
      (q : P) (m : S)
      → t ≡ serve_elsewhere q m s
      → Step store user_profiles timeout_authorized timeout_unauthorized s t

pub data Reach {S P : Type 0} (store : MessageStore S) (user_profiles : ProfileStore P)
    (timeout_authorized timeout_unauthorized : ℕ) (s : Server S P) : Server S P → Type 0 where
  here : Reach store user_profiles timeout_authorized timeout_unauthorized s s
  next :
      {t w : Server S P}
      → Reach store user_profiles timeout_authorized timeout_unauthorized s t
      → Step store user_profiles timeout_authorized timeout_unauthorized t w
      → Reach store user_profiles timeout_authorized timeout_unauthorized s w
