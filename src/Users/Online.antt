-- ===== src/Users/Online.antt =====
-- user_connections.go, seen from outside: which connections are open, and whose. `Tracks` says that
-- the pool has a handler for exactly the users with an open connection, and that a user's handler has
-- exactly the user's connections.
use sockchat.Prelude.{
  ℕ, ◌≤◌, String, ◌≡◌, Bool, true, false, not, ◌&&◌, none, some, arith, ◌==◌, ==_iff, if◌then◌else◌,
  length, nat_key, string_key, Option-cases, inl, inr,
}
use sockchat.Prelude.GoMap
use sockchat.Prelude.GoMap.{Map, get-set, get-delete}
use sockchat.Prelude.GoSet.{contains, IsDistinct}
use sockchat.ChannelStore.{UserRef}
use sockchat.Users.{ConnectedUsersPool, UserHandler, get_handler, handler_at}

-- The open connections, each with the nick of its user.
abbrev pub Online : Type 0
Online = Map ℕ String

-- Whether the connection is open for that user.
unfoldable pub is_open_for : Online → ℕ → String → Bool
is_open_for online conn nick = elim (GoMap.get conn online) [ none ↦ false | some n ↦ n == nick ]

pub is_open_for-set :
    (online : Online) (conn : ℕ) (nick : String) (c : ℕ) (n : String)
    → is_open_for (GoMap.set conn nick online) c n
      ≡ (if conn == c then nick == n else is_open_for online c n)
unfolding is_open_for
is_open_for-set online conn nick c n = ground (arith, get-set conn c nick online)

pub is_open_for-delete :
    (online : Online) (conn c : ℕ) (n : String)
    → is_open_for (GoMap.delete conn online) c n ≡ (not (conn == c) && is_open_for online c n)
unfolding is_open_for
is_open_for-delete online conn c n = ground (arith, get-delete conn c online)

-- A connection is open for one user.
pub is_open_for_unique :
    (online : Online) (c : ℕ) (m n : String)
    → is_open_for online c m ≡ true
    → is_open_for online c n ≡ (m == n)
unfolding is_open_for
is_open_for_unique online c m n h = elim (Option-cases (GoMap.get c online)) [
  | inl e ↦ ground arith
  | inr (x, e) ↦ ground (arith, ==_iff x m, ==_iff x n, ==_iff m n)
]

-- The handler `h` of a user, with its data.
pub record Manages {S : Type 0} (p : ConnectedUsersPool S) (online : Online) (nick : String)
    (h : UserRef) (object : UserHandler) : Type 0 where
  pub stored : handler_at h.addr p ≡ some object
  pub named : h.nick ≡ nick
  pub owned : object.nick ≡ nick
  pub distinct : IsDistinct object.connections
  pub used : 1 ≤ length object.connections
  pub exact : (conn : ℕ) → contains conn object.connections ≡ is_open_for online conn nick

pub record Tracks {S : Type 0} (p : ConnectedUsersPool S) (online : Online) : Type 0 where
  pub manages :
      (nick : String) (h : UserRef)
      → get_handler nick p ≡ some h
      → (object : UserHandler) × Manages p online nick h object
  pub absent :
      (nick : String)
      → get_handler nick p ≡ none
      → (conn : ℕ) → is_open_for online conn nick ≡ false
  pub known :
      (conn : ℕ) (nick : String)
      → is_open_for online conn nick ≡ true
      → GoMap.get conn p.connections ≡ some nick
  pub fresh : (addr : ℕ) → p.next_addr ≤ addr → handler_at addr p ≡ none
