-- ===== src/Users/Calls.antt =====
-- user_connections.go: calls of AddConnection and RemoveConnection that overlap. A thread stands at one
-- of the critical sections of its call, and a step runs that section.
pub mod Alone
pub mod Owners
pub mod Losses
use sockchat.Prelude.{
  ℕ, zero, suc, String, Bool, true, false, Option, none, some, List, [], ◌∷◌, if◌then◌else◌, ltb,
  nat_key, string_key,
}
use sockchat.Prelude.GoMap
use sockchat.ChannelStore.{UserRef}
use sockchat.Users.{
  ConnectedUsersPool, get_handler, add_handler, handler_add_connection, handler_remove_connection,
  get_active_connections_count, nick_of, drop_handler,
}

-- The section that comes next. `adds` looks for the handler, `misses` makes one, `joins` puts the
-- connection into the handler, and `lists` into the pool's table. `removes` reads the pool's table,
-- `looks_up` looks for the handler, `counts` counts its connections, `shrinks` takes the connection out
-- of the handler, and `drops` takes the handler out of the pool.
pub data Thread : Type 0 where
  adds misses lists : (conn : ℕ) (nick : String) → Thread
  joins : (conn : ℕ) (nick : String) (handler : UserRef) → Thread
  removes : (conn : ℕ) → Thread
  looks_up : (conn : ℕ) (nick : String) → Thread
  counts drops : (conn : ℕ) (nick : String) (handler : UserRef) → Thread
  shrinks : (conn : ℕ) (handler : UserRef) → Thread
  returned : Thread

abbrev found_for : ℕ → String → Option UserRef → Thread
found_for conn nick none = misses conn nick
found_for conn nick (some handler) = joins conn nick handler

abbrev counts_for : ℕ → String → Option UserRef → Thread
counts_for conn nick none = returned
counts_for conn nick (some handler) = counts conn nick handler

module _ {S : Type 0} where
  -- One critical section.
  unfoldable pub advance : Thread → ConnectedUsersPool S → Thread × ConnectedUsersPool S
  unfolding get_handler add_handler handler_add_connection handler_remove_connection nick_of
      get_active_connections_count
  advance (adds conn nick) p = (found_for conn nick (get_handler nick p), p)
  advance (misses conn nick) p =
      let (handler, q) = add_handler nick p in (joins conn nick handler, q)
  advance (joins conn nick handler) p =
      (lists conn nick, handler_add_connection handler.addr conn p)
  advance (lists conn nick) p =
      (returned, record p { connections = GoMap.set conn nick p.connections })
  advance (removes conn) p = (looks_up conn (nick_of conn p), p)
  advance (looks_up conn nick) p = (counts_for conn nick (get_handler nick p), p)
  advance (counts conn nick handler) p = (
    if ltb 1 (get_active_connections_count handler.addr p)
        then shrinks conn handler
        else drops conn nick handler,
    p,
  )
  advance (shrinks conn handler) p = (returned, handler_remove_connection handler.addr conn p)
  advance (drops conn nick handler) p = (returned, drop_handler nick conn handler p)
  advance returned p = (returned, p)

  -- The thread at a place runs its next section; beyond the end there is none.
  unfoldable pub advance_at :
      ℕ → List Thread → ConnectedUsersPool S → List Thread × ConnectedUsersPool S
  unfolding advance
  advance_at n [] p = ([], p)
  advance_at zero (t ∷ ts) p = let (u, q) = advance t p in (u ∷ ts, q)
  advance_at (suc n) (t ∷ ts) p = let (us, q) = advance_at n ts p in (t ∷ us, q)

  -- The threads run in the order that the scheduler's choices give.
  unfoldable pub overlap :
      List ℕ → List Thread → ConnectedUsersPool S → List Thread × ConnectedUsersPool S
  unfolding advance_at
  overlap [] ts p = (ts, p)
  overlap (n ∷ ns) ts p = let (us, q) = advance_at n ts p in overlap ns us q

  -- A call that is not disturbed runs its sections one after the other.
  unfoldable pub run_alone : ℕ → Thread → ConnectedUsersPool S → Thread × ConnectedUsersPool S
  unfolding advance
  run_alone zero t p = (t, p)
  run_alone (suc n) t p = let (u, q) = advance t p in run_alone n u q
