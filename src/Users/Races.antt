-- ===== src/Users/Races.antt =====
-- user_connections.go: AddConnection looks for the handler in one critical section and adds one in
-- another. Here another call may come in between.
use sockchat.Prelude.{
  ℕ, suc, String, ◌≡◌, ◌≢◌, refl, sym, ap, subst, ◌∙◌, true, false, Option, none, some, [], ◌∷◌,
  arith, ◌++◌, ==_iff, nat_key, string_key,
}
use sockchat.Prelude.GoMap
use sockchat.Prelude.GoMap.{get-set}
use sockchat.Prelude.GoSet
use sockchat.Prelude.GoSet.{contains}
use sockchat.ChannelStore.{UserRef}
use sockchat.Users.{
  ConnectedUsersPool, UserHandler, get_handler, handler_at, connections_of, add_handler,
  handler_add_connection, find_or_add_handler, add_connection, handler_write,
}
use sockchat.Api.WsMessages.{SocketMessage}

module _ {S : Type 0} where
  -- The rest of `AddConnection`, after `GetHandler` has answered.
  unfoldable pub add_connection_after :
      Option UserRef → ℕ → String → ConnectedUsersPool S → ConnectedUsersPool S
  unfolding add_handler handler_add_connection
  add_connection_after answer conn nick p =
      let (handler, q) : UserRef × ConnectedUsersPool S = elim answer [
        | some handler ↦ (handler, p)
        | none ↦ add_handler nick p
      ] in
      let r = handler_add_connection handler.addr conn q in
      record r { connections = GoMap.set conn nick r.connections }

  -- A call that is not disturbed.
  add_connection_undisturbed :
      (conn : ℕ) (nick : String) (p : ConnectedUsersPool S)
      → add_connection conn nick p ≡ add_connection_after (get_handler nick p) conn nick p
  unfolding add_connection find_or_add_handler add_connection_after
  add_connection_undisturbed conn nick p = refl

  -- The pool after a call that has found no handler.
  abbrev added : ℕ → String → ConnectedUsersPool S → ConnectedUsersPool S
  added conn nick p = record p {
    handlers = GoMap.set nick (record { addr = p.next_addr; nick = nick }) p.handlers;
    connections = GoMap.set conn nick p.connections;
    heap =
        GoMap.set p.next_addr (record { nick = nick; connections = conn ∷ [] })
          (GoMap.set p.next_addr (record { nick = nick; connections = [] }) p.heap);
    next_addr = suc p.next_addr;
  }

  add_connection_finds_none :
      (conn : ℕ) (nick : String) (p : ConnectedUsersPool S)
      → add_connection_after none conn nick p ≡ added conn nick p
  unfolding add_connection_after add_handler handler_add_connection GoSet.insert
  add_connection_finds_none conn nick p = ground (
    arith,
    get-set p.next_addr p.next_addr (record { nick = nick; connections = [] }) p.heap,
    ==_iff p.next_addr p.next_addr,
  )

  module _ (first second : ℕ) (nick : String) (p : ConnectedUsersPool S) where
    -- The handler of the nick has the second connection and not the first, which the pool's table
    -- still has, and a message that is written to that handler goes to the second connection only.
    abbrev pub Loses : ConnectedUsersPool S → Type 0
    Loses q =
        (h : UserRef) × (get_handler nick q ≡ some h)
        × (contains first (connections_of h.addr q) ≡ false)
        × (contains second (connections_of h.addr q) ≡ true)
        × (GoMap.get first q.connections ≡ some nick)
        × ((message : SocketMessage)
            → (handler_write h.addr message q).sent ≡ q.sent ++ (second, message) ∷ [])

    added-Loses : first ≢ second → Loses (added second nick (added first nick p))
    unfolding get_handler connections_of contains handler_write
    added-Loses ne =
        let q = added first nick p in
        let new : UserHandler = record { nick = nick; connections = [] } in
        let alone : UserHandler = record { nick = nick; connections = second ∷ [] } in
        let there : handler_at (suc p.next_addr) (added second nick q) ≡ some alone = ground (
          arith,
          get-set (suc p.next_addr) (suc p.next_addr) alone
              (GoMap.set (suc p.next_addr) new q.heap),
          ==_iff (suc p.next_addr) (suc p.next_addr),
        ) in
        (
          record { addr = suc p.next_addr; nick = nick },
          ground (
            arith,
            get-set nick nick (record { addr = suc p.next_addr; nick = nick }) q.handlers,
            ==_iff nick nick,
          ),
          ground (arith, there, ==_iff second first, ne),
          ground (arith, there, ==_iff second second),
          ground (
            arith,
            get-set second first nick q.connections,
            get-set first first nick p.connections,
            ==_iff first first,
          ),
          λ message. ground (arith, there),
        )

    -- Two connections log in for a user that has no handler, and both calls of `AddConnection` look
    -- for the handler before one of them has added it. Then each adds one, and the second replaces the
    -- first: the user's handler has the second connection and not the first, which the pool's table
    -- still lists for the user. A message that is written to the handler that the pool then has for the
    -- user goes to the second connection and to no other.
    pub add_connection_after-Loses :
        get_handler nick p ≡ none
        → first ≢ second
        → Loses (
            add_connection_after
              (get_handler nick p)
              second
              nick
              (add_connection_after (get_handler nick p) first nick p))
    add_connection_after-Loses h ne =
        let found_none : add_connection_after none second nick
              (add_connection_after none first nick p)
            ≡ added second nick (added first nick p) =
          ap (add_connection_after none second nick) (add_connection_finds_none first nick p)
          ∙ add_connection_finds_none second nick (added first nick p) in
        let both : add_connection_after (get_handler nick p) second nick
              (add_connection_after (get_handler nick p) first nick p)
            ≡ added second nick (added first nick p) =
          ap (λ a. add_connection_after a second nick (add_connection_after a first nick p)) h
          ∙ found_none in
        subst Loses (sym both) (added-Loses ne)
