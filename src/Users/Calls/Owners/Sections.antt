-- ===== src/Users/Calls/Owners/Sections.antt =====
-- user_connections.go: whose connections a handler has after any number of critical sections.
use sockchat.Prelude.{
  ℕ, zero, suc, String, ◌≡◌, refl, sym, ap, ◌∙◌, Bool, true, false, Option, none, some, List, [],
  ◌∷◌, arith, inl, inr, Bool-cases, ltb, nat_key, string_key, if◌then◌else◌, ==_iff, ◌==◌, All,
  All-mono,
}
use sockchat.Prelude.GoMap
use sockchat.Prelude.GoMap.{get-set, get-delete}
use sockchat.Prelude.GoSet
use sockchat.Prelude.GoSet.{contains, contains-insert, contains-delete}
use sockchat.ChannelStore.{ChannelStore, UserRef}
use sockchat.Users.{
  ConnectedUsersPool, UserHandler, get_handler, handler_at, add_handler, handler_add_connection,
  handler_remove_connection, get_active_connections_count, drop_handler, connections_of,
  new_connected_users_pool,
}
use sockchat.Users.Calls.{
  Thread, adds, misses, joins, lists, removes, looks_up, counts, shrinks, drops, returned,
  found_for, counts_for, advance, advance_at, overlap,
}
use sockchat.Users.Calls.Owners.{
  is_called, Begins, Owned, IsHonest, Grows, grown-IsHonest, write-Owned,
}

module _ {S : Type 0} (calls : List Thread) where
  abbrev Safe : ConnectedUsersPool S → ConnectedUsersPool S → Type 0
  Safe p q = Grows calls p q × Owned calls q

  stays : (p : ConnectedUsersPool S) → Owned calls p → Safe p p
  stays p owned = ((λ a o e. (o, e, refl)), owned)

  module _ (p : ConnectedUsersPool S) (owned : Owned calls p) (nick : String) where
    abbrev new_object : UserHandler
    new_object = record { nick = nick; connections = [] }

    abbrev newcomer : UserRef
    newcomer = record { addr = p.next_addr; nick = nick }

    new-Grows : Grows calls p (add_handler nick p).1
    unfolding add_handler
    new-Grows a o e = (
      o,
      ground (
        arith,
        e,
        owned.fresh p.next_addr,
        ==_iff p.next_addr a,
        get-set p.next_addr a new_object p.heap,
        ap (λ x. handler_at x p),
      ),
      refl,
    )

    new_there : handler_at p.next_addr (add_handler nick p).1 ≡ some new_object
    unfolding add_handler
    new_there =
        ground
          (arith, ==_iff p.next_addr p.next_addr, get-set p.next_addr p.next_addr new_object p.heap)

    new-Owned : Owned calls (add_handler nick p).1
    unfolding add_handler get_handler contains
    new-Owned = record {
      named = λ n h e. elim (Bool-cases (nick == n)) [
        | inl same ↦
            let one : newcomer ≡ h = ground (arith, same, e, get-set nick n newcomer p.handlers) in
            (
              new_object,
              ap (λ (x : UserRef). handler_at x.addr (add_handler nick p).1) (sym one) ∙ new_there,
              (==_iff nick n).0 same,
            )
        | inr other ↦
            let (o, e₁, m) =
              owned.named n h (ground (arith, other, e, get-set nick n newcomer p.handlers)) in
            let (o', e₂, m') = new-Grows h.addr o e₁ in (o', e₂, m' ∙ m)
      ];
      kept = λ a o conn e c. elim (Bool-cases (p.next_addr == a)) [
        | inl same ↦
            let one : new_object ≡ o =
              ground (arith, same, e, get-set p.next_addr a new_object p.heap) in
            absurd (cc (ap (λ (x : UserHandler). contains conn x.connections) one ∙ c))
        | inr other ↦
            owned.kept a o conn (ground (arith, other, e, get-set p.next_addr a new_object p.heap))
              c
      ];
      fresh = λ a l.
          ground (
            arith,
            l,
            owned.fresh a,
            ==_iff p.next_addr a,
            get-set p.next_addr a new_object p.heap,
          );
    }

  drop-Owned :
      (p : ConnectedUsersPool S) (conn : ℕ) (nick : String) (h : UserRef)
      → Owned calls p
      → Owned calls (drop_handler nick conn h p)
  unfolding get_handler
  drop-Owned p conn nick h owned = record {
    named = λ n k e. owned.named n k (ground (arith, e, get-delete nick n p.handlers));
    kept = owned.kept;
    fresh = owned.fresh;
  }

  list-Owned :
      (p : ConnectedUsersPool S) (conn : ℕ) (nick : String)
      → Owned calls p
      → Owned calls (record p { connections = GoMap.set conn nick p.connections })
  unfolding get_handler
  list-Owned p conn nick owned = record {
    named = owned.named;
    kept = owned.kept;
    fresh = owned.fresh;
  }

  -- What a thread does is safe, and the thread is honest afterwards.
  abbrev Moves : ConnectedUsersPool S → Thread × ConnectedUsersPool S → Type 0
  Moves p (u, q) = Safe p q × IsHonest calls q u

  join-Moves :
      (p : ConnectedUsersPool S) (conn : ℕ) (nick : String) (h : UserRef)
      → Owned calls p
      → IsHonest calls p (joins conn nick h)
      → Moves p (advance (joins conn nick h) p)
  unfolding advance handler_add_connection
  join-Moves p conn nick h owned (called, (o, e, n)) = (
    write-Owned calls p owned h.addr (GoSet.insert conn) (λ o₁ c e₁ inside.
        elim (Bool-cases (conn == c)) [
          | inl same ↦
              let one : o ≡ o₁ = cc (e, e₁) in
              ap (λ (x : UserHandler). is_called c x.nick calls) (sym one)
              ∙ ap (λ x. is_called c x calls) n
              ∙ ap (λ x. is_called x nick calls) (sym ((==_iff conn c).0 same))
              ∙ called
          | inr other ↦
              owned.kept h.addr o₁ c e₁
                (ground (arith, inside, other, contains-insert conn c o₁.connections))
        ]),
    tt,
  )

  shrink-Moves :
      (p : ConnectedUsersPool S) (conn : ℕ) (h : UserRef)
      → Owned calls p
      → Moves p (advance (shrinks conn h) p)
  unfolding advance handler_remove_connection
  shrink-Moves p conn h owned = (
    write-Owned calls p owned h.addr (GoSet.delete conn) (λ o₁ c e₁ inside.
        owned.kept h.addr o₁ c e₁ (ground (arith, inside, contains-delete conn c o₁.connections))),
    tt,
  )

  looks-Moves :
      (p : ConnectedUsersPool S) (conn : ℕ) (nick : String) (o : Option UserRef)
      → get_handler nick p ≡ o
      → Owned calls p
      → is_called conn nick calls ≡ true
      → Moves p (found_for conn nick o, p)
  looks-Moves p conn nick none e owned called = (stays p owned, called)
  looks-Moves p conn nick (some h) e owned called = (stays p owned, (called, owned.named nick h e))

  counts-Moves :
      (p : ConnectedUsersPool S) (conn : ℕ) (nick : String) (o : Option UserRef)
      → Owned calls p
      → Moves p (counts_for conn nick o, p)
  counts-Moves p conn nick none owned = (stays p owned, tt)
  counts-Moves p conn nick (some h) owned = (stays p owned, tt)

  splits-Moves :
      (p : ConnectedUsersPool S) (conn : ℕ) (nick : String) (h : UserRef) (b : Bool)
      → Owned calls p
      → Moves p (if b then shrinks conn h else drops conn nick h, p)
  splits-Moves p conn nick h true owned = (stays p owned, tt)
  splits-Moves p conn nick h false owned = (stays p owned, tt)

  advance-Moves :
      (t : Thread) (p : ConnectedUsersPool S)
      → Owned calls p
      → IsHonest calls p t
      → Moves p (advance t p)
  unfolding advance
  advance-Moves (adds conn nick) p owned called =
      looks-Moves p conn nick (get_handler nick p) refl owned called
  advance-Moves (misses conn nick) p owned called = (
    (new-Grows p owned nick, new-Owned p owned nick),
    (called, (new_object p owned nick, new_there p owned nick, refl)),
  )
  advance-Moves (joins conn nick h) p owned honest = join-Moves p conn nick h owned honest
  advance-Moves (lists conn nick) p owned honest =
      (((λ a o e. (o, e, refl)), list-Owned p conn nick owned), tt)
  advance-Moves (removes conn) p owned honest = (stays p owned, tt)
  advance-Moves (looks_up conn nick) p owned honest =
      counts-Moves p conn nick (get_handler nick p) owned
  advance-Moves (counts conn nick h) p owned honest =
      splits-Moves p conn nick h (ltb 1 (get_active_connections_count h.addr p)) owned
  advance-Moves (shrinks conn h) p owned honest = shrink-Moves p conn h owned
  advance-Moves (drops conn nick h) p owned honest =
      (((λ a o e. (o, e, refl)), drop-Owned p conn nick h owned), tt)
  advance-Moves returned p owned honest = (stays p owned, tt)

  AllMove : ConnectedUsersPool S → List Thread × ConnectedUsersPool S → Type 0
  AllMove p (us, q) = Safe p q × All (IsHonest calls q) us

  advance_at-AllMove :
      (n : ℕ) (ts : List Thread) (p : ConnectedUsersPool S)
      → Owned calls p
      → All (IsHonest calls p) ts
      → AllMove p (advance_at n ts p)
  unfolding AllMove advance_at
  advance_at-AllMove n [] p owned all = (stays p owned, tt)
  advance_at-AllMove zero (t ∷ ts) p owned all =
      let (u, q) = advance t p in
      let (safe, honest) = advance-Moves t p owned all.0 in
      (
        safe,
        (
          honest,
          All-mono (IsHonest calls p) (IsHonest calls q) ts (λ x. grown-IsHonest calls p q x safe.0)
              all.1,
        ),
      )
  advance_at-AllMove (suc n) (t ∷ ts) p owned all =
      let (us, q) = advance_at n ts p in
      let (safe, honest) = advance_at-AllMove n ts p owned all.1 in
      (safe, (grown-IsHonest calls p q t safe.0 all.0, honest))

  overlap-Owned :
      (ns : List ℕ) (ts : List Thread) (p : ConnectedUsersPool S)
      → Owned calls p
      → All (IsHonest calls p) ts
      → Owned calls (overlap ns ts p).1
  unfolding overlap AllMove
  overlap-Owned [] ts p owned all = owned
  overlap-Owned (n ∷ ns) ts p owned all =
      let (us, q) = advance_at n ts p in
      let (safe, honest) = advance_at-AllMove n ts p owned all in
      overlap-Owned ns us q safe.1 honest

  begin-IsHonest :
      (p : ConnectedUsersPool S) (ts : List Thread)
      → ((conn : ℕ) (nick : String)
          → is_called conn nick ts ≡ true
          → is_called conn nick calls ≡ true)
      → All Begins ts
      → All (IsHonest calls p) ts
  unfolding is_called
  begin-IsHonest p [] within begins = tt
  begin-IsHonest p (adds conn nick ∷ ts) within begins = (
    within conn nick (ground (arith, ==_iff conn conn, ==_iff nick nick)),
    begin-IsHonest p ts (λ c n e. within c n (ground (arith, e))) begins.1,
  )
  begin-IsHonest p (removes conn ∷ ts) within begins =
      (tt, begin-IsHonest p ts (λ c n e. within c n (ground (arith, e))) begins.1)
  begin-IsHonest p (misses conn nick ∷ ts) within begins = absurd begins.0
  begin-IsHonest p (lists conn nick ∷ ts) within begins = absurd begins.0
  begin-IsHonest p (joins conn nick h ∷ ts) within begins = absurd begins.0
  begin-IsHonest p (looks_up conn nick ∷ ts) within begins = absurd begins.0
  begin-IsHonest p (counts conn nick h ∷ ts) within begins = absurd begins.0
  begin-IsHonest p (drops conn nick h ∷ ts) within begins = absurd begins.0
  begin-IsHonest p (shrinks conn h ∷ ts) within begins = absurd begins.0
  begin-IsHonest p (returned ∷ ts) within begins = absurd begins.0

  new-pool-Owned : (store : ChannelStore S) → Owned calls (new_connected_users_pool store)
  unfolding new_connected_users_pool get_handler GoMap.get
  new-pool-Owned store = record {
    named = λ nick h e. absurd (cc e);
    kept = λ addr o conn e c. absurd (cc e);
    fresh = λ addr l. refl;
  }

-- However calls of `AddConnection` and `RemoveConnection` overlap, in a pool that begins empty: the
-- handler of a nick has only connections that one of the calls adds for this nick. So a message to a
-- user never goes to a connection of somebody else.
pub overlap-Owners :
    {S : Type 0} (store : ChannelStore S) (calls : List Thread) (ns : List ℕ)
    → All Begins calls
    → let (ts, q) = overlap ns calls (new_connected_users_pool store) in
      (nick : String) (h : UserRef) (conn : ℕ)
      → get_handler nick q ≡ some h
      → contains conn (connections_of h.addr q) ≡ true
      → is_called conn nick calls ≡ true
unfolding connections_of
overlap-Owners store calls ns begins nick h conn e inside =
    let p = new_connected_users_pool store in
    let owned =
      overlap-Owned calls ns calls p (new-pool-Owned calls store)
        (begin-IsHonest calls p calls (λ c n x. x) begins) in
    let (o, e₁, n) = owned.named nick h e in
    sym (ap (λ x. is_called conn x calls) n)
    ∙ owned.kept h.addr o conn e₁ (ground (arith, inside, e₁))
