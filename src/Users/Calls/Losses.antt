-- ===== src/Users/Calls/Losses.antt =====
-- user_connections.go: a connection that is lost while calls overlap.
use sockchat.Prelude.{
  ℕ, String, ◌≡◌, ◌≢◌, refl, sym, ap, subst, ◌∙◌, true, false, none, some, List, [], ◌∷◌, arith,
  ltb, length, nat_key, string_key, ◌==◌, ==_iff, ==_refl,
}
use sockchat.Prelude.GoMap
use sockchat.Prelude.GoMap.{get-set, get-delete}
use sockchat.Prelude.GoSet
use sockchat.Prelude.GoSet.{single_item, contains}
use sockchat.ChannelStore.{UserRef}
use sockchat.Users.{
  ConnectedUsersPool, UserHandler, get_handler, handler_at, handler_add_connection, nick_of,
  get_active_connections_count, drop_handler, connections_of,
}
use sockchat.Users.Online.{Online, Tracks, Manages, is_open_for}
use sockchat.Users.Close.{has_handler, others_apart}
use sockchat.Users.Calls.{
  Thread, looks_up, counts, adds, removes, returned, drops, joins, lists, advance, advance_at,
  overlap,
}

module _ {S : Type 0} (ns : List ℕ) (t u v : Thread) (p q : ConnectedUsersPool S) where
  first_runs : advance t p ≡ (v, q) → overlap (0 ∷ ns) (t ∷ u ∷ []) p ≡ overlap ns (v ∷ u ∷ []) q
  unfolding overlap advance_at
  first_runs e = ap (λ (o : Thread × ConnectedUsersPool S). overlap ns (o.0 ∷ u ∷ []) o.1) e

  second_runs : advance u p ≡ (v, q) → overlap (1 ∷ ns) (t ∷ u ∷ []) p ≡ overlap ns (t ∷ v ∷ []) q
  unfolding overlap advance_at
  second_runs e = ap (λ (o : Thread × ConnectedUsersPool S). overlap ns (t ∷ o.0 ∷ []) o.1) e

module _ {S : Type 0} (p : ConnectedUsersPool S) (old new : ℕ) (nick : String) where
  -- Both calls have returned, the pool's table lists the new connection for a user that has no handler,
  -- and no handler of the pool has this connection.
  abbrev Forgets : List Thread × ConnectedUsersPool S → Type 0
  Forgets (ts, q) =
      (ts ≡ returned ∷ returned ∷ [])
      × (get_handler nick q ≡ none)
      × (GoMap.get new q.connections ≡ some nick)
      × ((n : String) (k : UserRef)
          → get_handler n q ≡ some k
          → contains new (connections_of k.addr q) ≡ false)

  abbrev pub schedule : List ℕ
  schedule = 0 ∷ 0 ∷ 0 ∷ 1 ∷ 1 ∷ 1 ∷ 0 ∷ []

  abbrev beside : UserRef → ConnectedUsersPool S
  beside h =
      let q = handler_add_connection h.addr new p in
      drop_handler nick old h (record q { connections = GoMap.set new nick q.connections })

  overlapped :
      (h : UserRef) (o : UserHandler)
      → GoMap.get old p.connections ≡ some nick
      → get_handler nick p ≡ some h
      → handler_at h.addr p ≡ some o
      → ltb 1 (length o.connections) ≡ false
      → overlap schedule (removes old ∷ adds new nick ∷ []) p ≡ (returned ∷ returned ∷ [], beside h)
  unfolding advance overlap nick_of get_active_connections_count
  overlapped h o known here at one =
      let q = handler_add_connection h.addr new p in
      let r = record q { connections = GoMap.set new nick q.connections } in
      first_runs (0 ∷ 0 ∷ 1 ∷ 1 ∷ 1 ∷ 0 ∷ []) (removes old) (adds new nick) (looks_up old nick) p p
        (ground (arith, known))
      ∙ first_runs (0 ∷ 1 ∷ 1 ∷ 1 ∷ 0 ∷ []) (looks_up old nick) (adds new nick) (counts old nick h)
          p p (ground (arith, here))
      ∙ first_runs (1 ∷ 1 ∷ 1 ∷ 0 ∷ []) (counts old nick h) (adds new nick) (drops old nick h) p p
          (ground (arith, at, one))
      ∙ second_runs (1 ∷ 1 ∷ 0 ∷ []) (drops old nick h) (adds new nick) (joins new nick h) p p
          (ground (arith, here))
      ∙ second_runs (1 ∷ 0 ∷ []) (drops old nick h) (joins new nick h) (lists new nick) p q refl
      ∙ second_runs (0 ∷ []) (drops old nick h) (lists new nick) returned q r refl
      ∙ first_runs [] (drops old nick h) returned returned r (drop_handler nick old h r) refl

  -- The new connection is in the handler that is dropped, and the others are those of other users.
  in_no_handler :
      (online : Online) (h : UserRef) (o : UserHandler)
      → Tracks p online
      → is_open_for online old nick ≡ true
      → ((n : String) → is_open_for online new n ≡ false)
      → get_handler nick p ≡ some h
      → Manages p online nick h o
      → (n : String) (k : UserRef) → get_handler n (beside h) ≡ some k
      → contains new (connections_of k.addr (beside h)) ≡ false
  unfolding handler_add_connection get_handler connections_of
  in_no_handler online h o tracks is_open unopened here m n k e =
      let ne : n ≢ nick = λ x. ground (arith, get-delete nick n p.handlers, ==_iff nick n) in
      let before : get_handler n p ≡ some k = ground (arith, get-delete nick n p.handlers) in
      let (o', m') = tracks.manages n k before in
      let apart = others_apart p online old nick tracks is_open h o here m n k o' ne m' in
      let extended : UserHandler = record o { connections = GoSet.insert new o.connections } in
      ground (
        arith,
        m.stored,
        m'.stored,
        apart,
        ==_iff h.addr k.addr,
        get-set h.addr k.addr extended p.heap,
        m'.exact new,
        unopened n,
      )

  beside-Forgets :
      (h : UserRef) (o : UserHandler)
      → old ≢ new
      → handler_at h.addr p ≡ some o
      → ((n : String) (k : UserRef)
          → get_handler n (beside h) ≡ some k
          → contains new (connections_of k.addr (beside h)) ≡ false)
      → Forgets (returned ∷ returned ∷ [], beside h)
  unfolding handler_add_connection get_handler
  beside-Forgets h o ne at nowhere = (
    refl,
    ground (arith, at, get-delete nick nick p.handlers, ==_refl nick),
    ground (
      arith,
      at,
      ne,
      ==_iff old new,
      ==_refl new,
      get-delete old new (GoMap.set new nick p.connections),
      get-set new new nick p.connections,
    ),
    nowhere,
  )

  -- The user's last open connection is closed while one that is not open logs in: RemoveConnection has counted
  -- one connection, AddConnection then runs to its end with the handler that is still there, and
  -- RemoveConnection takes this handler out of the pool. Both calls have returned, and the new
  -- connection, which the pool's table lists for the user, belongs to no handler of the pool.
  pub removes-Forgets :
      (online : Online)
      → Tracks p online
      → is_open_for online old nick ≡ true
      → ((c : ℕ) → is_open_for online c nick ≡ (old == c))
      → ((n : String) → is_open_for online new n ≡ false)
      → let (ts, q) = overlap schedule (removes old ∷ adds new nick ∷ []) p in
        (ts ≡ returned ∷ returned ∷ [])
        × (get_handler nick q ≡ none)
        × (GoMap.get new q.connections ≡ some nick)
        × ((n : String) (k : UserRef)
            → get_handler n q ≡ some k
            → contains new (connections_of k.addr q) ≡ false)
  removes-Forgets online tracks is_open last unopened =
      let ne : old ≢ new =
        λ x. absurd (cc (is_open, unopened nick, ap (λ c. is_open_for online c nick) x)) in
      let (h, o, here, m) = has_handler p online old nick tracks is_open in
      let one = single_item old o.connections m.distinct (λ c. m.exact c ∙ last c) in
      subst Forgets
        (sym (overlapped h o (tracks.known old nick is_open) here m.stored (ground (arith, one))))
        (beside-Forgets h o ne m.stored (in_no_handler online h o tracks is_open unopened here m))
