-- ===== src/Users/Close.antt =====
-- user_connections.go: `RemoveConnection` and the open connections.
use sockchat.Prelude.{
  ℕ, String, ◌≡◌, ◌≢◌, ap, sym, ◌∙◌, true, false, some, arith, ◌==◌, ==_iff, ==_refl, ltb, length,
  nat_key, string_key, Bool-cases, Option-cases, none, inl, inr, subst,
}
use sockchat.Prelude.GoMap
use sockchat.Prelude.GoMap.{Map, get-set, get-delete}
use sockchat.Prelude.GoSet
use sockchat.Prelude.GoSet.{
  contains, contains-delete, delete-IsDistinct, length-delete, contains_single, IsDistinct,
  two_items, single_item,
}
use sockchat.ChannelStore.{UserRef, disconnect_user}
use sockchat.Users.{
  ConnectedUsersPool, UserHandler, get_handler, handler_at, remove_connection, drop_handler,
}
use sockchat.Users.Online.{
  Online, is_open_for, is_open_for-delete, is_open_for_unique, Manages, Tracks,
}

module _ {S : Type 0} (p : ConnectedUsersPool S) (conn : ℕ) where
  abbrev shrunk : UserHandler → UserHandler
  shrunk object = record object { connections = GoSet.delete conn object.connections }

  -- The pool after a connection of a handler that has more.
  abbrev closed_one : UserRef → UserHandler → ConnectedUsersPool S
  closed_one h object = record p { heap = GoMap.set h.addr (shrunk object) p.heap }

  remove_connection_one :
      (nick : String) (h : UserRef) (object : UserHandler)
      → GoMap.get conn p.connections ≡ some nick
      → get_handler nick p ≡ some h
      → handler_at h.addr p ≡ some object
      → ltb 1 (length object.connections) ≡ true
      → remove_connection conn p ≡ closed_one h object
  unfolding remove_connection
  remove_connection_one nick h object c e m l = ground arith

  remove_connection_last :
      (nick : String) (h : UserRef) (object : UserHandler)
      → GoMap.get conn p.connections ≡ some nick
      → get_handler nick p ≡ some h
      → handler_at h.addr p ≡ some object
      → ltb 1 (length object.connections) ≡ false
      → remove_connection conn p ≡ drop_handler nick conn h p
  unfolding remove_connection
  remove_connection_last nick h object c e m l = ground arith

module _ {S : Type 0} (p : ConnectedUsersPool S) (online : Online) (conn : ℕ) (nick : String)
    (tracks : Tracks p online) (is_open : is_open_for online conn nick ≡ true) (h : UserRef)
    (object : UserHandler) (here : get_handler nick p ≡ some h)
    (m : Manages p online nick h object) where
  abbrev online_after : Online
  online_after = GoMap.delete conn online

  -- The connection is in its user's handler, and in no other.
  in_handler : contains conn object.connections ≡ true
  in_handler = m.exact conn ∙ is_open

  pub others_apart :
      (n : String) (k : UserRef) (o : UserHandler)
      → n ≢ nick
      → Manages p online n k o
      → k.addr ≢ h.addr
  others_apart n k o ne m' e = ne (sym m'.owned ∙ ap (λ (x : UserHandler). x.nick) one ∙ m.owned)
    where
      one : o ≡ object
      one = cc (m'.stored, m.stored, ap (λ a. handler_at a p) e)

  -- The connections of another user are open as before.
  others_open :
      (n : String) → n ≢ nick → (c : ℕ) → is_open_for online_after c n ≡ is_open_for online c n
  others_open n ne c = ground (
    arith,
    is_open_for-delete online conn c n,
    is_open_for_unique online conn nick n is_open,
    ==_iff nick n,
    ne,
  )

  others_Manages :
      (q : ConnectedUsersPool S) (n : String) (k : UserRef) (o : UserHandler)
      → n ≢ nick
      → Manages p online n k o
      → handler_at k.addr q ≡ some o
      → Manages q online_after n k o
  others_Manages q n k o ne m' at = record {
    stored = at;
    named = m'.named;
    owned = m'.owned;
    distinct = m'.distinct;
    used = m'.used;
    exact = λ c. m'.exact c ∙ sym (others_open n ne c);
  }

  known_after :
      (c : ℕ) (n : String)
      → is_open_for online_after c n ≡ true
      → (c ≢ conn) × (GoMap.get c p.connections ≡ some n)
  known_after c n e = (
    λ x. ground (arith, is_open_for-delete online conn c n),
    ground (arith, is_open_for-delete online conn c n, tracks.known c n),
  )

  shrunk-Manages :
      (k : UserRef)
      → ltb 1 (length object.connections) ≡ true
      → get_handler nick p ≡ some k
      → Manages (closed_one p conn h object) online_after nick k (shrunk p conn object)
  shrunk-Manages k l e = record {
    stored = ground (arith, here, get-set h.addr k.addr (shrunk p conn object) p.heap);
    named = ground (arith, here, m.named);
    owned = m.owned;
    distinct = delete-IsDistinct conn object.connections m.distinct;
    used = ground (arith, length-delete conn object.connections m.distinct in_handler);
    exact = λ c. ground (
      arith,
      contains-delete conn c object.connections,
      is_open_for-delete online conn c nick,
      m.exact c,
    );
  }

  one_Tracks :
      ltb 1 (length object.connections) ≡ true → Tracks (closed_one p conn h object) online_after
  unfolding get_handler
  one_Tracks l = record {
    manages = λ n k e. elim (Bool-cases (n == nick)) [
      | inl same ↦
          let at : n ≡ nick = (==_iff n nick).0 same in
          (
            shrunk p conn object,
            subst
                (λ x. Manages (closed_one p conn h object) online_after x k (shrunk p conn object))
                (sym at) (shrunk-Manages k l (ap (λ x. get_handler x p) (sym at) ∙ e)),
          )
      | inr other ↦
          let ne : n ≢ nick = λ x. ground (arith, ==_iff n nick) in
          let (o, m') = tracks.manages n k e in
          (
            o,
            others_Manages (closed_one p conn h object) n k o ne m' (
                ground (
                  arith,
                  m'.stored,
                  others_apart n k o ne m',
                  get-set h.addr k.addr (shrunk p conn object) p.heap,
                )),
          )
    ];
    absent = λ n e c. ground (arith, tracks.absent n e c, is_open_for-delete online conn c n);
    known = λ c n e. (known_after c n e).1;
    fresh = λ a f.
        ground (arith, m.stored, tracks.fresh a f, get-set h.addr a (shrunk p conn object) p.heap);
  }

  last_Tracks :
      ltb 1 (length object.connections) ≡ false → Tracks (drop_handler nick conn h p) online_after
  unfolding get_handler
  last_Tracks l = record {
    manages = λ n k e.
        let ne : n ≢ nick = λ x. ground (arith, get-delete nick n p.handlers, ==_iff nick n) in
        let old : get_handler n p ≡ some k = ground (arith, get-delete nick n p.handlers) in
        let (o, m') = tracks.manages n k old in
        (o, others_Manages (drop_handler nick conn h p) n k o ne m' m'.stored);
    absent = λ n e c. ground (
      arith,
      get-delete nick n p.handlers,
      ==_iff nick n,
      tracks.absent n,
      tracks.absent n _ c,
      is_open_for-delete online conn c n,
      contains_single conn c object.connections in_handler,
      m.exact c,
    );
    known = λ c n e.
        let (ne, at) = known_after c n e in ground (arith, ne, at, get-delete conn c p.connections);
    fresh = tracks.fresh;
  }

-- The handler and the data that a user with an open connection has.
pub has_handler :
    {S : Type 0} (p : ConnectedUsersPool S) (online : Online) (conn : ℕ) (nick : String)
    → Tracks p online
    → is_open_for online conn nick ≡ true
    → (h : UserRef) × (object : UserHandler) × (get_handler nick p ≡ some h)
      × Manages p online nick h object
has_handler p online conn nick tracks is_open = elim (Option-cases (get_handler nick p)) [
  | inl e ↦ absurd (cc (tracks.absent nick e conn, is_open))
  | inr (h, e) ↦ let (object, m) = tracks.manages nick h e in (h, object, e, m)
]

-- An open connection is closed for its user: afterwards the pool tracks the other open connections.
-- So the user's handler goes exactly with the user's last connection.
pub remove_connection-Tracks :
    {S : Type 0} (p : ConnectedUsersPool S) (online : Online) (conn : ℕ) (nick : String)
    → is_open_for online conn nick ≡ true
    → Tracks p online
    → Tracks (remove_connection conn p) (GoMap.delete conn online)
remove_connection-Tracks p online conn nick is_open tracks =
    let (h, object, e, m) = has_handler p online conn nick tracks is_open in
    let known = tracks.known conn nick is_open in
    elim (Bool-cases (ltb 1 (length object.connections))) [
      | inl l ↦
          subst (λ q. Tracks q (GoMap.delete conn online))
            (sym (remove_connection_one p conn nick h object known e m.stored l))
            (one_Tracks p online conn nick tracks is_open h object e m l)
      | inr l ↦
          subst (λ q. Tracks q (GoMap.delete conn online))
            (sym (remove_connection_last p conn nick h object known e m.stored l))
            (last_Tracks p online conn nick tracks is_open h object e m l)
    ]

module _ {S : Type 0} (p : ConnectedUsersPool S) (online : Online) (conn : ℕ) (nick : String)
    (h : UserRef) (is_open : is_open_for online conn nick ≡ true) (tracks : Tracks p online)
    (here : get_handler nick p ≡ some h) where
  -- While the user has another open connection, closing one keeps the handler and tells the channels
  -- nothing. The pool's own table still lists the closed connection: its entry is never deleted.
  pub remove_connection-keeps :
      (other : ℕ)
      → conn ≢ other
      → is_open_for online other nick ≡ true
      → let q = remove_connection conn p in
        (get_handler nick q ≡ some h)
        × (q.channel_store ≡ p.channel_store)
        × (GoMap.get conn q.connections ≡ some nick)
  unfolding get_handler
  remove_connection-keeps other ne also =
      let (object, m) = tracks.manages nick h here in
      let known = tracks.known conn nick is_open in
      let two =
        two_items conn other object.connections ne (m.exact conn ∙ is_open)
          (m.exact other ∙ also) in
      let done =
        remove_connection_one p conn nick h object known here m.stored (ground (arith, two)) in
      (ground (arith, done), ground (arith, done), ground (arith, done))

  -- Closing the user's last open connection removes the handler from the pool and the connection from
  -- its table, and disconnects the handler from all channels.
  pub remove_connection-disconnects :
      ((c : ℕ) → is_open_for online c nick ≡ (conn == c))
      → let q = remove_connection conn p in
        (get_handler nick q ≡ none)
        × (q.channel_store ≡ (disconnect_user h p.channel_store).1)
        × (GoMap.get conn q.connections ≡ none)
  unfolding get_handler
  remove_connection-disconnects last =
      let (object, m) = tracks.manages nick h here in
      let known = tracks.known conn nick is_open in
      let one = single_item conn object.connections m.distinct (λ c. m.exact c ∙ last c) in
      let done =
        remove_connection_last p conn nick h object known here m.stored (ground (arith, one)) in
      (
        ground (arith, done, get-delete nick nick p.handlers, ==_refl nick),
        ground (arith, done),
        ground (arith, done, get-delete conn conn p.connections),
      )
