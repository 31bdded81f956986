-- ===== src/Users/Connect.antt =====
-- user_connections.go: `AddConnection` and the open connections.
use sockchat.Prelude.{
  ℕ, ◌≤◌, String, ◌≡◌, ◌≢◌, ap, sym, ◌∙◌, false, none, some, [], arith, ◌==◌, ==_iff, ==_refl,
  nat_key, string_key, refl, Bool-cases, Option-cases, inl, inr, subst,
}
use sockchat.Prelude.GoMap
use sockchat.Prelude.GoMap.{Map, get-set, get-delete}
use sockchat.Prelude.GoSet
use sockchat.Prelude.GoSet.{contains, contains-insert, insert-IsDistinct, length-insert, IsDistinct}
use sockchat.ChannelStore.{UserRef}
use sockchat.Users.{
  ConnectedUsersPool, UserHandler, get_handler, handler_at, add_connection, add_handler,
}
use sockchat.Users.Online.{Online, is_open_for, is_open_for-set, Manages, Tracks}

abbrev fresh_object : String → UserHandler
fresh_object nick = record { nick = nick; connections = [] }

module _ {S : Type 0} (p : ConnectedUsersPool S) (nick : String) where
  abbrev newcomer : UserRef
  newcomer = record { addr = p.next_addr; nick = nick }

module _ {S : Type 0} (p : ConnectedUsersPool S) (conn : ℕ) (nick : String) where
  -- The pool after the handler `h`, whose data were `object`, has got the connection.
  abbrev opened : UserRef → UserHandler → ConnectedUsersPool S → ConnectedUsersPool S
  opened h object q = record q {
    heap =
        GoMap.set h.addr (record object { connections = GoSet.insert conn object.connections })
          q.heap;
    connections = GoMap.set conn nick q.connections;
  }

  add_connection_found :
      (h : UserRef) (object : UserHandler)
      → get_handler nick p ≡ some h
      → handler_at h.addr p ≡ some object
      → add_connection conn nick p ≡ opened h object p
  unfolding add_connection
  add_connection_found h object e m = ground arith

  add_connection_new :
      get_handler nick p ≡ none
      → add_connection conn nick p
        ≡ opened (newcomer p nick) (fresh_object nick) (add_handler nick p).1
  unfolding add_connection
  add_connection_new e = ground (arith, get-set p.next_addr p.next_addr (fresh_object nick) p.heap)

-- What a pool `q` must be for a connection of the user to be put into `h`: the others as in `p`, and
-- the user's handler exact, though it may have no connection yet.
record IsReady {S : Type 0} (p q : ConnectedUsersPool S) (online : Online) (nick : String)
    (h : UserRef) (object : UserHandler) : Type 0 where
  here : get_handler nick q ≡ some h
  others : (n : String) → n ≢ nick → get_handler n q ≡ get_handler n p
  apart :
      (n : String) (k : UserRef) (o : UserHandler)
      → n ≢ nick
      → get_handler n p ≡ some k
      → Manages p online n k o
      → (handler_at k.addr q ≡ some o) × (k.addr ≢ h.addr)
  named : h.nick ≡ nick
  owned : object.nick ≡ nick
  distinct : IsDistinct object.connections
  exact : (c : ℕ) → contains c object.connections ≡ is_open_for online c nick
  same_connections : q.connections ≡ p.connections
  fresh : (addr : ℕ) → q.next_addr ≤ addr → (handler_at addr q ≡ none) × (h.addr ≢ addr)

module _ {S : Type 0} (p : ConnectedUsersPool S) (online : Online) (conn : ℕ) (nick : String)
    (unopened : (n : String) → is_open_for online conn n ≡ false) (tracks : Tracks p online)
    (q : ConnectedUsersPool S) (h : UserRef) (object : UserHandler)
    (ready : IsReady p q online nick h object) where
  abbrev after_open : ConnectedUsersPool S
  after_open = opened p conn nick h object q

  abbrev online_after : Online
  online_after = GoMap.set conn nick online

  abbrev grown : UserHandler
  grown = record object { connections = GoSet.insert conn object.connections }

  grown-Manages :
      (k : UserRef)
      → get_handler nick after_open ≡ some k
      → Manages after_open online_after nick k grown
  unfolding get_handler
  grown-Manages k e = record {
    stored = ground (arith, ready.here, get-set h.addr k.addr grown q.heap);
    named = ground (arith, ready.here, ready.named);
    owned = ready.owned;
    distinct = insert-IsDistinct conn object.connections ready.distinct;
    used = length-insert conn object.connections;
    exact = λ c. ground (
      arith,
      contains-insert conn c object.connections,
      is_open_for-set online conn nick c nick,
      ready.exact c,
      ==_refl nick,
    );
  }

  kept-Manages :
      (n : String) (k : UserRef)
      → n ≢ nick
      → get_handler n after_open ≡ some k
      → (o : UserHandler) × Manages after_open online_after n k o
  unfolding get_handler
  kept-Manages n k ne e =
      let old : get_handler n p ≡ some k = sym (ready.others n ne) ∙ e in
      let (o, m) = tracks.manages n k old in
      let (stays, elsewhere) = ready.apart n k o ne old m in
      (
        o,
        record {
          stored = ground (arith, stays, elsewhere, get-set h.addr k.addr grown q.heap);
          named = m.named;
          owned = m.owned;
          distinct = m.distinct;
          used = m.used;
          exact = λ c. ground (
            arith,
            m.exact c,
            is_open_for-set online conn nick c n,
            unopened n,
            ==_iff nick n,
            ne,
          );
        },
      )

  opened-Tracks : Tracks after_open online_after
  unfolding get_handler
  opened-Tracks = record {
    manages = λ n k e. elim (Bool-cases (n == nick)) [
      | inl same ↦
          let at : n ≡ nick = (==_iff n nick).0 same in
          (
            grown,
            subst (λ x. Manages after_open online_after x k grown) (sym at)
                (grown-Manages k (ap (λ x. get_handler x after_open) (sym at) ∙ e)),
          )
      | inr other ↦ kept-Manages n k (λ x. ground (arith, ==_iff n nick)) e
    ];
    absent = λ n e c. ground (
      arith,
      ready.here,
      ready.others n,
      tracks.absent n,
      tracks.absent n _ c,
      is_open_for-set online conn nick c n,
      ==_iff nick n,
    );
    known = λ c n e. ground (
      arith,
      ready.same_connections,
      get-set conn c nick q.connections,
      is_open_for-set online conn nick c n,
      tracks.known c n,
      ==_iff nick n,
    );
    fresh = λ a l. ground (arith, ready.fresh a l, get-set h.addr a grown q.heap);
  }

module _ {S : Type 0} (p : ConnectedUsersPool S) (online : Online) (nick : String)
    (tracks : Tracks p online) where
  -- Two users' handlers are different objects, since each holds its own nick.
  apart_found :
      (h : UserRef) (object : UserHandler)
      → Manages p online nick h object
      → (n : String) (k : UserRef) (o : UserHandler) → n ≢ nick
      → Manages p online n k o
      → k.addr ≢ h.addr
  apart_found h object m n k o ne m' e =
      ne (sym m'.owned ∙ ap (λ (x : UserHandler). x.nick) one ∙ m.owned)
    where
      one : o ≡ object
      one = cc (m'.stored, m.stored, ap (λ a. handler_at a p) e)

  found-IsReady :
      (h : UserRef) (object : UserHandler)
      → get_handler nick p ≡ some h
      → Manages p online nick h object
      → IsReady p p online nick h object
  found-IsReady h object e m = record {
    here = e;
    others = λ n ne. refl;
    apart = λ n k o ne old m'. (m'.stored, apart_found h object m n k o ne m');
    named = m.named;
    owned = m.owned;
    distinct = m.distinct;
    exact = m.exact;
    same_connections = refl;
    fresh =
        λ a l. (tracks.fresh a l, λ x. cc (tracks.fresh a l, m.stored, ap (λ b. handler_at b p) x));
  }

  new-IsReady :
      get_handler nick p ≡ none
      → IsReady p (add_handler nick p).1 online nick (newcomer p nick) (fresh_object nick)
  unfolding add_handler get_handler contains
  new-IsReady e = record {
    here = ground (arith, get-set nick nick (newcomer p nick) p.handlers, ==_refl nick);
    others = λ n ne. ground (arith, get-set nick n (newcomer p nick) p.handlers, ==_iff nick n);
    apart = λ n k o ne old m'.
        let elsewhere : k.addr ≢ p.next_addr =
          λ x. cc (m'.stored, tracks.fresh p.next_addr (omega arith), ap (λ b. handler_at b p) x) in
        (
          ground
              (arith, elsewhere, m'.stored, get-set p.next_addr k.addr (fresh_object nick) p.heap),
          elsewhere,
        );
    named = refl;
    owned = refl;
    distinct = tt;
    exact = λ c. sym (tracks.absent nick e c);
    same_connections = refl;
    fresh = λ a l. (
      ground (arith, tracks.fresh a, get-set p.next_addr a (fresh_object nick) p.heap),
      λ x. omega arith,
    );
  }

-- A connection that is not open is opened for its user: afterwards the pool tracks the open
-- connections of before and this one. So it makes a handler exactly if the user had none.
pub add_connection-Tracks :
    {S : Type 0} (p : ConnectedUsersPool S) (online : Online) (conn : ℕ) (nick : String)
    → ((n : String) → is_open_for online conn n ≡ false)
    → Tracks p online
    → Tracks (add_connection conn nick p) (GoMap.set conn nick online)
add_connection-Tracks p online conn nick unopened tracks =
    elim (Option-cases (get_handler nick p)) [
      | inl e ↦
          subst (λ q. Tracks q (GoMap.set conn nick online))
            (sym (add_connection_new p conn nick e))
            (opened-Tracks p online conn nick unopened tracks _ _ _
              (new-IsReady p online nick tracks e))
      | inr (h, e) ↦
          let (object, m) = tracks.manages nick h e in
          subst (λ q. Tracks q (GoMap.set conn nick online))
            (sym (add_connection_found p conn nick h object e m.stored))
            (opened-Tracks p online conn nick unopened tracks _ _ _
              (found-IsReady p online nick tracks h object e m))
    ]
