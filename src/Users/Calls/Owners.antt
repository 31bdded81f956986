-- ===== src/Users/Calls/Owners.antt =====
-- user_connections.go: whose connections a handler has while calls overlap.
pub mod Sections
use sockchat.Prelude.{
  ℕ, zero, suc, ◌≤◌, String, ◌≡◌, ◌≢◌, refl, sym, ap, ◌∙◌, subst, Bool, true, false, ◌&&◌, ◌||◌,
  Option, none, some, List, [], ◌∷◌, arith, inl, inr, Option-cases, Bool-cases, ltb, nat_key,
  string_key, if◌then◌else◌, ==_iff, ◌==◌, All, All-mono, not,
}
use sockchat.Prelude.GoMap
use sockchat.Prelude.GoMap.{get-set, get-delete}
use sockchat.Prelude.GoSet
use sockchat.Prelude.GoSet.{contains, contains-insert, contains-delete}
use sockchat.ChannelStore.{ChannelStore, UserRef}
use sockchat.Users.{
  ConnectedUsersPool, UserHandler, get_handler, handler_at, add_handler, handler_add_connection,
  handler_remove_connection, get_active_connections_count, nick_of, drop_handler, write_handler,
  connections_of, new_connected_users_pool,
}
use sockchat.Users.Calls.{
  Thread, adds, misses, joins, lists, removes, looks_up, counts, shrinks, drops, returned,
  found_for, counts_for, advance, advance_at, overlap,
}

-- Whether a thread is a call that adds the connection for the nick.
abbrev is_call : ℕ → String → Thread → Bool
is_call conn nick (adds c n) = conn == c && nick == n
is_call conn nick _ = false

unfoldable pub is_called : ℕ → String → List Thread → Bool
is_called conn nick [] = false
is_called conn nick (t ∷ ts) = is_call conn nick t || is_called conn nick ts

-- Threads at the beginnings of their calls.
abbrev pub Begins : Thread → Type 0
Begins (adds conn nick) = Unit
Begins (removes conn) = Unit
Begins _ = ⊥

module _ {S : Type 0} (calls : List Thread) where
  -- Every handler has only connections that a call adds for its nick, and a nick's handler is one of
  -- that nick.
  pub record Owned (p : ConnectedUsersPool S) : Type 0 where
    pub named :
        (nick : String) (h : UserRef)
        → get_handler nick p ≡ some h
        → (o : UserHandler) × (handler_at h.addr p ≡ some o) × (o.nick ≡ nick)
    pub kept :
        (addr : ℕ) (o : UserHandler) (conn : ℕ)
        → handler_at addr p ≡ some o
        → contains conn o.connections ≡ true
        → is_called conn o.nick calls ≡ true
    pub fresh : (addr : ℕ) → p.next_addr ≤ addr → handler_at addr p ≡ none

  -- A thread that adds a connection is one of the calls, and has found the nick's handler.
  abbrev pub IsHonest : ConnectedUsersPool S → Thread → Type 0
  IsHonest p (adds conn nick) = is_called conn nick calls ≡ true
  IsHonest p (misses conn nick) = is_called conn nick calls ≡ true
  IsHonest p (joins conn nick h) =
      (is_called conn nick calls ≡ true)
      × ((o : UserHandler) × (handler_at h.addr p ≡ some o) × (o.nick ≡ nick))
  IsHonest p _ = Unit

  -- Handlers stay, with their nicks.
  abbrev pub Grows : ConnectedUsersPool S → ConnectedUsersPool S → Type 0
  Grows p q =
      (addr : ℕ) (o : UserHandler)
      → handler_at addr p ≡ some o
      → (o' : UserHandler) × (handler_at addr q ≡ some o') × (o'.nick ≡ o.nick)

  pub grown-IsHonest :
      (p q : ConnectedUsersPool S) (t : Thread) → Grows p q → IsHonest p t → IsHonest q t
  grown-IsHonest p q (adds conn nick) g h = h
  grown-IsHonest p q (misses conn nick) g h = h
  grown-IsHonest p q (joins conn nick k) g (c, (o, e, n)) =
      let (o', e', n') = g k.addr o e in (c, (o', e', n' ∙ n))
  grown-IsHonest p q (lists conn nick) g h = tt
  grown-IsHonest p q (removes conn) g h = tt
  grown-IsHonest p q (looks_up conn nick) g h = tt
  grown-IsHonest p q (counts conn nick k) g h = tt
  grown-IsHonest p q (shrinks conn k) g h = tt
  grown-IsHonest p q (drops conn nick k) g h = tt
  grown-IsHonest p q returned g h = tt

  -- A handler's connections are changed, within what the calls add for its nick.
  module _ (p : ConnectedUsersPool S) (owned : Owned p) (addr : ℕ) (f : List ℕ → List ℕ) where
    abbrev changed : UserHandler → UserHandler
    changed o = record o { connections = f o.connections }

    write_one :
        (o : UserHandler)
        → handler_at addr p ≡ some o
        → write_handler addr f p ≡ record p { heap = GoMap.set addr (changed o) p.heap }
    write_one o e = ground (arith, e)

    write_none : handler_at addr p ≡ none → write_handler addr f p ≡ p
    write_none e = ground (arith, e)

    module _ (o : UserHandler) (e : handler_at addr p ≡ some o) where
      abbrev after : ConnectedUsersPool S
      after = record p { heap = GoMap.set addr (changed o) p.heap }

      set-Grows : Grows p after
      set-Grows a o₁ e₁ = elim (Bool-cases (addr == a)) [
        | inl same ↦
            let here : handler_at a after ≡ some (changed o) =
              ground (arith, same, get-set addr a (changed o) p.heap) in
            let one : o ≡ o₁ = cc (e, e₁, ap (λ x. handler_at x p) ((==_iff addr a).0 same)) in
            (changed o, here, ap (λ (x : UserHandler). x.nick) one)
        | inr other ↦ (o₁, ground (arith, other, e₁, get-set addr a (changed o) p.heap), refl)
      ]

      set-Owned :
          ((conn : ℕ) → contains conn (f o.connections) ≡ true → is_called conn o.nick calls ≡ true)
          → Owned after
      unfolding get_handler
      set-Owned within = record {
        named = λ nick h e₁.
            let (o₁, e₂, n) = owned.named nick h e₁ in
            let (o', e₃, n') = set-Grows h.addr o₁ e₂ in (o', e₃, n' ∙ n);
        kept = λ a o₁ conn e₁ c. elim (Bool-cases (addr == a)) [
          | inl same ↦
              let one : changed o ≡ o₁ =
                ground (arith, same, e₁, get-set addr a (changed o) p.heap) in
              ap (λ (x : UserHandler). is_called conn x.nick calls) (sym one)
              ∙ within conn (ap (λ (x : UserHandler). contains conn x.connections) one ∙ c)
          | inr other ↦
              owned.kept a o₁ conn (ground (arith, other, e₁, get-set addr a (changed o) p.heap)) c
        ];
        fresh = λ a l. ground (arith, e, owned.fresh a l, get-set addr a (changed o) p.heap);
      }

    pub write-Owned :
        ((o : UserHandler) (conn : ℕ)
          → handler_at addr p ≡ some o
          → contains conn (f o.connections) ≡ true
          → is_called conn o.nick calls ≡ true)
        → Grows p (write_handler addr f p) × Owned (write_handler addr f p)
    write-Owned within = elim (Option-cases (handler_at addr p)) [
      | inl e ↦ subst Safe (sym (write_none e)) ((λ a o e₁. (o, e₁, refl)), owned)
      | inr (o, e) ↦
          subst Safe (sym (write_one o e))
            (set-Grows o e, set-Owned o e (λ conn c. within o conn e c))
    ]
      where
        Safe : ConnectedUsersPool S → Type 0
        Safe q = Grows p q × Owned q
