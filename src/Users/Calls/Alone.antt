-- ===== src/Users/Calls/Alone.antt =====
-- user_connections.go: calls that do not overlap.
use sockchat.Prelude.GoMap
use sockchat.Users.Online.{Online, Tracks, is_open_for}
use sockchat.Users.Connect.{add_connection-Tracks}
use sockchat.Users.Close.{remove_connection-Tracks}
use sockchat.Prelude.{
  true, ap, sym, subst, ℕ, String, ◌≡◌, arith, inl, inr, Option-cases, Bool-cases, ltb, nat_key,
  string_key, false,
}
use sockchat.Users.{
  ConnectedUsersPool, get_handler, add_connection, remove_connection, find_or_add_handler,
  get_active_connections_count, nick_of,
}
use sockchat.Users.Calls.{advance, run_alone, adds, removes, returned}

adds-alone :
    {S : Type 0} (conn : ℕ) (nick : String) (p : ConnectedUsersPool S)
    → run_alone 4 (adds conn nick) p ≡ (returned, add_connection conn nick p)
unfolding run_alone advance add_connection find_or_add_handler
adds-alone conn nick p = elim (Option-cases (get_handler nick p)) [
  | inl e ↦ ground arith
  | inr (h, e) ↦ ground arith
]

removes-alone :
    {S : Type 0} (conn : ℕ) (p : ConnectedUsersPool S)
    → run_alone 4 (removes conn) p ≡ (returned, remove_connection conn p)
unfolding run_alone advance remove_connection
removes-alone conn p = elim (Option-cases (get_handler (nick_of conn p) p)) [
  | inl e ↦ ground arith
  | inr (h, e) ↦ elim (Bool-cases (ltb 1 (get_active_connections_count h.addr p))) [
    | inl l ↦ ground arith
    | inr l ↦ ground arith
  ]
]

-- A call of `AddConnection` or `RemoveConnection` that nothing disturbs returns after four critical
-- sections at most. A connection that is not open is then open for its user, and one that is open is
-- then closed: the pool tracks the open connections with it, and without it.
pub alone-Tracks :
    {S : Type 0} (p : ConnectedUsersPool S) (online : Online) (new : ℕ) (nick : String) (old : ℕ)
    (user : String)
    → Tracks p online
    → ((n : String) → is_open_for online new n ≡ false)
    → is_open_for online old user ≡ true
    → (let (t, q) = run_alone 4 (adds new nick) p in
        (t ≡ returned) × Tracks q (GoMap.set new nick online))
      × (let (t, q) = run_alone 4 (removes old) p in
          (t ≡ returned) × Tracks q (GoMap.delete old online))
alone-Tracks p online new nick old user tracks unopened is_open = (
  (
    ap (λ o. o.0) (adds-alone new nick p),
    subst (λ q. Tracks q (GoMap.set new nick online)) (sym (ap (λ o. o.1) (adds-alone new nick p)))
        (add_connection-Tracks p online new nick unopened tracks),
  ),
  (
    ap (λ o. o.0) (removes-alone old p),
    subst (λ q. Tracks q (GoMap.delete old online)) (sym (ap (λ o. o.1) (removes-alone old p)))
        (remove_connection-Tracks p online old user is_open tracks),
  ),
)
