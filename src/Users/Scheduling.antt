-- ===== src/Users/Scheduling.antt =====
-- user_connections.go and channel_store.go: a scheduler that picks one spawned goroutine after the
-- other, in any order.
use sockchat.Prelude.{
  ℕ, zero, suc, ◌≤◌, String, ◌≡◌, ◌⊎◌, refl, sym, subst, false, Option, none, some, List, [], ◌∷◌,
  ◌++◌, arith, length, string_key, nat_key, inl, inr, ap, ◌∙◌,
}
use sockchat.ChannelStore.{ChannelStore, MessageStore, UserRef, Task, disconnect_user, run_task}
use sockchat.ChannelStore.Goroutines.{IsNamed, is_leaving}
use sockchat.ChannelStore.Interleavings.{Steps, picks, here, next, disconnect_user-leaves}
use sockchat.ChannelStore.Rooms.{is_member}
use sockchat.ChannelStore.Weights.{
  crowd, weights, pending, weights-append, nothing_pending, run_task-Lightens,
}
use sockchat.Prelude.{◌==◌, true}
use sockchat.Prelude.GoMap
use sockchat.Users.{ConnectedUsersPool, run_goroutine, get_handler, remove_connection}
use sockchat.Users.Online.{Online, Tracks, is_open_for}
use sockchat.Users.Close.{remove_connection-disconnects}

-- The goroutine at a place of the list, with the others; a place beyond the end is the last one.
unfoldable take_out : ℕ → List Task → Option (Task × List Task × List Task)
take_out n [] = none
take_out zero (t ∷ ts) = some (t, [], ts)
take_out (suc n) (t ∷ ts) = elim (take_out n ts) [
  | none ↦ some (t, [], ts)
  | some (u, before, behind) ↦ some (u, t ∷ before, behind)
]

module _ {S : Type 0} where
  abbrev pub without : List Task → ConnectedUsersPool S → ConnectedUsersPool S
  without ts p = let c = p.channel_store in record p { channel_store = record c { spawned = ts } }

  -- The goroutines run in the order that the scheduler's choices give, until none is left or there
  -- is no further choice.
  unfoldable pub run_picked : List ℕ → ConnectedUsersPool S → ConnectedUsersPool S
  unfolding take_out run_goroutine
  run_picked [] p = p
  run_picked (n ∷ ns) p = elim (take_out n p.channel_store.spawned) [
    | none ↦ p
    | some (t, before, behind) ↦ run_picked ns (run_goroutine t (without (before ++ behind) p))
  ]

-- A goroutine is found in a list that has one.
take_out-splits :
    (n : ℕ) (t : Task) (ts : List Task)
    → (u : Task) × (before : List Task) × (behind : List Task) × (take_out n (t ∷ ts)
        ≡ some (u, before, behind))
      × (t ∷ ts ≡ before ++ u ∷ behind)
unfolding take_out
take_out-splits zero t ts = (t, [], ts, refl, refl)
take_out-splits (suc n) t [] = (t, [], [], refl, refl)
take_out-splits (suc n) t (x ∷ ts) =
    let (u, before, behind, e, f) = take_out-splits n x ts in
    (u, t ∷ before, behind, rw (e, take_out) refl, ap (λ xs. t ∷ xs) f)

spawned_cases : (ts : List Task) → (ts ≡ []) ⊎ ((t : Task) × (us : List Task) × (ts ≡ t ∷ us))
spawned_cases [] = inl refl
spawned_cases (t ∷ ts) = inr (t, ts, refl)

module _ {S : Type 0} where
  run_goroutine-store :
      (t : Task) (p : ConnectedUsersPool S)
      → (run_goroutine t p).channel_store ≡ run_task t p.channel_store
  unfolding run_goroutine run_task
  run_goroutine-store (Task.write user m) p = refl
  run_goroutine-store (Task.message_members name m) p = refl
  run_goroutine-store (Task.remove_user_from_channel name user) p = refl

  picks_none :
      (n : ℕ) (ns : List ℕ) (p : ConnectedUsersPool S)
      → take_out n p.channel_store.spawned ≡ none
      → run_picked (n ∷ ns) p ≡ p
  unfolding run_picked
  picks_none n ns p e = ground arith

  picks_one :
      (n : ℕ) (ns : List ℕ) (p : ConnectedUsersPool S) (t : Task) (before behind : List Task)
      → take_out n p.channel_store.spawned ≡ some (t, before, behind)
      → run_picked (n ∷ ns) p ≡ run_picked ns (run_goroutine t (without (before ++ behind) p))
  unfolding run_picked
  picks_one n ns p t before behind e = ground arith

  -- Choosing finds nothing in an empty list, and otherwise runs one goroutine of the list.
  pub picked_cases :
      (n : ℕ) (ns : List ℕ) (p : ConnectedUsersPool S)
      → ((p.channel_store.spawned ≡ []) × (run_picked (n ∷ ns) p ≡ p))
        ⊎ ((t : Task) × (before : List Task) × (behind : List Task) × (p.channel_store.spawned
              ≡ before ++ t ∷ behind)
            × (run_picked (n ∷ ns) p
                ≡ run_picked ns (run_goroutine t (without (before ++ behind) p))))
  unfolding take_out
  picked_cases n ns p = elim (spawned_cases p.channel_store.spawned) [
    | inl e ↦ inl (e, picks_none n ns p (ap (take_out n) e))
    | inr (t, ts, e) ↦
        let (u, before, behind, f, g) = take_out-splits n t ts in
        inr (u, before, behind, e ∙ g, picks_one n ns p u before behind (ap (take_out n) e ∙ f))
  ]

  -- One goroutine less is pending after each choice.
  pub pending-picked :
      (t : Task) (before behind : List Task) (p : ConnectedUsersPool S)
      → p.channel_store.spawned ≡ before ++ t ∷ behind
      → suc (pending (run_goroutine t (without (before ++ behind) p)).channel_store)
        ≤ pending p.channel_store
  unfolding pending weights
  pending-picked t before behind p e =
      let rest = (without (before ++ behind) p).channel_store in
      let bound = crowd p.channel_store.channels in
      let less = run_task-Lightens rest t in
      omega (
        arith,
        less.1,
        ap pending (run_goroutine-store t (without (before ++ behind) p)),
        ap (weights bound) e,
        weights-append bound before (t ∷ behind),
        weights-append bound before behind,
      )

  -- Goroutines that run spawn others, but not forever: whatever the scheduler chooses, after at most
  -- `pending` choices no goroutine is left, since only what takes a user out of a channel or messages
  -- a channel spawns anything, and that only writes, one for each member.
  pub run_picked-rests :
      (ns : List ℕ) (p : ConnectedUsersPool S)
      → pending p.channel_store ≤ length ns
      → (run_picked ns p).channel_store.spawned ≡ []
  unfolding run_picked
  run_picked-rests [] p l = nothing_pending p.channel_store l
  run_picked-rests (n ∷ ns) p l = elim (picked_cases n ns p) [
    | inl (e, f) ↦ ap (λ (q : ConnectedUsersPool S). q.channel_store.spawned) f ∙ e
    | inr (t, before, behind, e, f) ↦
        ap (λ (q : ConnectedUsersPool S). q.channel_store.spawned) f
        ∙ run_picked-rests ns (run_goroutine t (without (before ++ behind) p))
            (omega (arith, l, pending-picked t before behind p e))
  ]

  run_picked-Steps :
      (store : MessageStore S) (u : ℕ) (s : ChannelStore S) (ns : List ℕ) (p : ConnectedUsersPool S)
      → Steps store u s p.channel_store
      → Steps store u s (run_picked ns p).channel_store
  unfolding run_picked
  run_picked-Steps store u s [] p steps = steps
  run_picked-Steps store u s (n ∷ ns) p steps = elim (picked_cases n ns p) [
    | inl (e, f) ↦
        subst (λ (q : ConnectedUsersPool S). Steps store u s q.channel_store) (sym f) steps
    | inr (t, before, behind, e, f) ↦
        subst (λ (q : ConnectedUsersPool S). Steps store u s q.channel_store) (sym f)
          (run_picked-Steps store u s ns (run_goroutine t (without (before ++ behind) p)) (
            next steps
              (picks before t behind e (run_goroutine-store t (without (before ++ behind) p)))))
  ]

  run_picked-handlers :
      (ns : List ℕ) (p : ConnectedUsersPool S) → (run_picked ns p).handlers ≡ p.handlers
  unfolding run_picked run_goroutine
  run_picked-handlers [] p = refl
  run_picked-handlers (n ∷ ns) p = elim (picked_cases n ns p) [
    | inl (e, f) ↦ ap (λ (q : ConnectedUsersPool S). q.handlers) f
    | inr (t, before, behind, e, f) ↦
        ap (λ (q : ConnectedUsersPool S). q.handlers) f
        ∙ run_picked-handlers ns (run_goroutine t (without (before ++ behind) p))
        ∙ run_goroutine-handlers t (without (before ++ behind) p)
  ]
    where
      run_goroutine-handlers :
          (t : Task) (p : ConnectedUsersPool S) → (run_goroutine t p).handlers ≡ p.handlers
      run_goroutine-handlers (Task.write user m) p = refl
      run_goroutine-handlers (Task.message_members name m) p = refl
      run_goroutine-handlers (Task.remove_user_from_channel name user) p = refl

  -- The user's last open connection is closed, and then the goroutines run in any order, without
  -- another call. After at most `pending` choices no goroutine is left, the user has no handler, and
  -- the handler that it had is in no channel. No channel may have the empty name.
  pub remove_connection-rests :
      (store : MessageStore S) (p : ConnectedUsersPool S) (online : Online) (conn : ℕ)
      (nick : String) (h : UserRef) (ns : List ℕ)
      → is_open_for online conn nick ≡ true
      → Tracks p online
      → get_handler nick p ≡ some h
      → ((c : ℕ) → is_open_for online c nick ≡ (conn == c))
      → IsNamed p.channel_store
      → pending (remove_connection conn p).channel_store ≤ length ns
      → let q = run_picked ns (remove_connection conn p) in
        (q.channel_store.spawned ≡ [])
        × (get_handler nick q ≡ none)
        × ((name : String) → is_member q.channel_store name h.addr ≡ false)
  unfolding get_handler is_leaving
  remove_connection-rests store p online conn nick h ns is_open tracks e last named enough =
      let (gone, store_after, _) =
        remove_connection-disconnects p online conn nick h is_open tracks e last in
      let rests = run_picked-rests ns (remove_connection conn p) enough in
      let steps =
        run_picked-Steps store h.addr (disconnect_user h p.channel_store).1 ns
          (remove_connection conn p)
          (subst (Steps store h.addr (disconnect_user h p.channel_store).1) (sym store_after)
            here) in
      (
        rests,
        ap (GoMap.get nick) (run_picked-handlers ns (remove_connection conn p)) ∙ gone,
        λ name.
            disconnect_user-leaves store h p.channel_store named steps name
              (ap (is_leaving name h.addr) rests),
      )
