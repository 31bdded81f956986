-- ===== src/Users/Delivery.antt =====
-- user_connections.go and channel_store.go: what the goroutines of a message write to connections.
use sockchat.Prelude.{
  ℕ, ◌≤◌, String, ◌≡◌, refl, sym, subst, some, List, [], ◌∷◌, ◌++◌, map, arith, length, inl, inr,
  ap, ◌∙◌, All, nat_key, string_key, Bool-cases,
}
use mathlib.Core.List.{append-nil, append_assoc, Perm, perm_append_comm}
use mathlib.Core.List.Perm
use sockchat.Api.Effects.{Result, ok}
use sockchat.Api.Structs.{ℤ, MessageEvent, SendMessageRequest, new_message_event}
use sockchat.Api.WsMessages.{SocketMessage, new_socket_message, message_event}
use sockchat.ChannelStore.{
  ChannelStore, MessageStore, UserRef, Task, Channel, channel_at, message_channel,
  is_user_present_in, run_task, writes,
}
use sockchat.ChannelStore.Cases.{message_cases, sent_on}
use sockchat.ChannelStore.Weights.{pending, nothing_pending}
use sockchat.Users.{
  ConnectedUsersPool, connections_of, handler_write, run_goroutine, handle_send_message,
}
use sockchat.Users.Requests.{authored}
use sockchat.Users.Scheduling.{run_picked, run_picked-rests, picked_cases, without, pending-picked}

abbrev IsWrite : Task → Type 0
IsWrite (Task.write user m) = Unit
IsWrite (Task.message_members name m) = ⊥
IsWrite (Task.remove_user_from_channel name user) = ⊥

only_write : (t : Task) → IsWrite t → (user : ℕ) × (m : SocketMessage) × (t ≡ Task.write user m)
only_write (Task.write user m) w = (user, m, refl)
only_write (Task.message_members name m) w = absurd w
only_write (Task.remove_user_from_channel name user) w = absurd w

writes-IsWrite : (m : SocketMessage) (c : Channel) → All IsWrite (writes m c)
unfolding writes
writes-IsWrite m c = go c.members
  where
    go : (users : List ℕ) → All IsWrite (map (λ user. Task.write user m) users)
    go [] = tt
    go (x ∷ users) = (tt, go users)

module _ {S : Type 0} where
  -- A message, once for each connection of a handler.
  abbrev copies : ConnectedUsersPool S → SocketMessage → ℕ → List (ℕ × SocketMessage)
  copies p m user = map (λ conn. (conn, m)) (connections_of user p)

  -- What a goroutine writes itself.
  abbrev own_writes : ConnectedUsersPool S → Task → List (ℕ × SocketMessage)
  own_writes p (Task.write user m) = copies p m user
  own_writes p (Task.message_members name m) = []
  own_writes p (Task.remove_user_from_channel name user) = []

  abbrev all_writes : ConnectedUsersPool S → List Task → List (ℕ × SocketMessage)
  all_writes p [] = []
  all_writes p (t ∷ ts) = own_writes p t ++ all_writes p ts

  -- A message, once for each connection of each user.
  abbrev pub copies_for : ConnectedUsersPool S → SocketMessage → List ℕ → List (ℕ × SocketMessage)
  copies_for p m [] = []
  copies_for p m (user ∷ users) = copies p m user ++ copies_for p m users

  all_writes-append :
      (p : ConnectedUsersPool S) (ts us : List Task)
      → all_writes p (ts ++ us) ≡ all_writes p ts ++ all_writes p us
  all_writes-append p [] us = refl
  all_writes-append p (t ∷ ts) us =
      ap (λ xs. own_writes p t ++ xs) (all_writes-append p ts us)
      ∙ sym (append_assoc (own_writes p t) (all_writes p ts) (all_writes p us))

  all_writes-writes :
      (p : ConnectedUsersPool S) (m : SocketMessage) (c : Channel)
      → all_writes p (writes m c) ≡ copies_for p m c.members
  unfolding writes
  all_writes-writes p m c = go c.members
    where
      go :
          (users : List ℕ)
          → all_writes p (map (λ user. Task.write user m) users) ≡ copies_for p m users
      go [] = refl
      go (x ∷ users) = ap (λ xs. copies p m x ++ xs) (go users)

  -- Writes look only at the handlers' data.
  all_writes-heap :
      (p q : ConnectedUsersPool S) (ts : List Task)
      → q.heap ≡ p.heap
      → all_writes q ts ≡ all_writes p ts
  unfolding connections_of
  all_writes-heap p q [] e = refl
  all_writes-heap p q (Task.write user m ∷ ts) e = ground (arith, all_writes-heap p q ts e)
  all_writes-heap p q (Task.message_members name m ∷ ts) e = all_writes-heap p q ts e
  all_writes-heap p q (Task.remove_user_from_channel name user ∷ ts) e = all_writes-heap p q ts e

All-split :
    {A : Type 0} (P : A → Type 0) (xs : List A) (a : A) (ys : List A)
    → All P (xs ++ a ∷ ys)
    → P a × All P (xs ++ ys)
All-split P [] a ys h = h
All-split P (x ∷ xs) a ys h = let (now, rest) = All-split P xs a ys h.1 in (now, (h.0, rest))

one_split :
    {A : Type 0} {x : A} (before : List A) (a : A) (behind : List A)
    → x ∷ [] ≡ before ++ a ∷ behind
    → (before ≡ []) × (a ≡ x) × (behind ≡ [])
one_split [] a behind e = (refl, cc e, cc e)
one_split (b ∷ []) a behind e = absurd (cc e)
one_split (b ∷ y ∷ before) a behind e = absurd (cc e)

-- A block that moves to the front.
moves_front : {A : Type 0} (c b h : List A) → Perm (c ++ (b ++ h)) (b ++ (c ++ h))
moves_front c b h =
    subst (λ xs. Perm xs (b ++ (c ++ h))) (append_assoc c b h)
      (subst (Perm (c ++ b ++ h)) (append_assoc b c h) (Perm.append_right h (perm_append_comm c b)))

module _ {S : Type 0} where
  -- What has been written since, in some order.
  abbrev WroteSince :
      ConnectedUsersPool S → List (ℕ × SocketMessage) → ConnectedUsersPool S → Type 0
  WroteSince p items q =
      (done : List (ℕ × SocketMessage)) × (q.sent ≡ p.sent ++ done) × Perm done items

  write_first :
      (p r : ConnectedUsersPool S) (user : ℕ) (m : SocketMessage) (before behind : List Task)
      → p.channel_store.spawned ≡ before ++ Task.write user m ∷ behind
      → let q = run_goroutine (Task.write user m) (without (before ++ behind) p) in
        WroteSince q (all_writes q (before ++ behind)) r
        → WroteSince p (all_writes p p.channel_store.spawned) r
  unfolding run_goroutine handler_write
  write_first p r user m before behind e (done, sent, order) =
      let q = run_goroutine (Task.write user m) (without (before ++ behind) p) in
      let first = copies p m user in
      let rest : all_writes q (before ++ behind) ≡ all_writes p before ++ all_writes p behind =
        all_writes-heap p q (before ++ behind) refl ∙ all_writes-append p before behind in
      let whole : all_writes p before ++ (first ++ all_writes p behind)
          ≡ all_writes p p.channel_store.spawned =
        sym (all_writes-append p before (Task.write user m ∷ behind)) ∙ ap (all_writes p) (sym e) in
      (
        first ++ done,
        sent ∙ append_assoc p.sent first done,
        subst (Perm (first ++ done)) whole (
            Perm.trans (Perm.append_left first (subst (Perm done) rest order))
              (moves_front first (all_writes p before) (all_writes p behind))),
      )

  nothing_written :
      (p q : ConnectedUsersPool S)
      → q ≡ p
      → p.channel_store.spawned ≡ []
      → WroteSince p (all_writes p p.channel_store.spawned) q
  nothing_written p q f e = (
    [],
    ap (λ (q : ConnectedUsersPool S). q.sent) f ∙ sym (append-nil p.sent),
    subst (λ ts. Perm [] (all_writes p ts)) (sym e) Perm.nil,
  )

  -- While writes are all that is left, they write what is owed, in some order.
  writes-WroteSince :
      (ns : List ℕ) (p : ConnectedUsersPool S)
      → All IsWrite p.channel_store.spawned
      → pending p.channel_store ≤ length ns
      → WroteSince p (all_writes p p.channel_store.spawned) (run_picked ns p)
  unfolding run_picked run_goroutine handler_write
  writes-WroteSince [] p all l = nothing_written p p refl (nothing_pending p.channel_store l)
  writes-WroteSince (n ∷ ns) p all l = elim (picked_cases n ns p) [
    | inl (e, f) ↦ nothing_written p (run_picked (n ∷ ns) p) f e
    | inr (t, before, behind, e, f) ↦
        let (now, later) = All-split IsWrite before t behind (subst (All IsWrite) e all) in
        let (user, m, g) = only_write t now in
        let h = e ∙ ap (λ x. before ++ x ∷ behind) g in
        let q = run_goroutine (Task.write user m) (without (before ++ behind) p) in
        subst (WroteSince p (all_writes p p.channel_store.spawned))
          (sym (f ∙ ap (λ x. run_picked ns (run_goroutine x (without (before ++ behind) p))) g))
          (write_first p (run_picked ns q) user m before behind h (
            writes-WroteSince ns q later
              (omega (arith, l, pending-picked (Task.write user m) before behind p h))))
  ]

  copies_for-heap :
      (p q : ConnectedUsersPool S) (m : SocketMessage) (users : List ℕ)
      → q.heap ≡ p.heap
      → copies_for q m users ≡ copies_for p m users
  unfolding connections_of
  copies_for-heap p q m [] e = refl
  copies_for-heap p q m (user ∷ users) e = ground (arith, copies_for-heap p q m users e)

  -- The goroutine of a message has found the channel.
  messaged :
      (p : ConnectedUsersPool S) (name : String) (m : SocketMessage) (c : Channel)
      → channel_at name p.channel_store ≡ some c
      → run_goroutine (Task.message_members name m) (without [] p) ≡ without (writes m c) p
  unfolding run_goroutine run_task
  messaged p name m c e = ground arith

  message-WroteSince :
      (ns : List ℕ) (p : ConnectedUsersPool S) (name : String) (m : SocketMessage) (c : Channel)
      → p.channel_store.spawned ≡ Task.message_members name m ∷ []
      → channel_at name p.channel_store ≡ some c
      → pending p.channel_store ≤ length ns
      → WroteSince p (copies_for p m c.members) (run_picked ns p)
  message-WroteSince [] p name m c e at l = absurd (cc (sym e ∙ nothing_pending p.channel_store l))
  message-WroteSince (n ∷ ns) p name m c e at l = elim (picked_cases n ns p) [
    | inl (f, _) ↦ absurd (cc (sym e ∙ f))
    | inr (t, before, behind, f, g) ↦
        let (b, s, d) = one_split before t behind (sym e ∙ f) in
        let q = without (writes m c) p in
        let first : run_goroutine t (without (before ++ behind) p) ≡ q =
          ap (λ x. run_goroutine t (without x p)) (ap (λ x. x ++ behind) b ∙ d)
          ∙ ap (λ x. run_goroutine x (without [] p)) s
          ∙ messaged p name m c at in
        let (done, sent, order) = writes-WroteSince ns q (writes-IsWrite m c) (
          omega (
            arith,
            l,
            pending-picked t before behind p f,
            ap (λ (x : ConnectedUsersPool S). pending x.channel_store) first,
          )) in
        (
          done,
          ap (λ (x : ConnectedUsersPool S). x.sent) (g ∙ ap (run_picked ns) first) ∙ sent,
          subst (Perm done) (all_writes-heap p q (writes m c) refl ∙ all_writes-writes p m c) order,
        )
  ]

module _ {S : Type 0} (store : MessageStore S) (p : ConnectedUsersPool S) (u : UserRef)
    (r : SendMessageRequest) (now : ℤ) where
  -- A request to send that is accepted has left a goroutine for the channel.
  accepted_cases :
      (q : ConnectedUsersPool S)
      → handle_send_message store u r now p ≡ (ok tt, q)
      → (c : Channel) × (kept : S) × (channel_at r.channel p.channel_store ≡ some c)
        × (q ≡ record p {
          channel_store = sent_on store (authored store p u r now) kept p.channel_store;
        })
  unfolding handle_send_message
  accepted_cases q e = elim (Bool-cases (is_user_present_in u r.channel p.channel_store)) [
    | inl present ↦
        let o = message_channel store ev p.channel_store in
        let answered : o.0 ≡ ok tt = ground (arith, e) in
        let after : record p { channel_store = o.1 } ≡ q = ground (arith, e) in
        let (c, kept, at, f) = sends answered in
        (c, kept, at, sym after ∙ ap (λ x. record p { channel_store = x }) f)
    | inr absent ↦ absurd (ground (arith, e))
  ]
    where
      ev : MessageEvent
      ev = authored store p u r now

      Sends : Result (Unit {0}) × ChannelStore S → Type 0
      Sends (answer, t) =
          answer ≡ ok tt
          → (c : Channel) × (kept : S) × (channel_at r.channel p.channel_store ≡ some c)
            × (t ≡ sent_on store ev kept p.channel_store)

      sends : Sends (message_channel store ev p.channel_store)
      sends =
          message_cases store Sends ev p.channel_store (λ h x. absurd (cc x))
            (λ h m x. absurd (cc x)) (λ c e kept h m i x. absurd (cc x))
            (λ c id kept h m i x. (c, kept, m, refl))

  abbrev pub told : SocketMessage
  told = new_socket_message new_message_event (message_event (authored store p u r now))

  -- A message whose request is accepted, while no other goroutine is spawned and none is called for,
  -- is written exactly once to each connection of each member that the channel has, and nothing else
  -- is written, in whatever order the scheduler picks the goroutines. After at most `pending` choices
  -- none of them is left.
  pub handle_send_message-delivers :
      (q : ConnectedUsersPool S) (ns : List ℕ)
      → p.channel_store.spawned ≡ []
      → handle_send_message store u r now p ≡ (ok tt, q)
      → pending q.channel_store ≤ length ns
      → let t = run_picked ns q in
        (t.channel_store.spawned ≡ [])
        × ((c : Channel) × (channel_at r.channel p.channel_store ≡ some c)
            × (done : List (ℕ × SocketMessage)) × (t.sent ≡ p.sent ++ done)
            × Perm done (copies_for p told c.members))
  unfolding connections_of
  handle_send_message-delivers q ns idle e enough =
      let (c, kept, at, f) = accepted_cases q e in
      let s = record p {
        channel_store = sent_on store (authored store p u r now) kept p.channel_store;
      } in
      let (done, sent, order) =
        message-WroteSince ns s r.channel told c
          (ap (λ ts. ts ++ Task.message_members r.channel told ∷ []) idle) at
          (subst (λ (x : ConnectedUsersPool S). pending x.channel_store ≤ length ns) f enough) in
      (
        run_picked-rests ns q enough,
        (
          c,
          at,
          done,
          ap (λ (x : ConnectedUsersPool S). (run_picked ns x).sent) f ∙ sent,
          subst (Perm done) (copies_for-heap p s told c.members refl) order,
        ),
      )
