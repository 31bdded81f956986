-- ===== src/ChannelStore/Interleavings.antt =====
-- channel_store.go: a user that disconnects while other users call the store and goroutines run in
-- any order.
use sockchat.Prelude.{
  ℕ, String, ◌≡◌, ◌≢◌, refl, sym, ◌∙◌, subst, true, false, List, [], ◌∷◌, ◌++◌, arith, inl, inr,
  Option-cases, nat_key, string_key, ==_iff,
}
use mathlib.Core.List.{append-nil}
use sockchat.Api.Structs.{MessageEvent}
use sockchat.ChannelStore.{
  ChannelStore, MessageStore, UserRef, Task, channel_at, channel_exists, create_channel,
  add_user_to_channel, remove_user_from_channel, disconnect_user, message_channel, run_task,
}
use sockchat.ChannelStore.Cases.{create_channel_cases, add_cases, remove_cases, message_cases}
use sockchat.ChannelStore.Rooms.{
  is_member, CreateRefines, create_channel-refines, AddRefines, add-refines, RemoveRefines,
  remove-refines, member_nowhere, member_of_channels, exists_of_channels,
}
use sockchat.ChannelStore.Goroutines.{
  is_leaving, is_leaving-cons, member-disconnect_user, disconnect_user-IsNamed, is_leaving-append,
  is_leaving-goodbyes, IsNamed, member-run_task, goodbyes, run_task-IsNamed,
}

-- One step of the store in which user `u` joins no channel: a goroutine is picked from those that
-- are spawned, or somebody makes a call.
pub data Step {S : Type 0} (store : MessageStore S) (u : ℕ) (s t : ChannelStore S) : Type 0 where
  picks :
      (before : List Task) (task : Task) (behind : List Task)
      → s.spawned ≡ before ++ task ∷ behind
      → t ≡ run_task task (record s { spawned = before ++ behind })
      → Step store u s t
  creates : (name : String) → t ≡ (create_channel name s).1 → Step store u s t
  adds :
      (name : String) (user : UserRef)
      → user.addr ≢ u
      → t ≡ (add_user_to_channel name user s).1
      → Step store u s t
  removes :
      (name : String) (user : UserRef)
      → t ≡ (remove_user_from_channel name user s).1
      → Step store u s t
  disconnects : (user : UserRef) → t ≡ (disconnect_user user s).1 → Step store u s t
  messages : (event : MessageEvent) → t ≡ (message_channel store event s).1 → Step store u s t

pub data Steps {S : Type 0} (store : MessageStore S) (u : ℕ) (s : ChannelStore S)
    : ChannelStore S → Type 0 where
  here : Steps store u s s
  next : {t w : ChannelStore S} → Steps store u s t → Step store u t w → Steps store u s w

-- Wherever the user still is, a goroutine that takes it out is waiting.
pub record IsLeaving {S : Type 0} (u : ℕ) (s : ChannelStore S) : Type 0 where
  pub named : IsNamed s
  pub waiting : (n : String) → is_member s n u ≡ true → is_leaving n u s.spawned ≡ true

-- A call spawns goroutines behind those that are there.
abbrev Spawns : {S : Type 0} → ChannelStore S → ChannelStore S → Type 0
Spawns s t = (new : List Task) × (t.spawned ≡ s.spawned ++ new)

module _ {S : Type 0} (u : ℕ) {s t : ChannelStore S} where
  -- A call that makes no channel of the empty name and puts the user in no channel.
  kept :
      Spawns s t
      → (channel_exists "" s ≡ false → channel_exists "" t ≡ false)
      → ((n : String) → is_member t n u ≡ true → is_member s n u ≡ true)
      → IsLeaving u s
      → IsLeaving u t
  kept (new, e) names fewer l = record {
    named = names l.named;
    waiting = λ n inside.
        ground (arith, e, is_leaving-append n u s.spawned new, l.waiting n (fewer n inside));
  }

module _ {S : Type 0} (s : ChannelStore S) where
  create-Spawns : (name : String) → Spawns s (create_channel name s).1
  create-Spawns name =
      create_channel_cases (λ o. Spawns s o.1) name s (λ e. ([], sym (append-nil s.spawned)))
        (λ e t. ([], sym (append-nil s.spawned))) (λ e f. ([], sym (append-nil s.spawned)))

  add-Spawns : (name : String) (user : UserRef) → Spawns s (add_user_to_channel name user s).1
  add-Spawns name user =
      add_cases (λ o. Spawns s o.1) name user s (λ e. ([], sym (append-nil s.spawned)))
        (λ e m. ([], sym (append-nil s.spawned))) (λ c e m i. ([], sym (append-nil s.spawned)))
        (λ c e m o. (_, refl))

  remove-Spawns :
      (name : String) (user : UserRef) → Spawns s (remove_user_from_channel name user s).1
  remove-Spawns name user =
      remove_cases (λ o. Spawns s o.1) name user s (λ e. ([], sym (append-nil s.spawned)))
        (λ e m. ([], sym (append-nil s.spawned))) (λ c e m i. ([], sym (append-nil s.spawned)))
        (λ c e m o. (_, refl))

  run_task-Spawns : (t : Task) → Spawns s (run_task t s)
  unfolding run_task
  run_task-Spawns (Task.write v m) = ([], sym (append-nil s.spawned))
  run_task-Spawns (Task.remove_user_from_channel name user) = remove-Spawns name user
  run_task-Spawns (Task.message_members name m) = elim (Option-cases (channel_at name s)) [
    | inl e ↦ rw (e, run_task) ([], sym (append-nil s.spawned))
    | inr (c, e) ↦ rw (e, run_task) (_, refl)
  ]

  module _ (store : MessageStore S) where
    message-Spawns : (event : MessageEvent) → Spawns s (message_channel store event s).1
    message-Spawns event =
        message_cases store (λ o. Spawns s o.1) event s (λ e. ([], sym (append-nil s.spawned)))
          (λ e m. ([], sym (append-nil s.spawned)))
          (λ c e kept h m i. ([], sym (append-nil s.spawned))) (λ c id kept h m i. (_, refl))

    message-channels :
        (event : MessageEvent) → (message_channel store event s).1.channels ≡ s.channels
    message-channels event =
        message_cases store (λ o. o.1.channels ≡ s.channels) event s (λ e. refl) (λ e m. refl)
          (λ c e kept h m i. refl) (λ c id kept h m i. refl)

module _ {S : Type 0} (u : ℕ) (s : ChannelStore S) where
  create-kept : (name : String) → IsLeaving u s → IsLeaving u (create_channel name s).1
  create-kept name =
      let done : CreateRefines s name (create_channel name s) = create_channel-refines s name in
      kept u (create-Spawns s name) (λ h. ground (arith, done.0, done.1 "", ==_iff name ""))
        (λ n h. ground (arith, done.2 n u))

  add-kept :
      (name : String) (user : UserRef)
      → user.addr ≢ u
      → IsLeaving u s
      → IsLeaving u (add_user_to_channel name user s).1
  add-kept name user other =
      let done : AddRefines s name user.addr (add_user_to_channel name user s) =
        add-refines s name user in
      kept u (add-Spawns s name user) (λ h. ground (arith, done.1 ""))
        (λ n h. ground (arith, done.2 n u))

  remove-kept :
      (name : String) (user : UserRef)
      → IsLeaving u s
      → IsLeaving u (remove_user_from_channel name user s).1
  remove-kept name user =
      let done : RemoveRefines s name user.addr (remove_user_from_channel name user s) =
        remove-refines s name user in
      kept u (remove-Spawns s name user) (λ h. ground (arith, done.1 ""))
        (λ n h. ground (arith, done.2 n u))

  disconnect-kept : (user : UserRef) → IsLeaving u s → IsLeaving u (disconnect_user user s).1
  unfolding disconnect_user
  disconnect-kept user =
      kept u (goodbyes user s, refl)
        (λ h. exists_of_channels s (disconnect_user user s).1 refl "" ∙ h)
        (λ n h. sym (member_of_channels s (disconnect_user user s).1 refl n u) ∙ h)

  message-kept :
      (store : MessageStore S) (event : MessageEvent)
      → IsLeaving u s
      → IsLeaving u (message_channel store event s).1
  message-kept store event =
      let same = message-channels s store event in
      let t = (message_channel store event s).1 in
      kept u (message-Spawns s store event) (λ h. exists_of_channels s t same "" ∙ h)
        (λ n h. sym (member_of_channels s t same n u) ∙ h)

  -- The goroutine that is picked leaves the list, and what it was waiting to do is done.
  picked :
      (before : List Task) (task : Task) (behind : List Task)
      → s.spawned ≡ before ++ task ∷ behind
      → IsLeaving u s
      → IsLeaving u (run_task task (record s { spawned = before ++ behind }))
  picked before task behind e l = record {
    named = run_task-IsNamed rest rest_named task;
    waiting = λ n inside. waits n inside (run_task-Spawns rest task);
  }
    where
      rest : ChannelStore S
      rest = record s { spawned = before ++ behind }

      rest_named : IsNamed rest
      rest_named = exists_of_channels s rest refl "" ∙ l.named

      waits :
          (n : String)
          → is_member (run_task task rest) n u ≡ true
          → Spawns rest (run_task task rest)
          → is_leaving n u (run_task task rest).spawned ≡ true
      waits n inside (new, f) = ground (
        arith,
        member-run_task rest rest_named task n u,
        member_of_channels s rest refl n u,
        l.waiting n,
        is_leaving-append n u before (task ∷ behind),
        is_leaving-cons n u task behind,
        is_leaving-append n u before behind,
        is_leaving-append n u (before ++ behind) new,
      )

module _ {S : Type 0} (store : MessageStore S) (u : ℕ) where
  Step-IsLeaving : {s t : ChannelStore S} → Step store u s t → IsLeaving u s → IsLeaving u t
  Step-IsLeaving {s} (picks before task behind e f) l =
      subst (IsLeaving u) (sym f) (picked u s before task behind e l)
  Step-IsLeaving {s} (creates name f) l = subst (IsLeaving u) (sym f) (create-kept u s name l)
  Step-IsLeaving {s} (adds name user other f) l =
      subst (IsLeaving u) (sym f) (add-kept u s name user other l)
  Step-IsLeaving {s} (removes name user f) l =
      subst (IsLeaving u) (sym f) (remove-kept u s name user l)
  Step-IsLeaving {s} (disconnects user f) l =
      subst (IsLeaving u) (sym f) (disconnect-kept u s user l)
  Step-IsLeaving {s} (messages event f) l =
      subst (IsLeaving u) (sym f) (message-kept u s store event l)

  Steps-IsLeaving : {s t : ChannelStore S} → IsLeaving u s → Steps store u s t → IsLeaving u t
  Steps-IsLeaving l here = l
  Steps-IsLeaving l (next steps step) = Step-IsLeaving step (Steps-IsLeaving l steps)

disconnected :
    {S : Type 0} (user : UserRef) (s : ChannelStore S)
    → IsNamed s
    → IsLeaving user.addr (disconnect_user user s).1
unfolding disconnect_user
disconnected user s named = record {
  named = disconnect_user-IsNamed user s named;
  waiting = λ n inside. ground (
    arith,
    member-disconnect_user user s n user.addr,
    member_nowhere s n user.addr,
    is_leaving-append n user.addr s.spawned (goodbyes user s),
    is_leaving-goodbyes user s n user.addr,
  );
}

-- After `DisconnectUser`, whatever other users call and in whatever order goroutines run, as long as
-- the user itself joins no channel: it is in no channel from which no goroutine is waiting to take
-- it out. No channel may have the empty name at the start.
pub disconnect_user-leaves :
    {S : Type 0} (store : MessageStore S) (user : UserRef) (s : ChannelStore S) {t : ChannelStore S}
    → IsNamed s
    → Steps store user.addr (disconnect_user user s).1 t
    → (name : String) → is_leaving name user.addr t.spawned ≡ false
    → is_member t name user.addr ≡ false
disconnect_user-leaves store user s {t} named steps name gone =
    let l = Steps-IsLeaving store user.addr (disconnected user s named) steps in
    ground (arith, l.waiting name)
