-- ===== src/ChannelStore/Messages.antt =====
-- channel_store.go: who is told of what. The announcements of joins and leaves, and the messages that
-- go to the members of a channel.
use sockchat.Prelude.{
  ℕ, String, ◌≡◌, refl, sym, not, List, [], ◌∷◌, ◌++◌, map, arith, if◌then◌else◌, ◌==◌, ==_refl,
  nat_key, string_key, inl, inr, Option-cases,
}
use mathlib.Core.List.{append-nil}
use sockchat.Prelude.GoMap
use sockchat.Prelude.GoSet.{contains}
use sockchat.Api.Errors.{err_empty_channel_name, err_channel_does_not_exist, err_message_not_sent}
use sockchat.Api.Effects.{Result, ok, err}
use sockchat.Api.Structs.{
  MessageEvent, user_joined_channel_event, user_left_channel_event, new_message_event,
}
use sockchat.Api.WsMessages.{SocketMessage, new_socket_message, message_event}
use sockchat.ChannelStore.{
  ChannelStore, MessageStore, UserRef, Task, Channel, channel_at, channel_exists,
  add_user_to_channel, remove_user_from_channel, message_channel, run_task, announcement, writes,
  has_member, add_member, remove_member,
}
use sockchat.ChannelStore.Cases.{add_cases, remove_cases, message_cases}
use sockchat.ChannelStore.Rooms.{
  is_member, Outcome, exists_at, exists_nowhere, member-written, is_ok,
}

-- The goroutines that `t` has besides those of `s` write `message` to each member that channel `name`
-- has in `t`, and to nobody else.
abbrev Tells : {S : Type 0} → ChannelStore S → ChannelStore S → String → SocketMessage → Type 0
Tells s t name message =
    (users : List ℕ) × (t.spawned ≡ s.spawned ++ map (λ user. Task.write user message) users)
    × ((user : ℕ) → contains user users ≡ is_member t name user)

-- What a call that began at `s` announces: nothing if it fails.
abbrev pub Announces : {S : Type 0} → ChannelStore S → String → SocketMessage → Outcome S → Type 0
Announces s name message (ok _, t) = Tells s t name message
Announces s name message (err _, t) = t ≡ s

module _ {S : Type 0} (s : ChannelStore S) (name : String) where
  written-Tells :
      (c : Channel) (message : SocketMessage)
      → Tells s
          (record s {
            channels = GoMap.set name c s.channels;
            spawned = s.spawned ++ writes message c;
          })
          name
          message
  unfolding writes has_member
  written-Tells c message = (
    c.members,
    refl,
    λ user.
        ground
          (arith, member-written s name c (s.spawned ++ writes message c) name user, ==_refl name),
  )

  -- A user that joins is announced to every member of the channel, the user itself included, and to
  -- nobody else. A call that fails changes nothing and announces nothing.
  pub add-Announces :
      (user : UserRef)
      → Announces s name
          (announcement user_joined_channel_event name user)
          (add_user_to_channel name user s)
  add-Announces user =
      add_cases (Announces s name (announcement user_joined_channel_event name user)) name user s
        (λ e. refl) (λ e m. refl) (λ c e m i. refl)
        (λ c e m o. written-Tells (add_member user.addr c) _)

  -- A user that leaves is announced to every member that is left in the channel, and to nobody else.
  -- A call that fails changes nothing and announces nothing.
  pub remove-Announces :
      (user : UserRef)
      → Announces s name
          (announcement user_left_channel_event name user)
          (remove_user_from_channel name user s)
  remove-Announces user =
      remove_cases (Announces s name (announcement user_left_channel_event name user)) name user s
        (λ e. refl) (λ e m. refl) (λ c e m i. refl)
        (λ c e m o. written-Tells (remove_member user.addr c) _)

  -- The goroutine of a message tells the members that the channel has when it runs.
  message_members-Tells :
      (message : SocketMessage)
      → Tells s (run_task (Task.message_members name message) s) name message
  unfolding run_task writes has_member is_member contains
  message_members-Tells message = elim (Option-cases (channel_at name s)) [
    | inl e ↦ rw (e, run_task) ([], sym (append-nil s.spawned), λ user. rw (e, is_member) (refl))
    | inr (c, e) ↦ rw (e, run_task) (c.members, refl, λ user. rw (e, is_member) (refl))
  ]

module _ {S : Type 0} (store : MessageStore S) (event : MessageEvent) (s : ChannelStore S) where
  -- Whether the message store takes the message, and the state that it is in then.
  abbrev pub stored : Result String × S
  stored = store.index_message event s.message_store

  abbrev answer_message : Result (Unit {0})
  answer_message =
      if event.channel == ""
      then err err_empty_channel_name
      else if not (channel_exists event.channel s)
      then err err_channel_does_not_exist
      else if is_ok stored.0
      then ok tt
      else err err_message_not_sent

  -- What a call of `MessageChannel` has done, by its answer.
  abbrev pub Delivers : Outcome S → Type 0
  Delivers (r, t) =
      (r ≡ answer_message)
      × (t.channels ≡ s.channels)
      × (t.message_store ≡ (
          if event.channel == ""
          then s.message_store
          else if channel_exists event.channel s
          then stored.1
          else s.message_store))
      × (t.spawned ≡ (
          if is_ok r
          then s.spawned
            ++ Task.message_members event.channel
                (new_socket_message new_message_event (message_event event))
              ∷ []
          else s.spawned))

  -- A message is refused for an empty name and for a name that is no channel, before the message
  -- store sees it, and with `ErrMessageNotSent` if the message store fails. Only a stored message is
  -- sent on, by one goroutine. Nobody's membership changes.
  pub message_channel-Delivers : Delivers (message_channel store event s)
  message_channel-Delivers =
      message_cases store Delivers event s (λ e. (ground arith, refl, ground arith, refl))
        (λ e m.
          let x = exists_nowhere s event.channel m in (ground arith, refl, ground arith, refl))
        (λ c e kept h m i.
          let x = exists_at s event.channel m in (ground (arith, i), refl, ground (arith, i), refl))
        (λ c id kept h m i.
          let x = exists_at s event.channel m in (ground (arith, i), refl, ground (arith, i), refl))
