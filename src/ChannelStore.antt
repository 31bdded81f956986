-- ===== src/ChannelStore.antt =====
-- channel_store.go: the chat channels and their members. Channels are made once under their name and
-- never replaced, so a pointer to one is its name. A `go` statement puts a goroutine on the list
-- `spawned`; what it does is done when the scheduler picks it.
mod Types
pub mod Cases
pub mod Rooms
pub mod Goroutines
pub mod Interleavings
pub mod Messages
pub mod Weights
pub mod Calls
pub mod Tests
unfoldable pub use Types.*
use sockchat.Prelude.{
  String, Bool, true, false, not, Option, none, some, List, [], ◌∷◌, ◌++◌, map, ◌==◌, string_key,
}
use sockchat.Prelude.GoMap.{keys}
use sockchat.Prelude.GoMap
use sockchat.Api.Errors.{
  err_empty_channel_name, err_channel_does_not_exist, err_channel_already_exists,
  err_user_already_in_channel, err_user_not_in_channel, err_message_not_sent,
}
use sockchat.Api.Effects.{
  Result, ok, err, Action, pure, raise, modify, gets, return_if, ◌>>=◌, ◌>>◌, handle,
}
use sockchat.Api.Structs.{
  MessageEvent, user_joined_channel_event, user_left_channel_event, new_message_event,
}
use sockchat.Api.WsMessages.{
  SocketMessage, new_socket_message, channel_user_change_event, message_event,
}

abbrev pub announcement : String → String → UserRef → SocketMessage
announcement event channel_name user =
    new_socket_message event
      (channel_user_change_event (record { channel = channel_name; nick = user.nick }))

module _ {S : Type 0} where
  unfoldable new_channel_store : S → ChannelStore S
  new_channel_store messages = record { channels = []; message_store = messages; spawned = [] }

  -- What stands at a name; `none` is the nil pointer.
  abbrev pub channel_at : String → ChannelStore S → Option Channel
  channel_at name s = GoMap.get name s.channels

  unfoldable validate_channel_name : String → Action (ChannelStore S) (Unit {0})
  validate_channel_name channel_name = return_if (channel_name == "") err_empty_channel_name

  abbrev non_nil : Option Channel → Action (ChannelStore S) Channel
  non_nil none = raise err_channel_does_not_exist
  non_nil (some channel) = pure channel

  unfoldable pub get_channel : String → Action (ChannelStore S) Channel
  unfolding validate_channel_name
  get_channel name = do validate_channel_name name; non_nil (← gets (channel_at name))

  -- `s.Channels[name] != nil`
  unfoldable pub channel_exists : String → ChannelStore S → Bool
  channel_exists name s = elim (channel_at name s) [ none ↦ false | some _ ↦ true ]

  -- A write through the pointer that stands at the name.
  abbrev pub write_channel : String → Channel → Action (ChannelStore S) (Unit {0})
  write_channel name c =
      modify (λ (s : ChannelStore S). record s { channels = GoMap.set name c s.channels })

  abbrev pub spawn : List Task → Action (ChannelStore S) (Unit {0})
  spawn tasks = modify (λ (s : ChannelStore S). record s { spawned = s.spawned ++ tasks })

  unfoldable pub create_channel : String → Action (ChannelStore S) (Unit {0})
  unfolding validate_channel_name channel_exists
  create_channel channel_name = do
    validate_channel_name channel_name
    return_if (← gets (channel_exists channel_name)) err_channel_already_exists
    write_channel channel_name new_channel

  -- `channel.MessageMembers(message)` at the channel that the caller holds.
  abbrev pub message_members_of : Channel → SocketMessage → Action (ChannelStore S) (Unit {0})
  message_members_of channel message = spawn (writes message channel)

  unfoldable pub add_user_to_channel : String → UserRef → Action (ChannelStore S) (Unit {0})
  unfolding get_channel
  add_user_to_channel channel_name user = do
    channel ← get_channel channel_name
    return_if (has_member user.addr channel) err_user_already_in_channel
    write_channel channel_name (add_member user.addr channel)
    message_members_of (add_member user.addr channel)
        (announcement user_joined_channel_event channel_name user)

  unfoldable pub remove_user_from_channel : String → UserRef → Action (ChannelStore S) (Unit {0})
  unfolding get_channel
  remove_user_from_channel channel_name user = do
    channel ← get_channel channel_name
    return_if (not (has_member user.addr channel)) err_user_not_in_channel
    write_channel channel_name (remove_member user.addr channel)
    message_members_of (remove_member user.addr channel)
        (announcement user_left_channel_event channel_name user)

  -- Removes the user from all channels, by a goroutine for each.
  unfoldable pub disconnect_user : UserRef → Action (ChannelStore S) (Unit {0})
  disconnect_user user s =
      spawn (map (λ name. Task.remove_user_from_channel name user) (keys s.channels)) s

  unfoldable pub is_user_present_in : UserRef → String → ChannelStore S → Bool
  unfolding get_channel
  is_user_present_in user channel_name s = elim (get_channel channel_name s).0 [
    | err _ ↦ false
    | ok channel ↦ has_member user.addr channel
  ]

  -- What a goroutine does to the store when it is picked. A write does nothing here: it goes to the
  -- connections of its user.
  unfoldable pub run_task : Task → ChannelStore S → ChannelStore S
  unfolding remove_user_from_channel
  run_task (Task.write user message) s = s
  run_task (Task.message_members name message) s = elim (channel_at name s) [
    | none ↦ s
    | some channel ↦ (message_members_of channel message s).1
  ]
  run_task (Task.remove_user_from_channel name user) s = (remove_user_from_channel name user s).1

module _ {S : Type 0} (store : MessageStore S) where
  -- `s.messageStore.IndexMessage(message)`
  unfoldable pub index_message : MessageEvent → Action (ChannelStore S) String
  index_message message s =
      let (r, kept) = store.index_message message s.message_store in
      (r, record s { message_store = kept })

  abbrev after_index : MessageEvent → Result String → Action (ChannelStore S) (Unit {0})
  after_index message (err _) = raise err_message_not_sent
  after_index message (ok _) = spawn (
      Task.message_members message.channel
        (new_socket_message new_message_event (message_event message))
      ∷ [])

  unfoldable pub message_channel : MessageEvent → Action (ChannelStore S) (Unit {0})
  unfolding get_channel index_message
  message_channel message = do
    channel ← get_channel message.channel
    handle (index_message message) (after_index message)
