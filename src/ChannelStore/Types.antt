-- ===== src/ChannelStore/Types.antt =====
-- channel_store.go: the data of the channel store, and the methods of a single channel. A user
-- handler is known here by its address, which is the key of a channel's members, and by its nick.
use sockchat.Prelude.{ℕ, String, Bool, List, [], map, nat_key}
use sockchat.Prelude.GoMap.{Map}
use sockchat.Prelude.GoSet.{insert, delete, contains}
use sockchat.Api.Effects.{Action, Attempt, Result}
use sockchat.Api.Structs.{MessageEvent, ChannelHistory}
use sockchat.Api.WsMessages.{SocketMessage}

-- `api.SockchatMessageStore`: what the channel store and the core service use of a store of
-- messages, with the state `S` that it keeps.
pub record MessageStore (S : Type 0) : Type 0 where
  pub index_message : MessageEvent → Action S String
  pub find_messages : String → String → S → Attempt (Result ChannelHistory) × S

-- A value of `api.SockchatUserHandler`: a pointer to a handler, and the nick that it holds from its
-- creation on.
pub record UserRef : Type 0 where
  pub addr : ℕ
  pub nick : String

pub record Channel : Type 0 where
  pub members : List ℕ

-- A goroutine that has been spawned and has not run.
pub data Task : Type 0 where
  write : ℕ → SocketMessage → Task
  message_members : String → SocketMessage → Task
  remove_user_from_channel : String → UserRef → Task

pub record ChannelStore (S : Type 0) : Type 0 where
  pub channels : Map String Channel
  pub message_store : S
  pub spawned : List Task

unfoldable pub new_channel : Channel
new_channel = record { members = [] }

unfoldable pub add_member : ℕ → Channel → Channel
unfolding insert
add_member user c = record c { members = insert user c.members }

unfoldable pub remove_member : ℕ → Channel → Channel
unfolding delete
remove_member user c = record c { members = delete user c.members }

unfoldable pub has_member : ℕ → Channel → Bool
unfolding contains
has_member user c = contains user c.members

-- The goroutines that `MessageMembers` spawns: a write for each member.
unfoldable pub writes : SocketMessage → Channel → List Task
writes message c = map (λ user. Task.write user message) c.members
