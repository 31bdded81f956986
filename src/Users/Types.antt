-- ===== src/Users/Types.antt =====
-- user_connections.go: the data of the pool of connected users. Connections and handlers are known by
-- their addresses; the handlers' own data stands in a heap, since the pool, the channels and a running
-- session may all hold a pointer to one.
use sockchat.Prelude.{ℕ, String, List}
use sockchat.Prelude.GoMap.{Map}
use sockchat.Api.Effects.{Result}
use sockchat.Api.Structs.{ChannelRequest, SendMessageRequest}
use sockchat.Api.WsMessages.{SocketMessage}
use sockchat.ChannelStore.{ChannelStore, UserRef}

-- `connections` is the set of its websocket connections.
pub record UserHandler : Type 0 where
  pub nick : String
  pub connections : List ℕ

-- `heap` and `next_addr` are the allocator's, `sent` is what has been written to connections, the
-- latest message last.
pub record ConnectedUsersPool (S : Type 0) : Type 0 where
  pub handlers : Map String UserRef
  pub connections : Map ℕ String
  pub heap : Map ℕ UserHandler
  pub next_addr : ℕ
  pub channel_store : ChannelStore S
  pub sent : List (ℕ × SocketMessage)

-- The `payload any` of a `UserHandlerRequest`.
pub data RequestPayload : Type 0 where
  channel_request : ChannelRequest → RequestPayload
  send_message_request : SendMessageRequest → RequestPayload

pub record UserHandlerRequest : Type 0 where
  pub action : String
  pub payload : RequestPayload

-- What becomes of a request: an answer on its `errCallback`, none ever, or a failed type assertion.
pub data Reply : Type 0 where
  replied : Result (Unit {0}) → Reply
  never : Reply
  panicked : Reply
