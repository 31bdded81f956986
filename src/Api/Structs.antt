-- ===== src/Api/Structs.antt =====
-- api/structs.go, api/web_messages.go and the requests and events of api/ws_messages.go.
use sockchat.Prelude.{ℕ, String, List}

-- An `int64`; `negsuc n` is -(n + 1).
pub data ℤ : Type 0 where
  pos : ℕ → ℤ
  negsuc : ℕ → ℤ

pub record MessageEvent : Type 0 where
  pub text : String
  pub channel : String
  pub author : String
  pub timestamp : ℤ

pub record PublicProfile : Type 0 where
  pub nick : String
  pub description : String

abbrev pub ChannelHistory : Type 0
ChannelHistory = List MessageEvent

pub record EmptyMessage : Type 0 where

pub record CreateProfileRequest : Type 0 where
  pub nick : String
  pub password : String
  pub description : String

pub record EditProfileRequest : Type 0 where
  pub description : String

pub record GetProfileRequest : Type 0 where
  pub nick : String

pub record GetChannelHistoryRequest : Type 0 where
  pub channel : String
  pub search : String

pub record ErrorResponse : Type 0 where
  error_description : String

pub record LoginRequest : Type 0 where
  pub nick : String
  pub password : String

-- For create, join and leave requests.
pub record ChannelRequest : Type 0 where
  pub name : String

pub record ChannelUserChangeEvent : Type 0 where
  pub channel : String
  pub nick : String

-- For messages sent to the server.
pub record SendMessageRequest : Type 0 where
  pub channel : String
  pub text : String

abbrev pub login_action : String
login_action = "login"

abbrev pub join_action : String
join_action = "join"

abbrev pub create_action : String
create_action = "create"

abbrev pub leave_action : String
leave_action = "leave"

abbrev pub send_message_action : String
send_message_action = "send_message"

abbrev pub user_joined_channel_event : String
user_joined_channel_event = "user has joined the channel"

abbrev pub user_left_channel_event : String
user_left_channel_event = "user has left the channel"

abbrev pub you_left_channel_event : String
you_left_channel_event = "you have left the channel"

abbrev pub new_message_event : String
new_message_event = "new message in channel"
