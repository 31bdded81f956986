-- ===== src/Api/WsMessages.antt =====
-- api/ws_messages.go: the messages of the websocket, and the JSON of the structs that are sent.
use sockchat.Prelude.{String}
use sockchat.Api.Errors.{error_text, err_invalid_request}
use sockchat.Api.Json.{Json, str, int, obj, end, field}
use sockchat.Api.Structs.{
  MessageEvent, LoginRequest, ChannelRequest, ChannelUserChangeEvent, SendMessageRequest,
}

pub record SocketMessage : Type 0 where
  pub action : String
  pub payload : Json

-- The structs that are marshalled into a payload or, by a client, into a request.
pub data Payload : Type 0 where
  text : String → Payload
  message_event : MessageEvent → Payload
  channel_user_change_event : ChannelUserChangeEvent → Payload
  error_details : String → Payload
  login_request : LoginRequest → Payload
  channel_request : ChannelRequest → Payload
  send_message_request : SendMessageRequest → Payload

-- `json.Marshal`, by the structs' tags. It fails for none of them.
unfoldable pub marshal : Payload → Json
marshal (text s) = str s
marshal (message_event e) = obj (
    field "text" (str e.text) (
      field "channel" (str e.channel)
        (field "author" (str e.author) (field "timestamp" (int e.timestamp) end))))
marshal (channel_user_change_event e) =
    obj (field "channel" (str e.channel) (field "nick" (str e.nick) end))
marshal (error_details description) = obj (field "description" (str description) end)
marshal (login_request r) = obj (field "nick" (str r.nick) (field "password" (str r.password) end))
marshal (channel_request r) = obj (field "name" (str r.name) end)
marshal (send_message_request r) =
    obj (field "channel" (str r.channel) (field "text" (str r.text) end))

unfoldable pub new_socket_message : String → Payload → SocketMessage
new_socket_message action payload = record { action = action; payload = marshal payload }

unfoldable pub new_socket_error : String → SocketMessage
unfolding new_socket_message
new_socket_error description =
    new_socket_message (error_text err_invalid_request) (error_details description)
