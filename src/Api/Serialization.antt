-- ===== src/Api/Serialization.antt =====
-- api/serialization.go: the structs that a payload or a body is read into. Some functions replace
-- the decoder's error by `ErrInvalidRequest`, the others pass it on.
use sockchat.Prelude.{none, some, if◌then◌else◌}
use sockchat.Api.Errors.{Error, err_invalid_request, other}
use sockchat.Api.Effects.{Result, ok, err, or_return}
use sockchat.Api.Json.{
  Json, Fields, Slot, string_field, int64_field, empty_string, zero_int64, object_fields,
}
use sockchat.Api.Structs.{
  MessageEvent, LoginRequest, ChannelRequest, ChannelUserChangeEvent, SendMessageRequest,
  CreateProfileRequest, EditProfileRequest,
}

-- The decoder's own error.
abbrev pub json_error : Error
json_error = other "json"

-- `json.Unmarshal` into a struct: `fill` gives the struct and whether its fields took their values.
abbrev pub unmarshal : {A : Type 0} → (Fields → Slot A) → Json → Result A
unmarshal fill j = elim (object_fields j) [
  | none ↦ err json_error
  | some fields ↦ let (a, fine) = fill fields in if fine then ok a else err json_error
]

abbrev fill_channel_request : Fields → Slot ChannelRequest
fill_channel_request fields =
    let (name, fine) = string_field "name" fields empty_string in (record { name = name }, fine)

abbrev fill_login_request : Fields → Slot LoginRequest
fill_login_request fields =
    let (nick, fine) = string_field "nick" fields empty_string in
    let (password, both) = string_field "password" fields ("", fine) in
    (record { nick = nick; password = password }, both)

abbrev fill_channel_user_change_event : Fields → Slot ChannelUserChangeEvent
fill_channel_user_change_event fields =
    let (channel, fine) = string_field "channel" fields empty_string in
    let (nick, both) = string_field "nick" fields ("", fine) in
    (record { channel = channel; nick = nick }, both)

abbrev fill_send_message_request : Fields → Slot SendMessageRequest
fill_send_message_request fields =
    let (channel, fine) = string_field "channel" fields empty_string in
    let (text, both) = string_field "text" fields ("", fine) in
    (record { channel = channel; text = text }, both)

abbrev fill_message_event : Fields → Slot MessageEvent
fill_message_event fields =
    let (text, fine) = string_field "text" fields empty_string in
    let (channel, fine₂) = string_field "channel" fields ("", fine) in
    let (author, fine₃) = string_field "author" fields ("", fine₂) in
    let (timestamp, fine₄) = int64_field "timestamp" fields (zero_int64.0, fine₃) in
    (record { text = text; channel = channel; author = author; timestamp = timestamp }, fine₄)

abbrev fill_create_profile_request : Fields → Slot CreateProfileRequest
fill_create_profile_request fields =
    let (nick, fine) = string_field "nick" fields empty_string in
    let (password, fine₂) = string_field "password" fields ("", fine) in
    let (description, fine₃) = string_field "description" fields ("", fine₂) in
    (record { nick = nick; password = password; description = description }, fine₃)

abbrev fill_edit_profile_request : Fields → Slot EditProfileRequest
fill_edit_profile_request fields =
    let (description, fine) = string_field "description" fields empty_string in
    (record { description = description }, fine)

unfoldable pub unmarshal_channel_request : Json → Result ChannelRequest
unfolding object_fields string_field
unmarshal_channel_request j = or_return (unmarshal fill_channel_request j) err_invalid_request

unfoldable pub unmarshal_login_request : Json → Result LoginRequest
unfolding object_fields string_field
unmarshal_login_request j = unmarshal fill_login_request j

unfoldable unmarshal_channel_user_change_event : Json → Result ChannelUserChangeEvent
unfolding object_fields string_field
unmarshal_channel_user_change_event j = unmarshal fill_channel_user_change_event j

unfoldable pub unmarshal_message_request : Json → Result SendMessageRequest
unfolding object_fields string_field
unmarshal_message_request j = or_return (unmarshal fill_send_message_request j) err_invalid_request

unfoldable unmarshal_message_event : Json → Result MessageEvent
unfolding object_fields string_field int64_field
unmarshal_message_event j = unmarshal fill_message_event j

unfoldable pub unmarshal_create_profile_request : Json → Result CreateProfileRequest
unfolding object_fields string_field
unmarshal_create_profile_request j = unmarshal fill_create_profile_request j

unfoldable pub unmarshal_edit_profile_request : Json → Result EditProfileRequest
unfolding object_fields string_field
unmarshal_edit_profile_request j = unmarshal fill_edit_profile_request j
