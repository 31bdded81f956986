-- ===== src/Api/Errors.antt =====
-- api/errors.go: the error values that the services share and compare by identity. A value that
-- `fmt.Errorf` makes is equal to none of them; `other` holds its text.
use sockchat.Prelude.{String}

pub data Error : Type 0 where
  err_invalid_request err_internal err_unauthorized : Error
  err_basic_token_required err_could_not_decode_token : Error
  err_metadata_not_provided err_authorization_required : Error
  err_nick_already_used err_nick_required err_password_required err_user_not_found : Error
  err_channel_not_found err_channel_does_not_exist err_channel_already_exists : Error
  err_user_not_in_channel err_user_already_in_channel err_empty_channel_name : Error
  err_message_not_sent err_invalid_group_by err_invalid_date_format : Error
  err_from_missing err_to_missing err_invalid_range err_max_report_size_exceeded : Error
  other : String → Error

-- `err.Error()`
unfoldable pub error_text : Error → String
error_text err_invalid_request = "invalid request"
error_text err_internal = "internal error"
error_text err_unauthorized = "unauthorized"
error_text err_basic_token_required = "basic token is required"
error_text err_could_not_decode_token = "could not decode provided token"
error_text err_metadata_not_provided = "metadata not provided"
error_text err_authorization_required = "authorization header is required"
error_text err_nick_already_used = "this nick is already used"
error_text err_nick_required = "nick is required"
error_text err_password_required = "password is required"
error_text err_user_not_found = "user not found"
error_text err_channel_not_found = "channel not found"
error_text err_channel_does_not_exist = "channel does not exist"
error_text err_channel_already_exists = "channel with this name already exists"
error_text err_user_not_in_channel = "user is not member of this channel"
error_text err_user_already_in_channel = "user is already member of this channel"
error_text err_empty_channel_name = "channel's `name` is required"
error_text err_message_not_sent = "message could not be sent"
error_text err_invalid_group_by = "invalid `group_by` value. Must be one of: day, hour, minute"
error_text err_invalid_date_format = "invalid date format. Must be: `YYYY-MM-DD HH:mm"
error_text err_from_missing = "`from` is required"
error_text err_to_missing = "`to` is required"
error_text err_invalid_range = "invalid range. `from` must be before `to`"
error_text err_max_report_size_exceeded = "max report size exceeded"
error_text (other text) = text
