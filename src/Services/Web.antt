-- ===== src/Services/Web.antt =====
-- services/web.go and the middleware of services/authentication.go: the HTTP API. A handler's panic is
-- an outcome; net/http sends the first status that is written and ignores the later ones.
pub mod Guards
pub mod Responses
pub mod Routes
use sockchat.Prelude.{
  ℕ, String, Bool, true, false, not, ◌||◌, Option, none, some, List, [], ◌∷◌, ◌++◌, ltb,
  if◌then◌else◌, ◌==◌, string_key,
}
use sockchat.Api.Errors.{
  Error, error_text, err_nick_already_used, err_nick_required, err_password_required,
  err_invalid_request, err_channel_not_found, err_internal, err_unauthorized, other,
}
use sockchat.Api.Effects.{Result, ok, err, Action, Attempt, completes, aborts}
use sockchat.Api.Json.{Json}
use sockchat.Api.Structs.{
  CreateProfileRequest, EditProfileRequest, PublicProfile, ChannelHistory, EmptyMessage,
}
use sockchat.Api.WsMessages.{SocketMessage, new_socket_error}
use sockchat.Api.Serialization.{unmarshal_create_profile_request, unmarshal_edit_profile_request}
use sockchat.ChannelStore.{ChannelStore}
use sockchat.Services.Interfaces.{ProfileStore}
use sockchat.Services.Core.{
  EditProfileWrapper, register_profile, get_profile, edit_profile, get_channel_history,
}
use sockchat.Services.Authentication.{token_from_header, authenticate_from_basic_token, basic_auth}

-- The data that is written as JSON, and net/http's answers for a path with no route and for one that
-- is redirected.
pub data Body : Type 0 where
  error_response : String → Body
  socket_error : SocketMessage → Body
  empty_message : Body
  profile : PublicProfile → Body
  history : ChannelHistory → Body
  page_not_found : Body
  moved_to : (path : String) → Body

-- What the handlers read of a request: the `Authorization` header, the body, `none` if it cannot be
-- read, and the query's values, each empty where it is missing.
pub record Request : Type 0 where
  pub authorization : String
  pub body : Option Json
  pub nick : String
  pub channel : String
  pub search : String

-- The response so far, with the profile store's state.
pub record Exchange (P : Type 0) : Type 0 where
  pub status : Option ℕ
  pub written : List Body
  pub profiles : P

pub data Outcome : Type 0 where
  returns panics : Outcome

abbrev pub Handler : Type 0 → Type 0
Handler P = Exchange P → Outcome × Exchange P

-- `HTTPStatuses[err]`: 0 for an error that is not in the map.
unfoldable pub http_status : Error → ℕ
http_status err_nick_already_used = 409
http_status err_nick_required = 422
http_status err_password_required = 422
http_status err_invalid_request = 400
http_status err_channel_not_found = 404
http_status err_internal = 500
http_status _ = 0

module _ {P : Type 0} where
  abbrev append_body : Body → Exchange P → Exchange P
  append_body body x = record x { written = x.written ++ body ∷ [] }

  -- `WriteHeader` panics on the first status if it has not three digits.
  unfoldable pub write_json_http_response : ℕ → Body → Handler P
  write_json_http_response code body x = elim x.status [
    | some _ ↦ (returns, append_body body x)
    | none ↦
        if ltb code 100 || ltb 999 code
        then (panics, x)
        else (returns, append_body body (record x { status = some code }))
  ]

  -- Statements one after the other.
  abbrev pub and_then : Outcome × Exchange P → Handler P → Outcome × Exchange P
  and_then (returns, x) k = k x
  and_then (panics, x) k = (panics, x)

  -- The end of a handler: the error of the core service with its status, or its result.
  unfoldable pub respond : {A : Type 0} → Action P A → ℕ → (A → Body) → Handler P
  unfolding write_json_http_response http_status error_text
  respond m code body x =
      let (r, p) = m x.profiles in
      elim r [
        | err e ↦
            write_json_http_response (http_status e) (error_response (error_text e))
              (record x { profiles = p })
        | ok a ↦ write_json_http_response code (body a) (record x { profiles = p })
      ]

-- `ParseRequest` for one of the two actions; a body that cannot be read is an error.
abbrev pub parse_request : {A : Type 0} → (Json → Result A) → Option Json → Result A
parse_request unmarshal none = err (other "body")
parse_request unmarshal (some j) = unmarshal j

module _ {P : Type 0} (profiles : ProfileStore P) where
  -- `readCreateProfileRequest` and `readEditProfileRequest` answer 400 and give the nil pointer where
  -- the body is no request, and the handler goes on to read its fields.
  unfoldable pub read_request : {A : Type 0} → Result A → (A → Handler P) → Handler P
  unfolding write_json_http_response new_socket_error error_text
  read_request (ok req) k x = k req x
  read_request (err _) k x =
      and_then
        (write_json_http_response 400
          (socket_error (new_socket_error (error_text err_invalid_request))) x)
        (λ y. (panics, y))

  unfoldable pub register_handler : Request → Handler P
  unfolding read_request respond register_profile unmarshal_create_profile_request
  register_handler r =
      read_request (parse_request unmarshal_create_profile_request r.body)
        (λ req. respond (register_profile profiles req) 201 (λ _. empty_message))

  unfoldable pub get_profile_handler : Request → Handler P
  unfolding respond get_profile
  get_profile_handler r = respond (get_profile profiles (record { nick = r.nick })) 200 profile

  unfoldable pub edit_profile_handler : (String → Option String) → Request → Handler P
  unfolding read_request respond edit_profile basic_auth unmarshal_edit_profile_request
  edit_profile_handler decode_string r =
      read_request (parse_request unmarshal_edit_profile_request r.body) (λ req.
        respond
          (edit_profile profiles
            (record { nick = (basic_auth decode_string r.authorization).0; request = req }))
          200 (λ _. empty_message))

  unfoldable pub get_channel_history_handler :
      {S : Type 0}
      → ChannelStore S
      → (String → String → Attempt (Result ChannelHistory))
      → Request
      → Handler P
  unfolding respond get_channel_history
  get_channel_history_handler chat find_messages r x =
      elim (get_channel_history chat find_messages
        (record { channel = r.channel; search = r.search })) [
          | aborts ↦ (panics, x)
          | completes result ↦ respond (λ p. (result, p)) 200 history x
        ]

  unfoldable unauthorized : Error → Handler P
  unfolding write_json_http_response error_text
  unauthorized e = write_json_http_response 401 (error_response (error_text e))

  -- The part of the middleware from the authentication on.
  unfoldable pub authenticated : (String → Option String) → String → Handler P → Handler P
  unfolding unauthorized authenticate_from_basic_token
  authenticated decode_string token next x =
      let (r, p) = authenticate_from_basic_token profiles decode_string token x.profiles in
      let y = record x { profiles = p } in
      elim r [
        | err e ↦ unauthorized e y
        | ok valid ↦ if not valid then unauthorized err_unauthorized y else next y
      ]

  -- The wrapped handler. Without the header an error is answered, and the handler goes on with the
  -- empty token.
  unfoldable pub auth_middleware :
      (String → Option String) → (Request → Handler P) → Request → Handler P
  unfolding unauthorized token_from_header authenticated
  auth_middleware decode_string next r x = elim (token_from_header r.authorization) [
    | ok token ↦ authenticated decode_string token (next r) x
    | err e ↦ and_then (unauthorized e x) (authenticated decode_string "" (next r))
  ]
