-- ===== src/Services/Grpc.antt =====
-- services/grpc.go: the gRPC API. A method's outcome is a response, a status that says what failed, or
-- the end of the process: a call of log.Fatalf, or a panic, which the server does not recover.
pub mod Statuses
pub mod Reports
pub mod Calls
use sockchat.Prelude.{
  ℕ, ◌*◌, String, Bool, true, false, not, ◌||◌, Option, none, some, List, [], ◌∷◌, if◌then◌else◌,
  ◌==◌, string_key,
}
use sockchat.Prelude.GoMap
use sockchat.Prelude.GoMap.{Map}
use sockchat.Api.Errors.{
  Error, error_text, err_nick_already_used, err_nick_required, err_password_required,
  err_invalid_request, err_metadata_not_provided, err_channel_not_found, err_internal,
  err_unauthorized, err_authorization_required, err_basic_token_required,
  err_could_not_decode_token, err_invalid_group_by, err_invalid_date_format, err_from_missing,
  err_to_missing, err_max_report_size_exceeded,
}
use sockchat.Api.Effects.{Result, ok, err, Action, Attempt, completes, aborts}
use sockchat.Api.Structs.{
  CreateProfileRequest, EditProfileRequest, PublicProfile, ChannelHistory, EmptyMessage,
  GetProfileRequest, GetChannelHistoryRequest,
}
use sockchat.Api.Reports.{group_by_day, group_by_hour, group_by_minute, UserActivityReportOptions}
use sockchat.Api.Translation.{
  RegisterProfileMessage, ChatMessage, ProfileMessage, UserActivityReportMessage,
  create_profile_request_from_proto, get_profile_request_from_proto,
  edit_profile_request_from_proto, get_channel_history_request_from_proto, profile_to_proto,
  channel_history_to_proto, user_activity_report_to_proto,
}
use sockchat.Storage.Search.{SearchQuery}
use sockchat.Storage.Reports.{AggregationAnswer, get_user_activity_report}
use sockchat.ChannelStore.{ChannelStore}
use sockchat.Services.Interfaces.{ProfileStore}
use sockchat.Services.Core.{register_profile, get_profile, edit_profile, get_channel_history}
use sockchat.Services.Authentication.{cut_prefix_by, decode_token, authenticate_from_basic_token}

-- The codes of google.golang.org/grpc/codes that are used.
pub data Code : Type 0 where
  already_exists invalid_argument not_found internal unauthenticated out_of_range : Code

pub record Status : Type 0 where
  pub code : Code
  pub message : String

-- `GRPCCodes[err]`
unfoldable grpc_code : Error → Option Code
grpc_code err_nick_already_used = some already_exists
grpc_code err_nick_required = some invalid_argument
grpc_code err_password_required = some invalid_argument
grpc_code err_invalid_request = some invalid_argument
grpc_code err_metadata_not_provided = some invalid_argument
grpc_code err_channel_not_found = some not_found
grpc_code err_internal = some internal
grpc_code err_unauthorized = some unauthenticated
grpc_code err_authorization_required = some unauthenticated
grpc_code err_basic_token_required = some unauthenticated
grpc_code err_could_not_decode_token = some unauthenticated
grpc_code err_invalid_group_by = some invalid_argument
grpc_code err_invalid_date_format = some invalid_argument
grpc_code err_from_missing = some invalid_argument
grpc_code err_to_missing = some invalid_argument
grpc_code err_max_report_size_exceeded = some out_of_range
grpc_code _ = none

unfoldable pub new_grpc_error : Error → Status
unfolding grpc_code error_text
new_grpc_error e = elim (grpc_code e) [
  | none ↦ record { code = internal; message = error_text err_internal }
  | some code ↦ record { code = code; message = error_text e }
]

abbrev method_authorization_required : Map String Bool
method_authorization_required =
    ("RegisterProfile", false)
    ∷ ("GetProfile", true)
    ∷ ("EditProfile", true)
    ∷ ("GetChannelHistory", true)
    ∷ ("GetUserActivityReport", true)
    ∷ []

-- `strings.TrimPrefix`
unfoldable pub trim_prefix : String → String → String
unfolding cut_prefix_by
trim_prefix text prefix = elim (cut_prefix_by (λ c. c) text prefix) [
  | none ↦ text
  | some rest ↦ rest
]

-- `none` is `log.Fatalf`.
unfoldable pub is_protected : String → Option Bool
unfolding trim_prefix GoMap.get
is_protected full_method_name =
    GoMap.get (trim_prefix full_method_name "/sockchat.Sockchat/") method_authorization_required

-- The values of the metadata's `authorization`, if the context has metadata.
abbrev pub Context : Type 0
Context = Option (List String)

unfoldable pub token_from_ctx : Context → Result String
token_from_ctx none = err err_metadata_not_provided
token_from_ctx (some (token ∷ [])) = ok token
token_from_ctx (some _) = err err_authorization_required

pub data Outcome (A : Type 0) : Type 0 where
  responds : A → Outcome A
  fails : Status → Outcome A
  exits : Outcome A

-- `if err != nil { return nil, NewGRPCError(err) }`
unfoldable pub or_status : {A B : Type 0} → (A → B) → Result A → Outcome B
unfolding new_grpc_error
or_status f (ok a) = responds (f a)
or_status f (err e) = fails (new_grpc_error e)

module _ {P : Type 0} (profiles : ProfileStore P) (decode_string : String → Option String) where
  abbrev Method : Type 0 → Type 0
  Method A = P → Outcome A × P

  -- The interceptor after `isProtected` has answered true.
  unfoldable pub authorized : {A : Type 0} → Result String → Method A → Method A
  unfolding authenticate_from_basic_token new_grpc_error
  authorized (err e) handler p = (fails (new_grpc_error e), p)
  authorized (ok token) handler p =
      let (r, q) = authenticate_from_basic_token profiles decode_string token p in
      elim r [
        | err e ↦ (fails (new_grpc_error e), q)
        | ok valid ↦ if not valid then (fails (new_grpc_error err_unauthorized), q) else handler q
      ]

  unfoldable pub auth_interceptor : {A : Type 0} → Context → String → Method A → Method A
  unfolding is_protected token_from_ctx authorized
  auth_interceptor ctx full_method handler p = elim (is_protected full_method) [
    | none ↦ (exits, p)
    | some protected ↦ if protected then authorized (token_from_ctx ctx) handler p else handler p
  ]

  unfoldable pub register_profile_method : RegisterProfileMessage → Method EmptyMessage
  unfolding register_profile create_profile_request_from_proto or_status
  register_profile_method message p =
      let (r, q) = register_profile profiles (create_profile_request_from_proto message) p in
      (or_status (λ e. e) r, q)

  unfoldable pub get_profile_method : String → Method ProfileMessage
  unfolding get_profile profile_to_proto or_status
  get_profile_method nick p =
      let (r, q) = get_profile profiles (get_profile_request_from_proto nick) p in
      (or_status profile_to_proto r, q)

  -- `authData.Username` of the token.
  unfoldable username : Result String → Result String
  unfolding decode_token
  username (err e) = err e
  username (ok token) = elim (decode_token decode_string token) [
    | err e ↦ err e
    | ok auth ↦ ok auth.username
  ]

  unfoldable pub edit_profile_method : Context → String → Method EmptyMessage
  unfolding token_from_ctx username edit_profile or_status new_grpc_error
  edit_profile_method ctx description p = elim (username (token_from_ctx ctx)) [
    | err e ↦ (fails (new_grpc_error e), p)
    | ok nick ↦
        let (r, q) =
          edit_profile profiles
            (record { nick = nick; request = edit_profile_request_from_proto description }) p in
        (or_status (λ e. e) r, q)
  ]

  unfoldable pub get_channel_history_method :
      {S : Type 0}
      → ChannelStore S
      → (String → String → Attempt (Result ChannelHistory))
      → String
      → String
      → Method (List ChatMessage)
  unfolding get_channel_history channel_history_to_proto or_status
  get_channel_history_method chat find_messages channel search p =
      elim (get_channel_history chat find_messages
        (get_channel_history_request_from_proto channel search)) [
          | aborts ↦ (exits, p)
          | completes result ↦ (or_status channel_history_to_proto result, p)
        ]
