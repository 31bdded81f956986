-- ===== src/Services/Interfaces.antt =====
-- api/interfaces.go: what the services use of a profile store, of a channel store and of a reports
-- service, with what fills these interfaces.
use sockchat.Prelude.{ℕ, String, Bool}
use sockchat.Api.Effects.{Result, Action}
use sockchat.Api.Structs.{CreateProfileRequest, EditProfileRequest, PublicProfile, MessageEvent}
use sockchat.Api.Reports.{UserActivityReportOptions, UserActivityReport}
use sockchat.ChannelStore.{
  ChannelStore, MessageStore, UserRef, create_channel, add_user_to_channel,
  remove_user_from_channel, message_channel, disconnect_user, is_user_present_in, channel_exists,
}
use sockchat.Storage.Search.{SearchQuery}
use sockchat.Storage.Reports.{AggregationAnswer, get_user_activity_report}
use sockchat.Storage.Users.{UserStore}
use sockchat.Profiles.{Bcrypt, Redis, ProfileService, create, edit, is_auth_valid, get_profile}

-- `api.SockchatProfileStore`, with the state `P` that it keeps.
pub record ProfileStore (P : Type 0) : Type 0 where
  pub create : CreateProfileRequest → Action P (Unit {0})
  pub edit : String → EditProfileRequest → Action P (Unit {0})
  pub is_auth_valid : String → String → P → Bool × P
  pub get_profile : String → Action P PublicProfile

-- The profile service, where hashing takes the random number `salt`.
unfoldable pub profile_service :
    {D C : Type 0} → UserStore D → Redis C → Bcrypt → ℕ → ProfileStore (ProfileService D C)
unfolding create edit is_auth_valid get_profile
profile_service users redis bcrypt salt = record {
  create = create users redis bcrypt salt;
  edit = edit users redis bcrypt;
  is_auth_valid = is_auth_valid users redis bcrypt;
  get_profile = get_profile users redis bcrypt;
}

-- `api.SockchatChannelStore`, with the state `T` that it keeps.
pub record SockchatChannelStore (T : Type 0) : Type 0 where
  pub create_channel : String → Action T (Unit {0})
  pub add_user_to_channel : String → UserRef → Action T (Unit {0})
  pub remove_user_from_channel : String → UserRef → Action T (Unit {0})
  pub message_channel : MessageEvent → Action T (Unit {0})
  pub disconnect_user : UserRef → Action T (Unit {0})
  pub is_user_present_in : UserRef → String → T → Bool
  pub channel_exists : String → T → Bool

unfoldable pub channel_store : {S : Type 0} → MessageStore S → SockchatChannelStore (ChannelStore S)
unfolding create_channel add_user_to_channel remove_user_from_channel message_channel
    disconnect_user is_user_present_in channel_exists
channel_store messages = record {
  create_channel = create_channel;
  add_user_to_channel = add_user_to_channel;
  remove_user_from_channel = remove_user_from_channel;
  message_channel = message_channel messages;
  disconnect_user = disconnect_user;
  is_user_present_in = is_user_present_in;
  channel_exists = channel_exists;
}

-- `api.SockchatReportsService`
pub record SockchatReportsService : Type 0 where
  pub get_user_activity_report : UserActivityReportOptions → Result UserActivityReport

unfoldable reports_service : (SearchQuery → AggregationAnswer) → SockchatReportsService
unfolding get_user_activity_report
reports_service search = record { get_user_activity_report = get_user_activity_report search }
