-- ===== src/Api/Translation.antt =====
-- api/translation.go: the gRPC messages, whose Go structs protobuf/sockchat.proto generates.
use sockchat.Prelude.{ℕ, ◌-◌, ◌^◌, ◌%◌, String, List, map, ltb, if◌then◌else◌}
use sockchat.Prelude.GoMap.{Map}
use sockchat.Api.Structs.{
  ℤ, pos, negsuc, MessageEvent, PublicProfile, ChannelHistory, CreateProfileRequest,
  EditProfileRequest, GetProfileRequest, GetChannelHistoryRequest,
}
use sockchat.Api.Reports.{DistributionEntry, ChannelActivity, UserActivityReport}

-- The messages of sockchat.proto, with its fields.
pub record RegisterProfileMessage : Type 0 where
  pub nick : String
  pub password : String
  pub description : String

pub record ChatMessage : Type 0 where
  pub channel : String
  pub text : String
  pub author : String
  pub timestamp : ℤ

pub record ProfileMessage : Type 0 where
  pub nick : String
  pub description : String

pub record MessageCount : Type 0 where
  pub period_start : String
  pub messages_in_period : ℤ

pub record ChannelData : Type 0 where
  pub total_messages : ℤ
  pub message_count_distribution : List MessageCount

pub record UserActivityReportMessage : Type 0 where
  pub channels : Map String ChannelData
  pub from : String
  pub to : String

unfoldable pub create_profile_request_from_proto : RegisterProfileMessage → CreateProfileRequest
create_profile_request_from_proto m = record {
  nick = m.nick;
  password = m.password;
  description = "";
}

abbrev pub get_profile_request_from_proto : String → GetProfileRequest
get_profile_request_from_proto nick = record { nick = nick }

abbrev pub edit_profile_request_from_proto : String → EditProfileRequest
edit_profile_request_from_proto description = record { description = description }

abbrev pub get_channel_history_request_from_proto : String → String → GetChannelHistoryRequest
get_channel_history_request_from_proto channel search = record {
  channel = channel;
  search = search;
}

unfoldable message_event_to_proto : MessageEvent → ChatMessage
message_event_to_proto e = record {
  channel = e.channel;
  text = e.text;
  author = e.author;
  timestamp = e.timestamp;
}

unfoldable pub channel_history_to_proto : ChannelHistory → List ChatMessage
unfolding message_event_to_proto
channel_history_to_proto h = map message_event_to_proto h

unfoldable pub profile_to_proto : PublicProfile → ProfileMessage
profile_to_proto p = record { nick = p.nick; description = p.description }

-- `int32(n)`, which keeps the lowest 32 bits.
unfoldable pub to_int32 : ℤ → ℤ
to_int32 (pos n) =
    if ltb (n % 2 ^ 32) (2 ^ 31) then pos (n % 2 ^ 32) else negsuc (2 ^ 32 - 1 - n % 2 ^ 32)
to_int32 (negsuc n) =
    if ltb (n % 2 ^ 32) (2 ^ 31) then negsuc (n % 2 ^ 32) else pos (2 ^ 32 - 1 - n % 2 ^ 32)

unfoldable message_count_distribution_to_proto : List DistributionEntry → List MessageCount
unfolding to_int32
message_count_distribution_to_proto es =
    map
      (λ (e : DistributionEntry). record {
        period_start = e.period_start;
        messages_in_period = to_int32 e.messages_in_period;
      })
      es

abbrev map_values : {A B : Type 0} → (A → B) → Map String A → Map String B
map_values f m = map (λ (k, v). (k, f v)) m

-- `format` is the text of a time in the layout of the reports' dates.
unfoldable pub user_activity_report_to_proto :
    (ℕ → String) → UserActivityReport → UserActivityReportMessage
unfolding to_int32 message_count_distribution_to_proto
user_activity_report_to_proto format r = record {
  channels =
      map_values
        (λ (a : ChannelActivity). record {
          total_messages = to_int32 a.total_messages;
          message_count_distribution =
              message_count_distribution_to_proto a.message_count_distribution;
        })
        r.channel_activity;
  from = format r.from;
  to = format r.to;
}
