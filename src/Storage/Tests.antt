-- ===== src/Storage/Tests.antt =====
-- storage/messages.go, storage/reports.go and api/translation.go at concrete answers.
use sockchat.Prelude.{
  String, List, ◌≡◌, refl, true, Option, none, some, [], ◌∷◌, string_key, nat_key,
}
use sockchat.Api.Effects.{ok}
use sockchat.Api.Json.{
  Json, Items, nil, cons, arr, str, obj, field, end, string_field, equal_fold, empty_string,
}
use sockchat.Api.Structs.{pos, MessageEvent}
use sockchat.Api.Reports.{UserActivityReport, UserActivityReportOptions}
use sockchat.ChannelStore.{ChannelStore}
use sockchat.Storage.Messages.{
  Elasticsearch, found, body, new_message_store, find_messages, build_search_query,
}
use sockchat.Storage.Messages
use sockchat.Storage.Messages.Histories.{Finds, find_messages-Finds}
use sockchat.Storage.Reports.{
  AggregationAnswer, DateBucket, aggregated, get_user_activity_report, build_user_activity_query,
}
use sockchat.Storage.Reports.Ranges.{Accepts, build_user_activity_query-Accepts}
use sockchat.Storage.Reports.Counts.{Counts, get_user_activity_report-Counts}
use sockchat.Storage.Search.{SearchQuery}

-- Documents whose text is that of the JSON, all in the lobby.
abbrev document : Json → Option MessageEvent
document (str s) = some (record { text = s; channel = "lobby"; author = "ann"; timestamp = pos 7 })
document _ = none

abbrev hit_of : String → Json
hit_of text = obj (field "_source" (str text) end)

abbrev two_hits : Items
two_hits = cons (hit_of "hello") (cons (hit_of "bye") nil)

abbrev two_documents : Elasticsearch (Unit {0})
two_documents = record {
  search = λ query s. found (obj (field "hits" (obj (field "hits" (arr two_hits) end)) end));
  index = λ message s. (Messages.no_response, s);
  decode = document;
}

find_messages-Finds_example :
    Finds two_documents
      (two_documents.search (build_search_query "lobby" "") tt)
      (find_messages two_documents "lobby" "" tt)
find_messages-Finds_example = find_messages-Finds two_documents "lobby" "" tt

abbrev one_day : UserActivityReportOptions
one_day = record { author = "ann"; group_by = "hour"; from = 1062720000; to = 1062721440 }

build_user_activity_query-Accepts_example : Accepts one_day (build_user_activity_query one_day)
build_user_activity_query-Accepts_example = build_user_activity_query-Accepts one_day

abbrev day_buckets : List DateBucket
day_buckets =
    record { key_string = "10:00"; doc_count = pos 2 }
    ∷ record { key_string = "11:00"; doc_count = pos 1 }
    ∷ []

abbrev lobby_bucket : SearchQuery → AggregationAnswer
lobby_bucket query =
    aggregated
      (record { key = "lobby"; doc_count = pos 3; by_specified_range = some day_buckets } ∷ [])

abbrev day_report : UserActivityReport
day_report = record {
  channel_activity =
      (
        "lobby",
        record {
          total_messages = pos 3;
          message_count_distribution =
              record { period_start = "10:00"; messages_in_period = pos 2 }
              ∷ record { period_start = "11:00"; messages_in_period = pos 1 }
              ∷ [];
        },
      )
      ∷ [];
  from = 1062720000;
  to = 1062721440;
}

day_is_reported : get_user_activity_report lobby_bucket one_day ≡ ok day_report
unfolding get_user_activity_report
day_is_reported = refl

get_user_activity_report-Counts_example : Counts lobby_bucket one_day day_report
get_user_activity_report-Counts_example =
    get_user_activity_report-Counts lobby_bucket one_day day_report day_is_reported

-- An index that answers every request with an error object.
abbrev refusing : Elasticsearch (Unit {0})
refusing = record {
  search = λ query s. Messages.no_response;
  index = λ message s. (body (obj (field "error" (str "read only") end)), s);
  decode = document;
}

no_id : string_field "_id" (field "error" (str "read only") end) empty_string ≡ ("", true)
unfolding string_field equal_fold
no_id = refl

abbrev quiet_lobby : ChannelStore (Unit {0})
quiet_lobby = record {
  channels = ("lobby", record { members = 1 ∷ [] }) ∷ [];
  message_store = tt;
  spawned = [];
}
