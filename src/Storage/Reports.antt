-- ===== src/Storage/Reports.antt =====
-- storage/reports.go: reports of a user's activity, aggregated by Elasticsearch.
pub mod Ranges
pub mod Counts
use sockchat.Prelude.{
  ℕ, ◌+◌, ◌-◌, ◌*◌, ◌^◌, String, Bool, true, false, Option, none, some, List, [], ◌∷◌, map, ltb,
  if◌then◌else◌, ◌==◌, string_key,
}
use sockchat.Prelude.GoMap
use sockchat.Prelude.GoMap.{Map}
use sockchat.Api.Errors.{err_invalid_range, err_max_report_size_exceeded, err_internal, other}
use sockchat.Api.Effects.{Result, ok, err}
use sockchat.Api.Structs.{ℤ, pos, negsuc}
use sockchat.Api.Reports.{
  group_by_day, UserActivityReportOptions, DistributionEntry, ChannelActivity, UserActivityReport,
}
use sockchat.Storage.Search.{
  SearchQuery, DateHistogramAggs, UserActivityAggs, author_term, timestamp_range,
}

abbrev max_channels_in_report : ℕ
max_channels_in_report = 50

abbrev max_report_size_in_days : ℕ
max_report_size_in_days = 30

pub record DateBucket : Type 0 where
  pub key_string : String
  pub doc_count : ℤ

-- `by_specified_range` is `none` for the nil pointer.
pub record ChannelBucket : Type 0 where
  pub key : String
  pub doc_count : ℤ
  pub by_specified_range : Option (List DateBucket)

abbrev minus : ℕ → ℕ → ℤ
minus a b = if ltb a b then negsuc (b - a - 1) else pos (a - b)

-- `t.Unix()`: the year 1970 begins 719528 days after the year 0.
unfoldable pub unix : ℕ → ℤ
unix t = minus (t * 60) (719528 * 86400)

unfoldable unix_milli : ℕ → ℤ
unix_milli t = minus (t * 60 * 1000) (719528 * 86400 * 1000)

-- The nanoseconds of `to.Sub(from)`, which stop at the greatest `int64`, for a `from` that is not
-- after `to`.
unfoldable pub sub : ℕ → ℕ → ℕ
sub to from = let d = (to - from) * 60 * 10 ^ 9 in if ltb d (2 ^ 63) then d else 2 ^ 63 - 1

unfoldable pub build_date_histogram_aggs : UserActivityReportOptions → Option DateHistogramAggs
unfolding unix_milli
build_date_histogram_aggs opts =
    if opts.group_by == ""
    then none
    else some (record {
      field = "timestamp.as_date";
      calendar_interval = opts.group_by;
      min_doc_count = 0;
      format = if opts.group_by == group_by_day then "yyyy-MM-dd" else "yyyy-MM-dd HH:mm";
      min = unix_milli opts.from;
      max = unix_milli opts.to;
    })

unfoldable pub build_user_activity_query : UserActivityReportOptions → Result SearchQuery
unfolding sub unix build_date_histogram_aggs
build_user_activity_query opts =
    if ltb opts.to opts.from
    then err err_invalid_range
    else if ltb (max_report_size_in_days * 24 * 3600 * 10 ^ 9) (sub opts.to opts.from)
    then err err_max_report_size_exceeded
    else ok (record {
      filter = author_term opts.author ∷ timestamp_range (unix opts.from) (unix opts.to) ∷ [];
      must = none;
      sort = [];
      aggs = some (record {
        field = "channel.keyword";
        size = max_channels_in_report;
        aggs = build_date_histogram_aggs opts;
      });
    })

-- What an aggregation answers: a failure of the client, a status other than 200 or a body that is no
-- result, or the buckets of the channels.
pub data AggregationAnswer : Type 0 where
  unavailable refused unreadable : AggregationAnswer
  aggregated : List ChannelBucket → AggregationAnswer

unfoldable pub run_message_aggregation :
    (SearchQuery → AggregationAnswer) → SearchQuery → Result (List ChannelBucket)
run_message_aggregation search query = elim (search query) [
  | unavailable ↦ err (other "search")
  | refused ↦ err err_internal
  | unreadable ↦ err (other "json")
  | aggregated buckets ↦ ok buckets
]

unfoldable pub new_message_count_distribution : Option (List DateBucket) → List DistributionEntry
new_message_count_distribution none = []
new_message_count_distribution (some buckets) =
    map
      (λ (b : DateBucket). record { period_start = b.key_string; messages_in_period = b.doc_count })
      buckets

unfoldable pub activity : ChannelBucket → ChannelActivity
unfolding new_message_count_distribution
activity b = record {
  total_messages = b.doc_count;
  message_count_distribution = new_message_count_distribution b.by_specified_range;
}

-- The loop of `newUserActivityReport`.
unfoldable pub channel_activity_of :
    List ChannelBucket → Map String ChannelActivity → Map String ChannelActivity
unfolding GoMap.set activity
channel_activity_of [] m = m
channel_activity_of (b ∷ bs) m = channel_activity_of bs (GoMap.set b.key (activity b) m)

unfoldable pub get_user_activity_report :
    (SearchQuery → AggregationAnswer) → UserActivityReportOptions → Result UserActivityReport
unfolding build_user_activity_query run_message_aggregation channel_activity_of
get_user_activity_report search opts = elim (build_user_activity_query opts) [
  | err e ↦ err e
  | ok query ↦ elim (run_message_aggregation search query) [
    | err _ ↦ err err_internal
    | ok buckets ↦ ok (record {
      channel_activity = channel_activity_of buckets [];
      from = opts.from;
      to = opts.to;
    })
  ]
]
