-- ===== src/Services/Grpc/Reports.antt =====
-- services/grpc.go: the method that reports a user's activity.
use sockchat.Prelude.{
  ℕ, ◌*◌, String, Bool, not, ◌||◌, Option, none, some, if◌then◌else◌, ◌==◌, string_key,
}
use sockchat.Api.Errors.{
  err_invalid_group_by, err_invalid_date_format, err_from_missing, err_to_missing,
}
use sockchat.Api.Effects.{Result, ok, err}
use sockchat.Api.Reports.{group_by_day, group_by_hour, group_by_minute, UserActivityReportOptions}
use sockchat.Api.Translation.{UserActivityReportMessage, user_activity_report_to_proto}
use sockchat.Storage.Search.{SearchQuery}
use sockchat.Storage.Reports.{AggregationAnswer, get_user_activity_report}
use sockchat.Services.Grpc.{Outcome, responds, fails, new_grpc_error}

unfoldable is_group_by_ok : String → Bool
is_group_by_ok group_by =
    group_by == group_by_hour
    || (group_by == group_by_day || (group_by == group_by_minute || group_by == ""))

-- The fields of the request for a report.
pub record ReportRequest : Type 0 where
  pub author : String
  pub from : String
  pub to : String
  pub group_by : String

unfoldable validate_opts : ReportRequest → Result (Unit {0})
unfolding is_group_by_ok
validate_opts r =
    if not (is_group_by_ok r.group_by)
    then err err_invalid_group_by
    else if r.from == ""
    then err err_from_missing
    else if r.to == ""
    then err err_to_missing
    else ok tt

-- `parse` is `time.Parse` with the layout of the reports' dates. The zero time is the first of January
-- of the year 1.
unfoldable parse_reports_date : (String → Option ℕ) → String → Result ℕ
parse_reports_date parse date =
    if date == ""
    then ok (366 * 1440)
    else (elim (parse date) [ none ↦ err err_invalid_date_format | some t ↦ ok t ])

-- The options of a report.
unfoldable report_options : (String → Option ℕ) → ReportRequest → Result UserActivityReportOptions
unfolding validate_opts parse_reports_date
report_options parse r = elim (validate_opts r) [
  | err e ↦ err e
  | ok _ ↦ elim (parse_reports_date parse r.from) [
    | err e ↦ err e
    | ok from ↦ elim (parse_reports_date parse r.to) [
      | err e ↦ err e
      | ok to ↦ ok (record { author = r.author; group_by = r.group_by; from = from; to = to })
    ]
  ]
]

-- An error of the reports service is returned as it is, which grpc reports as an unknown error:
-- `none` in place of a status.
unfoldable pub get_user_activity_report_method :
    (String → Option ℕ)
    → (ℕ → String)
    → (SearchQuery → AggregationAnswer)
    → ReportRequest
    → Option (Outcome UserActivityReportMessage)
unfolding report_options new_grpc_error get_user_activity_report user_activity_report_to_proto
get_user_activity_report_method parse format search r = elim (report_options parse r) [
  | err e ↦ some (fails (new_grpc_error e))
  | ok opts ↦ elim (get_user_activity_report search opts) [
    | err _ ↦ none
    | ok report ↦ some (responds (user_activity_report_to_proto format report))
  ]
]
