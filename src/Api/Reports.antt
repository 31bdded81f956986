-- ===== src/Api/Reports.antt =====
-- api/structs.go: reports of a user's activity. A time has minutes, counted from the first of January
-- of the year 0, as the layout of the reports' dates has no smaller unit.
use sockchat.Prelude.{ℕ, String, List}
use sockchat.Prelude.GoMap.{Map}
use sockchat.Api.Structs.{ℤ}

abbrev pub group_by_day : String
group_by_day = "day"

abbrev pub group_by_hour : String
group_by_hour = "hour"

abbrev pub group_by_minute : String
group_by_minute = "minute"

pub record UserActivityReportOptions : Type 0 where
  pub author : String
  pub group_by : String
  pub from : ℕ
  pub to : ℕ

pub record DistributionEntry : Type 0 where
  pub period_start : String
  pub messages_in_period : ℤ

pub record ChannelActivity : Type 0 where
  pub total_messages : ℤ
  pub message_count_distribution : List DistributionEntry

pub record UserActivityReport : Type 0 where
  pub channel_activity : Map String ChannelActivity
  pub from : ℕ
  pub to : ℕ
