-- ===== src/Storage/Search.antt =====
-- storage/messages.go: the queries that are sent to Elasticsearch, of both the message store and the
-- reports.
use sockchat.Prelude.{ℕ, String, Option, List}
use sockchat.Api.Structs.{ℤ}

-- A `filters` value: a term for the channel or the author, or a range of timestamps.
pub data Filter : Type 0 where
  channel_term author_term : String → Filter
  timestamp_range : (gte lte : ℤ) → Filter

-- `must`: the text that is matched, and its fuzziness.
pub record Must : Type 0 where
  pub query : String
  pub fuzziness : String

pub record DateHistogramAggs : Type 0 where
  pub field : String
  pub calendar_interval : String
  pub min_doc_count : ℕ
  pub format : String
  pub min : ℤ
  pub max : ℤ

pub record UserActivityAggs : Type 0 where
  pub field : String
  pub size : ℕ
  pub aggs : Option DateHistogramAggs

-- `sort` has the orders of the timestamps.
pub record SearchQuery : Type 0 where
  pub filter : List Filter
  pub must : Option Must
  pub sort : List String
  pub aggs : Option UserActivityAggs
