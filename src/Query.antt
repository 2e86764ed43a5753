-- ===== src/Query.antt =====
-- services/query: the read API over the ClickHouse tables. This file has types.go and the records
-- of repository.go and server.go. Times are nanoseconds since 1970, durations nanoseconds.
pub mod Config
pub mod Sql
pub mod Rows
pub mod Statements
pub mod Cursors
pub mod Request
pub mod Repository
pub mod Quality
pub mod Freshness
pub mod Results
pub mod Handlers
pub mod Pages
pub mod Accepted
pub mod Following
pub mod Reading
pub mod Filtered
pub mod AllFiltered
pub mod Isolation
use kube_cost.Prelude.{ℕ, suc, String, Bool, Option, List, if◌then◌else◌, ltb}
use kube_cost.Wire.{ℤ, pos, negsuc}

pub record DataQualityQuery : Type 0 where
  pub tenant_id : String
  pub cluster_id : String
  pub freshness_window : ℤ

pub record RecommendationQuery : Type 0 where
  pub tenant_id : String
  pub cluster_id : String
  pub status : String
  pub recommendation_type : String
  pub target_kind : String
  pub target_uid : String
  pub minimum_monthly_savings : String
  pub limit : ℤ

pub record AnalyticsQuery : Type 0 where
  pub tenant_id : String
  pub cluster_id : String
  pub start : ℕ
  pub end : ℕ
  pub group_by : String
  pub limit : ℤ
  pub offset : ℤ
  pub include_quality : Bool

-- `analyticsCursor`.
pub record AnalyticsCursor : Type 0 where
  pub kind : String
  pub tenant_id : String
  pub cluster_id : String
  pub start : String
  pub end : String
  pub group_by : String
  pub offset : ℤ

pub record CostMetadata : Type 0 where
  pub currency : String
  pub computation_version : String
  pub computed_at : Option ℕ

pub record DataQualitySignal : Type 0 where
  pub source : String
  pub grain : String
  pub cluster_id : String
  pub record_count : ℕ
  pub latest_bucket_start : Option ℕ
  pub latest_ingested_at : Option ℕ
  pub freshness_seconds : Option ℕ
  pub status : String
  pub warning : String
  pub expected_freshness_limit : String

-- `EstimatedPercent` is 0, 50 or 100.
pub record QualitySummary : Type 0 where
  pub status : String
  pub estimated_percent : ℕ
  pub missing_scopes : List String
  pub warnings : List String
  pub freshness_window_secs : ℤ

pub record DataQualityResult : Type 0 where
  pub tenant_id : String
  pub cluster_id : String
  pub generated_at : ℕ
  pub data_through : Option ℕ
  pub computation_version : String
  pub signals : List DataQualitySignal
  pub quality : QualitySummary

-- A decimal number of the package shopspring/decimal, which the code reads, prints and binds only.
pub record Decimal : Type 0 where
  pub coefficient : ℤ
  pub exponent : ℤ

-- What the code calls of Go's packages time, strconv, encoding/json and encoding/base64, and of
-- shopspring/decimal. `none` is an error.
pub record Codecs : Type 0 where
  pub parse_time : String → Option ℕ
  pub format_time : ℕ → String
  pub atoi : String → Option ℤ
  pub show_duration : ℤ → String
  pub marshal_cursor : AnalyticsCursor → Option String
  pub unmarshal_cursor : String → Option AnalyticsCursor
  pub encode_base64 : String → String
  pub decode_base64 : String → Option String
  pub parse_decimal : String → Option Decimal
  pub show_decimal : Decimal → String

abbrev pub default_analytics_limit : ℕ
default_analytics_limit = 100

abbrev pub max_analytics_limit : ℕ
max_analytics_limit = 500

-- `normalizedAnalyticsLimit`, which is positive.
unfoldable pub normalized_analytics_limit : ℤ → ℕ
normalized_analytics_limit (negsuc n) = default_analytics_limit
normalized_analytics_limit (pos limit) =
    if ltb 0 limit
    then (if ltb max_analytics_limit limit then max_analytics_limit else limit)
    else default_analytics_limit

abbrev pub normalized_analytics_fetch_limit : ℤ → ℕ
normalized_analytics_fetch_limit limit = suc (normalized_analytics_limit limit)

abbrev pub normalized_analytics_offset : ℤ → ℕ
normalized_analytics_offset (pos offset) = offset
normalized_analytics_offset (negsuc n) = 0
