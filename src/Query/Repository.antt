-- ===== src/Query/Repository.antt =====
-- services/query/repository.go, `ClickHouseRepository`: each method sends its statement and makes a
-- result of every row, or fails. The connection is a parameter; `none` is an error of Query, of
-- Scan or of Err.
use kube_cost.Prelude.{ℕ, String, Option, none, some, List, [], ◌∷◌, map, if◌then◌else◌, ltb}
use kube_cost.Query.{
  AnalyticsQuery, DataQualityQuery, RecommendationQuery, DataQualitySignal, CostMetadata, Codecs,
}
use kube_cost.Query.Sql.{Argument}
use kube_cost.Query.Statements.{
  Statement, usage_sql, costs_sql, allocation_sql, data_quality_sql, recommendations_sql,
  recommendation_sql,
}
use kube_cost.Query.Rows.{
  UsageRecord, UsageRow, usage_row, CostRecord, CostRow, cost_row, AllocationRecord, AllocationRow,
  allocation_row, RecommendationRecord, RecommendationResult, scan_recommendation,
}

pub record SignalRecord : Type 0 where
  pub source : String
  pub grain : String
  pub cluster_id : String
  pub record_count : ℕ
  pub latest_bucket : ℕ
  pub latest_ingested : ℕ

-- `clickhouse.Conn`, by the kind of rows that are asked for.
pub record Connection : Type 0 where
  pub usage_records : Statement → List Argument → Option (List UsageRecord)
  pub cost_records : Statement → List Argument → Option (List CostRecord)
  pub allocation_records : Statement → List Argument → Option (List AllocationRecord)
  pub signal_records : Statement → List Argument → Option (List SignalRecord)
  pub recommendation_records : Statement → List Argument → Option (List RecommendationRecord)

-- `rows.Next`, `rows.Scan` and `append`, for the rows of a result.
abbrev pub read_rows {ℓ κ} : {A : Type ℓ} {B : Type κ} → (A → B) → Option (List A) → Option (List B)
read_rows f none = none
read_rows f (some rows) = some (map f rows)

abbrev pub signal_of : SignalRecord → DataQualitySignal
signal_of r =
    let seen : ℕ → Option ℕ = λ t. if ltb 0 r.record_count then some t else none in
    record {
      source = r.source;
      grain = r.grain;
      cluster_id = r.cluster_id;
      record_count = r.record_count;
      latest_bucket_start = seen r.latest_bucket;
      latest_ingested_at = seen r.latest_ingested;
      freshness_seconds = none;
      status = "";
      warning = "";
      expected_freshness_limit = "";
    }

unfoldable pub data_quality : Connection → DataQualityQuery → Option (List DataQualitySignal)
data_quality db query =
    let (statement, arguments) = data_quality_sql query in
    read_rows signal_of (db.signal_records statement arguments)

unfoldable pub usage : Codecs → Connection → AnalyticsQuery → Option (List UsageRow)
usage codecs db query =
    let (statement, arguments) = usage_sql query in
    read_rows (usage_row codecs) (db.usage_records statement arguments)

abbrev pub no_metadata : CostMetadata
no_metadata = record { currency = ""; computation_version = ""; computed_at = none }

abbrev pub read_with_metadata :
    {A : Type 0} {B : Type 0}
    → (List A → CostMetadata)
    → (A → B)
    → Option (List A)
    → Option (CostMetadata × List B)
read_with_metadata m f none = none
read_with_metadata m f (some rows) = some (m rows, map f rows)

-- Every row is scanned into the same metadata: the last one's stay.
unfoldable pub cost_metadata : CostMetadata → List CostRecord → CostMetadata
cost_metadata m [] = m
cost_metadata m (r ∷ rs) =
    cost_metadata
      (record {
        currency = r.currency;
        computation_version = r.computation_version;
        computed_at = some r.computed_at;
      })
      rs

unfoldable pub allocation_metadata : CostMetadata → List AllocationRecord → CostMetadata
allocation_metadata m [] = m
allocation_metadata m (r ∷ rs) =
    allocation_metadata
      (record {
        currency = r.currency;
        computation_version = r.computation_version;
        computed_at = some r.computed_at;
      })
      rs

unfoldable pub costs : Codecs → Connection → AnalyticsQuery → Option (CostMetadata × List CostRow)
costs codecs db query =
    let (statement, arguments) = costs_sql query in
    read_with_metadata (cost_metadata no_metadata) (cost_row codecs)
      (db.cost_records statement arguments)

unfoldable pub allocation :
    Codecs → Connection → AnalyticsQuery → Option (CostMetadata × List AllocationRow)
allocation codecs db query =
    let (statement, arguments) = allocation_sql query in
    read_with_metadata (allocation_metadata no_metadata) (allocation_row codecs)
      (db.allocation_records statement arguments)

-- `Recommendations` and `Recommendation` have more than one way to fail.
pub data RecommendationError : Type 0 where
  recommendation_not_found query_error : RecommendationError

unfoldable pub recommendations :
    Codecs → Connection → RecommendationQuery → Option (List RecommendationResult)
recommendations codecs db query = elim (recommendations_sql codecs query) [
  | none ↦ none
  | some (statement, arguments) ↦
      read_rows (scan_recommendation codecs) (db.recommendation_records statement arguments)
]

pub data Found : Type 0 where
  found : RecommendationResult → Found
  not_found : RecommendationError → Found

abbrev pub first_found : Codecs → Option (List RecommendationRecord) → Found
first_found codecs none = not_found query_error
first_found codecs (some []) = not_found recommendation_not_found
first_found codecs (some (r ∷ rs)) = found (scan_recommendation codecs r)

unfoldable pub recommendation : Codecs → Connection → String → String → Found
recommendation codecs db tenant recommendation_id =
    let (statement, arguments) = recommendation_sql tenant recommendation_id in
    first_found codecs (db.recommendation_records statement arguments)
