-- ===== src/Query/Statements.antt =====
-- services/query/repository.go: `usageSQL`, `costsSQL`, `allocationSQL`, `dataQualitySQL` and
-- `recommendationsSQL`, each as the parts of its SELECT. The text of a clause that no input reaches
-- is written as it stands, less its line breaks.
use kube_cost.Prelude.{ℕ, String, Option, none, some, List, [], ◌∷◌, ◌++◌, if◌then◌else◌, ltb}
use kube_cost.Wire.{ℤ, pos, negsuc}
use kube_cost.Query.{
  AnalyticsQuery, DataQualityQuery, RecommendationQuery, Codecs, normalized_analytics_fetch_limit,
  normalized_analytics_offset,
}
use kube_cost.Query.Sql.{
  Argument, text, AnalyticsGroupSpec, analytics_group, analytics_metric_where, analytics_cost_where,
  tenant_where, recommendations_where,
}
use Prim.Native.String.{◌++◌ as append}

-- A selected expression and its name; where it has none, the name is empty.
pub record Statement : Type 0 where
  pub select : List (String × String)
  pub from : String
  pub where_text : String
  pub group_by : String
  pub order_by : String
  pub limit : Option ℕ
  pub offset : ℕ

abbrev pub group_columns : AnalyticsGroupSpec → List (String × String)
group_columns group =
    (group.group_key_select, "group_key")
    ∷ (group.group_value_select, "group_value")
    ∷ (group.namespace_uid_select, "namespace_uid")
    ∷ (group.namespace_name_select, "namespace_name")
    ∷ []

abbrev pub cost_columns : List (String × String)
cost_columns =
    ("sum(nc.direct_cost)", "direct_cost")
    ∷ ("sum(nc.idle_cost)", "idle_cost")
    ∷ ("sum(nc.network_cost)", "network_cost")
    ∷ ("sum(nc.control_plane_cost)", "control_plane_cost")
    ∷ ("sum(nc.system_namespace_cost)", "system_namespace_cost")
    ∷ ("sum(nc.allocated_cost)", "allocated_cost")
    ∷ []

abbrev pub metadata_columns : List (String × String)
metadata_columns =
    ("any(nc.currency)", "currency")
    ∷ ("anyLast(nc.computation_version)", "computation_version")
    ∷ ("max(nc.computed_at)", "computed_at")
    ∷ []

unfoldable pub usage_sql : AnalyticsQuery → Statement × List Argument
usage_sql query =
    let group =
      analytics_group query.group_by "cm.cluster_id" "cm.namespace_uid" "ns.namespace_name" "ns" in
    let (condition, arguments) = analytics_metric_where query "cm" in
    (
      record {
        select =
            ("cm.tenant_id", "") ∷ ("cm.cluster_id", "") ∷ group_columns group
            ++ (
              "sum(toDecimal128(cm.cpu_usage_core_milliseconds, 9)) / 3600000",
              "cpu_usage_core_hours",
            )
              ∷ (
                "sum(toDecimal128(cm.cpu_request_core_milliseconds, 9)) / 3600000",
                "cpu_request_core_hours",
              )
              ∷ (
                "sum(toDecimal128(cm.cpu_limit_core_milliseconds, 9)) / 3600000",
                "cpu_limit_core_hours",
              )
              ∷ (
                "sum(toDecimal128(cm.memory_working_set_byte_seconds, 9)) / 3865470566400",
                "memory_working_set_gib_hours",
              )
              ∷ (
                "sum(toDecimal128(cm.memory_request_byte_seconds, 9)) / 3865470566400",
                "memory_request_gib_hours",
              )
              ∷ (
                "sum(toDecimal128(cm.memory_limit_byte_seconds, 9)) / 3865470566400",
                "memory_limit_gib_hours",
              )
              ∷ ("sum(cm.network_rx_bytes + cm.network_tx_bytes)", "network_bytes")
              ∷ ("sum(cm.filesystem_read_bytes + cm.filesystem_write_bytes)", "filesystem_bytes")
              ∷ (
                "sum(toDecimal128(cm.gpu_usage_milli_seconds, 9)) / 3600000",
                "gpu_usage_milli_hours",
              )
              ∷ (
                "sum(toDecimal128(cm.gpu_request_milli_seconds, 9)) / 3600000",
                "gpu_request_milli_hours",
              )
              ∷ ("sum(cm.oom_events)", "oom_events")
              ∷ ("sum(cm.cpu_throttled_periods)", "cpu_throttled_periods")
              ∷ ("sum(cm.sample_count)", "sample_count")
              ∷ [];
        from =
            "kube_cost.container_metrics_10s AS cm LEFT JOIN kube_cost.current_namespace AS ns ON cm.tenant_id = ns.tenant_id AND cm.cluster_id = ns.cluster_id AND cm.namespace_uid = ns.namespace_uid";
        where_text = condition;
        group_by = append "cm.tenant_id, cm.cluster_id" group.group_by_suffix;
        order_by = "cpu_request_core_hours DESC, cm.cluster_id, group_value, namespace_uid";
        limit = some (normalized_analytics_fetch_limit query.limit);
        offset = normalized_analytics_offset query.offset;
      },
      arguments,
    )

abbrev pub costs_from : String
costs_from =
    "kube_cost.current_namespace_cost_1h AS nc LEFT JOIN kube_cost.current_namespace AS ns ON nc.tenant_id = ns.tenant_id AND nc.cluster_id = ns.cluster_id AND nc.namespace_uid = ns.namespace_uid"

-- What `costsSQL` and `allocationSQL` share: all but the selected numbers.
abbrev pub cost_statement : AnalyticsQuery → List (String × String) → Statement × List Argument
cost_statement query columns =
    let group =
      analytics_group query.group_by "nc.cluster_id" "nc.namespace_uid" "nc.namespace_name" "ns" in
    let (condition, arguments) = analytics_cost_where query "nc" in
    (
      record {
        select =
            ("nc.tenant_id", "") ∷ ("nc.cluster_id", "") ∷ group_columns group
            ++ metadata_columns
            ++ columns;
        from = costs_from;
        where_text = condition;
        group_by = append "nc.tenant_id, nc.cluster_id" group.group_by_suffix;
        order_by = "allocated_cost DESC, nc.cluster_id, group_value, namespace_uid";
        limit = some (normalized_analytics_fetch_limit query.limit);
        offset = normalized_analytics_offset query.offset;
      },
      arguments,
    )

unfoldable pub costs_sql : AnalyticsQuery → Statement × List Argument
costs_sql query = cost_statement query cost_columns

unfoldable pub allocation_sql : AnalyticsQuery → Statement × List Argument
allocation_sql query = cost_statement query (
    ("sum(nc.cpu_request_core_milliseconds)", "cpu_request_core_milliseconds")
    ∷ ("sum(nc.network_bytes)", "network_bytes")
    ∷ ("sum(nc.allocation_weight)", "allocation_weight")
    ∷ cost_columns)

abbrev pub quality_source : String → String → String → String
quality_source table key condition = append "SELECT '" (
    append key (
      append "' AS source, '10s' AS grain, cluster_id, bucket_start, ingested_at FROM "
        (append table (append " WHERE " condition))))

-- The condition and its arguments stand twice, once in each part of the UNION ALL.
unfoldable pub data_quality_sql : DataQualityQuery → Statement × List Argument
data_quality_sql query =
    let (condition, arguments) = tenant_where query in
    (
      record {
        select =
            ("source", "")
            ∷ ("grain", "")
            ∷ ("cluster_id", "")
            ∷ ("count()", "record_count")
            ∷ ("max(bucket_start)", "latest_bucket_start")
            ∷ ("max(ingested_at)", "latest_ingested_at")
            ∷ [];
        from = append "(" (
            append
              (quality_source "kube_cost.container_metrics_10s" "container_metrics_10s" condition)
              (append " UNION ALL " (
                append (quality_source "kube_cost.node_metrics_10s" "node_metrics_10s" condition)
                  ")")));
        where_text = "";
        group_by = "source, grain, cluster_id";
        order_by = "cluster_id, source";
        limit = none;
        offset = 0;
      },
      arguments ++ arguments,
    )

unfoldable pub normalized_recommendation_limit : ℤ → ℕ
normalized_recommendation_limit (negsuc n) = 100
normalized_recommendation_limit (pos limit) =
    if ltb 0 limit then (if ltb 500 limit then 500 else limit) else 100

abbrev pub unnamed : List String → List (String × String)
unnamed [] = []
unnamed (c ∷ cs) = (c, "") ∷ unnamed cs

abbrev pub recommendation_columns : List String
recommendation_columns =
    "tenant_id" ∷ "recommendation_id" ∷ "cluster_id" ∷ "namespace_uid" ∷ "target_kind"
    ∷ "target_uid" ∷ "recommendation_type" ∷ "safety_class" ∷ "status" ∷ "analysis_window_start"
    ∷ "analysis_window_end" ∷ "generated_at" ∷ "expires_at" ∷ "current_configuration"
    ∷ "proposed_configuration" ∷ "evidence" ∷ "currency" ∷ "monthly_gross_savings"
    ∷ "monthly_net_savings" ∷ "confidence" ∷ "risk_score" ∷ "policy_version" ∷ "model_version"
    ∷ "computation_version" ∷ "version" ∷ []

abbrev pub recommendations_select : String → String → ℕ → Statement
recommendations_select condition order limit = record {
  select = unnamed recommendation_columns;
  from = "kube_cost.recommendation FINAL";
  where_text = condition;
  group_by = "";
  order_by = order;
  limit = some limit;
  offset = 0;
}

unfoldable pub recommendations_sql :
    Codecs → RecommendationQuery → Option (Statement × List Argument)
recommendations_sql codecs query = elim (recommendations_where codecs query) [
  | none ↦ none
  | some (condition, arguments) ↦ some (
    recommendations_select condition
        "monthly_net_savings DESC, generated_at DESC, recommendation_id"
        (normalized_recommendation_limit query.limit),
    arguments,
  )
]

-- The statement of `Recommendation`.
abbrev pub recommendation_sql : String → String → Statement × List Argument
recommendation_sql tenant recommendation_id = (
  recommendations_select "tenant_id = ? AND recommendation_id = ?" "generated_at DESC" 1,
  text tenant ∷ text recommendation_id ∷ [],
)
