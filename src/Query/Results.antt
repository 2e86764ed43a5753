-- ===== src/Query/Results.antt =====
-- services/query: the results of the three analytics queries, and how each is made from the query,
-- the rows of its page and the quality of its data; `executeQueryJob` and the handlers make them
-- alike.
use kube_cost.Prelude.{ℕ, String, Option, none, some, List, length, if◌then◌else◌}
use kube_cost.Query.{AnalyticsQuery, CostMetadata, QualitySummary, normalized_analytics_limit}
use kube_cost.Query.Rows.{UsageRow, CostRow, AllocationRow}
use kube_cost.Query.Cursors.{paginate}
use kube_cost.Query.Repository.{Connection, data_quality}
use kube_cost.Query.Quality.{summarize_data_quality}
use kube_cost.Query.Request.{Service}

pub record UsageResult : Type 0 where
  pub tenant_id : String
  pub cluster_id : String
  pub start : ℕ
  pub end : ℕ
  pub group_by : String
  pub generated_at : ℕ
  pub data_through : Option ℕ
  pub quality : Option QualitySummary
  pub rows : List UsageRow
  pub result_count : ℕ
  pub limit : ℕ
  pub next_cursor : String

pub record CostResult : Type 0 where
  pub tenant_id : String
  pub cluster_id : String
  pub start : ℕ
  pub end : ℕ
  pub group_by : String
  pub generated_at : ℕ
  pub data_through : Option ℕ
  pub quality : Option QualitySummary
  pub currency : String
  pub computation_version : String
  pub computed_at : Option ℕ
  pub rows : List CostRow
  pub result_count : ℕ
  pub limit : ℕ
  pub next_cursor : String

pub record AllocationResult : Type 0 where
  pub tenant_id : String
  pub cluster_id : String
  pub start : ℕ
  pub end : ℕ
  pub group_by : String
  pub generated_at : ℕ
  pub data_through : Option ℕ
  pub quality : Option QualitySummary
  pub currency : String
  pub computation_version : String
  pub computed_at : Option ℕ
  pub rows : List AllocationRow
  pub result_count : ℕ
  pub limit : ℕ
  pub next_cursor : String

-- `analyticsQuality`, when it has not failed.
pub record Quality : Type 0 where
  pub data_through : Option ℕ
  pub summary : Option QualitySummary

-- `queryQuality`, and `API.analyticsQuality` less the problem that it writes; none is its failure.
unfoldable pub query_quality : Service → Connection → AnalyticsQuery → ℕ → Option Quality
query_quality s db query now =
    if query.include_quality
    then elim (data_quality db (record {
      tenant_id = query.tenant_id;
      cluster_id = query.cluster_id;
      freshness_window = s.window;
    })) [
      | none ↦ none
      | some signals ↦
          let result =
            summarize_data_quality s.codecs query.tenant_id query.cluster_id now s.window signals in
          some (record { data_through = result.data_through; summary = some result.quality })
    ]
    else some (record { data_through = none; summary = none })

abbrev pub usage_result : Service → AnalyticsQuery → ℕ → List UsageRow → Quality → UsageResult
usage_result s query now rows q =
    let (page, next) = paginate s.codecs rows query "usage" in
    record {
      tenant_id = query.tenant_id;
      cluster_id = query.cluster_id;
      start = query.start;
      end = query.end;
      group_by = query.group_by;
      generated_at = now;
      data_through = q.data_through;
      quality = q.summary;
      rows = page;
      result_count = length page;
      limit = normalized_analytics_limit query.limit;
      next_cursor = next;
    }

abbrev pub cost_result :
    Service → AnalyticsQuery → ℕ → CostMetadata → List CostRow → Quality → CostResult
cost_result s query now m rows q =
    let (page, next) = paginate s.codecs rows query "costs" in
    record {
      tenant_id = query.tenant_id;
      cluster_id = query.cluster_id;
      start = query.start;
      end = query.end;
      group_by = query.group_by;
      generated_at = now;
      data_through = q.data_through;
      quality = q.summary;
      currency = m.currency;
      computation_version = m.computation_version;
      computed_at = m.computed_at;
      rows = page;
      result_count = length page;
      limit = normalized_analytics_limit query.limit;
      next_cursor = next;
    }

abbrev pub allocation_result :
    Service → AnalyticsQuery → ℕ → CostMetadata → List AllocationRow → Quality → AllocationResult
allocation_result s query now m rows q =
    let (page, next) = paginate s.codecs rows query "allocation" in
    record {
      tenant_id = query.tenant_id;
      cluster_id = query.cluster_id;
      start = query.start;
      end = query.end;
      group_by = query.group_by;
      generated_at = now;
      data_through = q.data_through;
      quality = q.summary;
      currency = m.currency;
      computation_version = m.computation_version;
      computed_at = m.computed_at;
      rows = page;
      result_count = length page;
      limit = normalized_analytics_limit query.limit;
      next_cursor = next;
    }
