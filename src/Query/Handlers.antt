-- ===== src/Query/Handlers.antt =====
-- services/query/server.go: the handlers of the read API. A request is served at one instant `now`.
use kube_cost.Prelude.{ℕ, String, Option, none, some, List, length, str_eq}
use kube_cost.Http.{Reply, json, problem, Problem, refuse_if, ◌>>=◌, ◌>>◌}
use kube_cost.Gateway
use kube_cost.Gateway.{authenticated_tenant}
use kube_cost.Query.{RecommendationQuery, DataQualityResult}
use kube_cost.Query.Statements.{normalized_recommendation_limit}
use kube_cost.Query.Rows.{RecommendationResult}
use kube_cost.Query.Repository.{
  Connection, Found, found, not_found, recommendation_not_found, query_error,
}
use kube_cost.Query.Repository
use kube_cost.Query.Quality.{summarize_data_quality}
use kube_cost.Query.Request.{Service, trim, analytics_query, recommendation_query_from_request}
use kube_cost.Query.Results.{
  UsageResult, CostResult, AllocationResult, query_quality, usage_result, cost_result,
  allocation_result,
}

abbrev pub failure : String → Problem
failure detail = record { status = 500; code = "query_failed"; detail = detail }

-- A repository's answer, or the problem for its error.
abbrev pub or_fail {ℓ} : {A : Type ℓ} → Option A → String → Reply A
or_fail none detail = problem (failure detail)
or_fail (some a) detail = json a

unfoldable pub data_quality : Service → Connection → Gateway.Request → ℕ → Reply DataQualityResult
data_quality s db r now = do
  tenant ← authenticated_tenant s.lib s.env r now
  let cluster = trim s (r.value "cluster_id")
  signals ←
      or_fail
        (Repository.data_quality db
          (record { tenant_id = tenant; cluster_id = cluster; freshness_window = s.window }))
        "data quality query failed"
  json (summarize_data_quality s.codecs tenant cluster now s.window signals)

unfoldable pub usage : Service → Connection → Gateway.Request → ℕ → Reply UsageResult
usage s db r now = do
  query ← analytics_query s r "usage" now
  rows ← or_fail (Repository.usage s.codecs db query) "usage query failed"
  quality ← or_fail (query_quality s db query now) "quality query failed"
  json (usage_result s query now rows quality)

unfoldable pub costs : Service → Connection → Gateway.Request → ℕ → Reply CostResult
costs s db r now = do
  query ← analytics_query s r "costs" now
  answer ← or_fail (Repository.costs s.codecs db query) "cost query failed"
  quality ← or_fail (query_quality s db query now) "quality query failed"
  json (cost_result s query now answer.0 answer.1 quality)

unfoldable pub allocation : Service → Connection → Gateway.Request → ℕ → Reply AllocationResult
allocation s db r now = do
  query ← analytics_query s r "allocation" now
  answer ← or_fail (Repository.allocation s.codecs db query) "allocation query failed"
  quality ← or_fail (query_quality s db query now) "quality query failed"
  json (allocation_result s query now answer.0 answer.1 quality)

pub record RecommendationListResult : Type 0 where
  pub tenant_id : String
  pub cluster_id : String
  pub generated_at : ℕ
  pub recommendations : List RecommendationResult
  pub result_count : ℕ
  pub limit : ℕ

-- The last part of `recommendations`.
abbrev pub answer_recommendations :
    Service → Connection → String → ℕ → RecommendationQuery → Reply RecommendationListResult
answer_recommendations s db tenant now query = do
  rows ← or_fail (Repository.recommendations s.codecs db query) "recommendations query failed"
  json (record {
    tenant_id = tenant;
    cluster_id = query.cluster_id;
    generated_at = now;
    recommendations = rows;
    result_count = length rows;
    limit = normalized_recommendation_limit query.limit;
  })

unfoldable pub recommendations :
    Service → Connection → Gateway.Request → ℕ → Reply RecommendationListResult
recommendations s db r now = do
  tenant ← authenticated_tenant s.lib s.env r now
  query ← recommendation_query_from_request s r tenant
  answer_recommendations s db tenant now query

abbrev pub found_reply : Found → Reply RecommendationResult
found_reply (found r) = json r
found_reply (not_found recommendation_not_found) =
    problem (record { status = 404; code = "not_found"; detail = "recommendation not found" })
found_reply (not_found query_error) = problem (failure "recommendation query failed")

unfoldable pub recommendation :
    Service → Connection → Gateway.Request → ℕ → Reply RecommendationResult
recommendation s db r now = do
  tenant ← authenticated_tenant s.lib s.env r now
  let recommendation_id = trim s (r.path_value "recommendation_id")
  refuse_if (str_eq recommendation_id "") 400 "invalid_request" "recommendation_id is required"
  found_reply (Repository.recommendation s.codecs db tenant recommendation_id)
