-- ===== src/Query/Request.antt =====
-- services/query/server.go and query_jobs.go: what a request is read as, and what it is refused
-- for.
use kube_cost.Prelude.{
  ℕ, ◌*◌, ◌%◌, String, Bool, not, ◌&&◌, ◌||◌, Option, none, some, str_eq, if◌then◌else◌, ltb, ◌==◌,
}
use kube_cost.Wire.{ℤ, pos, negsuc}
use kube_cost.Http.{Reply, json, problem, bad_request, refuse_if, ◌>>=◌, ◌>>◌}
use kube_cost.Gateway
use kube_cost.Gateway.{Environment, second, authenticated_tenant}
use kube_cost.Query.{
  AnalyticsQuery, AnalyticsCursor, RecommendationQuery, Codecs, default_analytics_limit,
}
use kube_cost.Query.Cursors.{decode_analytics_cursor}
use Prim.Native.String.{◌++◌}

-- The process: the library, its environment, and the window of QUERY_FRESHNESS_WINDOW.
pub record Service : Type 0 where
  pub lib : Gateway.Library
  pub codecs : Codecs
  pub env : Environment
  pub window : ℤ

abbrev pub trim : Service → String → String
trim s value = s.lib.trim_space value

unfoldable pub parse_required_time : Service → String → String → Reply ℕ
parse_required_time s value name =
    let text = trim s value in
    if str_eq text ""
    then problem (bad_request (name ++ " is required"))
    else elim (s.codecs.parse_time text) [
      | none ↦ problem (bad_request (name ++ " must be an RFC3339 timestamp"))
      | some t ↦ json t
    ]

abbrev pub hour : ℕ
hour = 3600 * second

-- `t.Truncate(time.Hour).Equal(t)`
abbrev pub is_whole_hour : ℕ → Bool
is_whole_hour t = t % hour == 0

unfoldable pub valid_analytics_group_by : String → Bool
valid_analytics_group_by group_by =
    str_eq group_by "namespace"
    || str_eq group_by "cluster"
    || str_eq group_by "team"
    || str_eq group_by "project"
    || str_eq group_by "environment"
    || str_eq group_by "cost_center"

unfoldable pub bool_query : Service → String → Bool
bool_query s value =
    let text = s.lib.to_lower (trim s value) in
    str_eq text "true" || str_eq text "1" || str_eq text "yes"

-- Start and end of the window, which both forms of a query check in the same way.
unfoldable pub checked_window : Service → String → String → Reply (ℕ × ℕ)
checked_window s raw_start raw_end = do
  start ← parse_required_time s raw_start "start"
  end ← parse_required_time s raw_end "end"
  refuse_if (not (ltb start end)) 400 "invalid_request" "start must be before end"
  refuse_if (not (is_whole_hour start && is_whole_hour end)) 400 "invalid_request"
      "start and end must be aligned to whole hours"
  json (start, end)

unfoldable pub checked_group : Service → String → Reply String
checked_group s raw = do
  let text = trim s raw
  let group_by = if str_eq text "" then "namespace" else text
  refuse_if (not (valid_analytics_group_by group_by)) 400 "invalid_request"
      "group_by must be one of namespace, cluster, team, project, environment, cost_center"
  json group_by

abbrev pub positive : Option ℤ → Reply ℤ
positive none = problem (bad_request "limit must be a positive integer")
positive (some (negsuc n)) = problem (bad_request "limit must be a positive integer")
positive (some (pos n)) =
    if ltb 0 n then json (pos n) else problem (bad_request "limit must be a positive integer")

unfoldable pub checked_limit : Service → String → Reply ℤ
checked_limit s raw =
    if str_eq (trim s raw) ""
    then json (pos default_analytics_limit)
    else positive (s.codecs.atoi (trim s raw))

-- The cursor of another query is refused.
abbrev pub matches : Service → AnalyticsCursor → AnalyticsQuery → String → Bool
matches s cursor query kind =
    str_eq cursor.tenant_id query.tenant_id
    && str_eq cursor.kind kind
    && str_eq cursor.cluster_id query.cluster_id
    && str_eq cursor.start (s.codecs.format_time query.start)
    && str_eq cursor.end (s.codecs.format_time query.end)
    && str_eq cursor.group_by query.group_by

unfoldable pub with_cursor : Service → AnalyticsQuery → String → String → Reply AnalyticsQuery
with_cursor s query kind raw =
    if str_eq (trim s raw) ""
    then json query
    else elim (decode_analytics_cursor s.codecs (trim s raw)) [
      | none ↦ problem (bad_request "cursor is invalid")
      | some cursor ↦
          if matches s cursor query kind
          then json (record query { offset = cursor.offset })
          else problem (bad_request "cursor does not match query")
    ]

-- `API.analyticsQuery` up to the cursor: the query of the first page.
unfoldable pub first_query : Service → Gateway.Request → ℕ → Reply AnalyticsQuery
first_query s r now = do
  tenant ← authenticated_tenant s.lib s.env r now
  bounds ← checked_window s (r.value "start") (r.value "end")
  group_by ← checked_group s (r.value "group_by")
  limit ← checked_limit s (r.value "limit")
  json (record {
    tenant_id = tenant;
    cluster_id = trim s (r.value "cluster_id");
    start = bounds.0;
    end = bounds.1;
    group_by = group_by;
    limit = limit;
    offset = pos 0;
    include_quality = bool_query s (r.value "include_quality");
  })

-- `API.analyticsQuery`.
unfoldable pub analytics_query : Service → Gateway.Request → String → ℕ → Reply AnalyticsQuery
analytics_query s r kind now = do
  query ← first_query s r now
  with_cursor s query kind (r.value "cursor")

-- `QueryJobRequest`.
pub record QueryJobRequest : Type 0 where
  pub query_type : String
  pub cluster_id : String
  pub start : String
  pub end : String
  pub group_by : String
  pub limit : ℤ
  pub include_quality : Bool

abbrev pub is_query_type : String → Bool
is_query_type kind = str_eq kind "usage" || str_eq kind "costs" || str_eq kind "allocation"

abbrev pub job_limit : ℤ → Reply ℤ
job_limit (negsuc n) = problem (bad_request "limit must be a positive integer")
job_limit (pos n) = json (if n == 0 then pos default_analytics_limit else pos n)

unfoldable pub async_analytics_query :
    Service → QueryJobRequest → String → Reply (AnalyticsQuery × String)
async_analytics_query s request tenant = do
  let query_type = trim s request.query_type
  refuse_if (not (is_query_type query_type)) 400 "invalid_request"
      "query_type must be one of usage, costs, allocation"
  bounds ← checked_window s request.start request.end
  group_by ← checked_group s request.group_by
  limit ← job_limit request.limit
  let query : AnalyticsQuery = record {
    tenant_id = tenant;
    cluster_id = trim s request.cluster_id;
    start = bounds.0;
    end = bounds.1;
    group_by = group_by;
    limit = limit;
    offset = pos 0;
    include_quality = request.include_quality;
  }
  json (query, query_type)

abbrev pub savings_are_decimal : Service → String → Reply (Unit {0})
savings_are_decimal s text =
    if str_eq text "" then json tt else elim (s.codecs.parse_decimal text) [
      | none ↦ problem (bad_request "min_monthly_savings must be a decimal string")
      | some d ↦ json tt
    ]

unfoldable pub recommendation_query_from_request :
    Service → Gateway.Request → String → Reply RecommendationQuery
recommendation_query_from_request s r tenant = do
  limit ← checked_limit s (r.value "limit")
  let savings = trim s (r.value "min_monthly_savings")
  savings_are_decimal s savings
  json (record {
    tenant_id = tenant;
    cluster_id = trim s (r.value "cluster_id");
    status = trim s (r.value "status");
    recommendation_type = trim s (r.value "type");
    target_kind = trim s (r.value "target_kind");
    target_uid = trim s (r.value "target_uid");
    minimum_monthly_savings = savings;
    limit = limit;
  })
