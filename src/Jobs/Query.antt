-- ===== src/Jobs/Query.antt =====
-- services/query/query_jobs.go: the jobs of queries that run in the background, and their run.
use kube_cost.Prelude.{ℕ, String, Bool, true, Option, none, some, length, str_eq, if◌then◌else◌}
use kube_cost.Wire.{pos}
use kube_cost.Http.{Reply, json, problem, refuse_if, bad_request, ◌>>=◌, ◌>>◌}
use kube_cost.Gateway
use kube_cost.Gateway.{authenticated_tenant}
use kube_cost.Jobs.{Store, insert, find, update}
use kube_cost.Query.{AnalyticsQuery, normalized_analytics_limit}
use kube_cost.Query.Repository.{Connection}
use kube_cost.Query.Repository
use kube_cost.Query.Request.{Service, QueryJobRequest, async_analytics_query, trim}
use kube_cost.Query.Results.{
  UsageResult, CostResult, AllocationResult, usage_result, cost_result, allocation_result,
  query_quality,
}
use Prim.Native.String.{len}

-- The texts "queued", "running", "succeeded" and "failed".
pub data JobStatus : Type 0 where
  queued running succeeded failed : JobStatus

pub record AsyncAnalyticsQuery : Type 0 where
  pub cluster_id : String
  pub start : ℕ
  pub end : ℕ
  pub group_by : String
  pub limit : ℕ
  pub include_quality : Bool

pub record QueryManifest : Type 0 where
  pub result_type : String
  pub schema_version : String
  pub content_type : String
  pub row_count : ℕ
  pub byte_size : ℕ
  pub sha256 : String
  pub generated_at : ℕ
  pub inline : Bool

-- The errors that a job fails with, less the texts of the causes.
pub data JobError : Type 0 where
  usage_failed cost_failed allocation_failed quality_failed encode_failed : JobError
  unsupported : String → JobError

pub data JobResult : Type 0 where
  usage_rows : UsageResult → JobResult
  cost_rows : CostResult → JobResult
  allocation_rows : AllocationResult → JobResult

pub record QueryJobResult : Type 0 where
  pub query_id : String
  pub tenant_id : String
  pub query_type : String
  pub status : JobStatus
  pub created_at : ℕ
  pub started_at : Option ℕ
  pub finished_at : Option ℕ
  pub query : AsyncAnalyticsQuery
  pub manifest : Option QueryManifest
  pub error : Option JobError
  pub result : Option JobResult

abbrev pub Jobs : Type 0
Jobs = Store QueryJobResult

abbrev pub tenant_of : QueryJobResult → String
tenant_of job = job.tenant_id

abbrev pub new_job : String → String → String → AnalyticsQuery → ℕ → QueryJobResult
new_job query_id tenant query_type query now = record {
  query_id = query_id;
  tenant_id = tenant;
  query_type = query_type;
  status = queued;
  created_at = now;
  started_at = none;
  finished_at = none;
  query = record {
    cluster_id = query.cluster_id;
    start = query.start;
    end = query.end;
    group_by = query.group_by;
    limit = normalized_analytics_limit query.limit;
    include_quality = query.include_quality;
  };
  manifest = none;
  error = none;
  result = none;
}

-- `create`; the random ID of `newQueryID` is an argument.
unfoldable pub create : Jobs → String → String → String → AnalyticsQuery → ℕ → Jobs × QueryJobResult
create s query_id tenant query_type query now =
    let job = new_job query_id tenant query_type query now in (insert s query_id job, job)

abbrev pub started : ℕ → QueryJobResult → QueryJobResult
started now job = record job { status = running; started_at = some now }

abbrev pub finished : QueryManifest → JobResult → ℕ → QueryJobResult → QueryJobResult
finished manifest result now job = record job {
  status = succeeded;
  finished_at = some now;
  manifest = some manifest;
  result = some result;
}

abbrev pub broken : JobError → ℕ → QueryJobResult → QueryJobResult
broken error now job = record job { status = failed; finished_at = some now; error = some error }

unfoldable pub start : Jobs → String → String → ℕ → Jobs × Bool
start s tenant query_id now = update tenant_of s tenant query_id (started now)

unfoldable pub succeed : Jobs → String → String → QueryManifest → JobResult → ℕ → Jobs × Bool
succeed s tenant query_id manifest result now =
    update tenant_of s tenant query_id (finished manifest result now)

unfoldable pub fail : Jobs → String → String → JobError → ℕ → Jobs × Bool
fail s tenant query_id error now = update tenant_of s tenant query_id (broken error now)

unfoldable pub get_job : Jobs → String → String → Option QueryJobResult
get_job s tenant query_id = find tenant_of s tenant query_id

-- What `queryManifest` calls: json.Marshal of a result, and the SHA-256 of a text in hexadecimal.
pub record Encoder : Type 0 where
  pub marshal : JobResult → Option String
  pub sha256 : String → String

unfoldable pub query_manifest : Encoder → String → ℕ → JobResult → ℕ → Option QueryManifest
query_manifest encoder query_type row_count result now = elim (encoder.marshal result) [
  | none ↦ none
  | some data_text ↦ some (record {
    result_type = query_type;
    schema_version = "query-result-v1";
    content_type = "application/json";
    row_count = row_count;
    byte_size = len data_text;
    sha256 = encoder.sha256 data_text;
    generated_at = now;
    inline = true;
  })
]

pub data Execution : Type 0 where
  done : JobResult → ℕ → Execution
  stopped : JobError → Execution

abbrev pub or_stop {ℓ} : {A : Type ℓ} → Option A → JobError → (A → Execution) → Execution
or_stop none error go = stopped error
or_stop (some a) error go = go a

-- `executeQueryJob`, on the query at offset 0.
abbrev pub execute_usage : Service → Connection → AnalyticsQuery → ℕ → Execution
execute_usage s db query now = or_stop (Repository.usage s.codecs db query) usage_failed λ rows.
    or_stop (query_quality s db query now) quality_failed λ quality.
      let result = usage_result s query now rows quality in
      done (usage_rows result) (length result.rows)

abbrev pub execute_costs : Service → Connection → AnalyticsQuery → ℕ → Execution
execute_costs s db query now = or_stop (Repository.costs s.codecs db query) cost_failed λ answer.
    or_stop (query_quality s db query now) quality_failed λ quality.
      let result = cost_result s query now answer.0 answer.1 quality in
      done (cost_rows result) (length result.rows)

abbrev pub execute_allocation : Service → Connection → AnalyticsQuery → ℕ → Execution
execute_allocation s db query now =
    or_stop (Repository.allocation s.codecs db query) allocation_failed λ answer.
      or_stop (query_quality s db query now) quality_failed λ quality.
        let result = allocation_result s query now answer.0 answer.1 quality in
        done (allocation_rows result) (length result.rows)

unfoldable pub execute_query_job : Service → Connection → String → AnalyticsQuery → ℕ → Execution
execute_query_job s db query_type query now =
    let first = record query { offset = pos 0 } in
    if str_eq query_type "usage"
    then execute_usage s db first now
    else if str_eq query_type "costs"
    then execute_costs s db first now
    else if str_eq query_type "allocation"
    then execute_allocation s db first now
    else stopped (unsupported query_type)

-- The end of `runQueryJob`: a result without a manifest fails.
abbrev pub store_result : Jobs → String → String → JobResult → ℕ → Option QueryManifest → Jobs
store_result jobs tenant query_id result now none = (fail jobs tenant query_id encode_failed now).0
store_result jobs tenant query_id result now (some manifest) =
    (succeed jobs tenant query_id manifest result now).0

-- What `runQueryJob` does once the query has been executed.
unfoldable pub finish_query_job :
    Encoder → Jobs → String → String → AnalyticsQuery → Execution → ℕ → Jobs
finish_query_job encoder jobs query_id query_type query (stopped error) now =
    (fail jobs query.tenant_id query_id error now).0
finish_query_job encoder jobs query_id query_type query (done result rows) now =
    store_result jobs query.tenant_id query_id result now
      (query_manifest encoder query_type rows result now)

-- `createQueryJob`: the store with the new job, and the job. The rest, the `runQueryJob` that it
-- starts, is a step of its own.
unfoldable pub create_query_job :
    Service
    → Jobs
    → Gateway.Request
    → Option QueryJobRequest
    → String
    → ℕ
    → Reply (Jobs × QueryJobResult)
create_query_job s jobs r body fresh now = do
  tenant ← authenticated_tenant s.lib s.env r now
  request ← elim body [
    | none ↦ problem (bad_request "request body must be valid query JSON")
    | some request ↦ json request
  ]
  query ← async_analytics_query s request tenant
  json (create jobs fresh tenant query.1 query.0 now)

unfoldable pub query_job : Service → Jobs → Gateway.Request → ℕ → Reply QueryJobResult
query_job s jobs r now = do
  tenant ← authenticated_tenant s.lib s.env r now
  let query_id = trim s (r.path_value "query_id")
  refuse_if (str_eq query_id "") 400 "invalid_request" "query_id is required"
  elim (get_job jobs tenant query_id) [
    | none ↦ problem (record { status = 404; code = "not_found"; detail = "query job not found" })
    | some job ↦ json job
  ]

-- `runQueryJob`, when nothing else happens in between; Jobs/Lifecycle has it among other calls.
unfoldable pub run_query_job :
    Service → Encoder → Connection → Jobs → String → String → AnalyticsQuery → ℕ → Jobs
run_query_job s encoder db jobs query_id query_type query now =
    let running = (start jobs query.tenant_id query_id now).0 in
    finish_query_job encoder running query_id query_type query
      (execute_query_job s db query_type query now) now
