-- ===== src/Jobs/Expected.antt =====
-- What services/query/query_jobs.go is to leave of a job that has been run, written out field by
-- field.
use kube_cost.Prelude.{ℕ, String, true, Option, none, some}
use kube_cost.Query.{AnalyticsQuery, normalized_analytics_limit}
use kube_cost.Jobs.Query.{
  QueryJobResult, AsyncAnalyticsQuery, JobResult, JobError, encode_failed, succeeded, failed,
  Encoder, Execution, done, stopped,
}
use Prim.Native.String.{len}

-- What a job shows of its query.
abbrev pub asked : AnalyticsQuery → AsyncAnalyticsQuery
asked query = record {
  cluster_id = query.cluster_id;
  start = query.start;
  end = query.end;
  group_by = query.group_by;
  limit = normalized_analytics_limit query.limit;
  include_quality = query.include_quality;
}

-- The record that is to be found of a job whose run has ended without a result that can be kept.
abbrev pub failed_job : String → String → AnalyticsQuery → JobError → ℕ → ℕ → ℕ → QueryJobResult
failed_job id query_type query error t0 t1 t2 = record {
  query_id = id;
  tenant_id = query.tenant_id;
  query_type = query_type;
  status = failed;
  created_at = t0;
  started_at = some t1;
  finished_at = some t2;
  query = asked query;
  manifest = none;
  error = some error;
  result = none;
}

-- The record of a job whose result has been encoded as `data_text`.
abbrev pub succeeded_job :
    Encoder → String → String → AnalyticsQuery → JobResult → ℕ → String → ℕ → ℕ → ℕ → QueryJobResult
succeeded_job encoder id query_type query result rows data_text t0 t1 t2 = record {
  query_id = id;
  tenant_id = query.tenant_id;
  query_type = query_type;
  status = succeeded;
  created_at = t0;
  started_at = some t1;
  finished_at = some t2;
  query = asked query;
  manifest = some (record {
    result_type = query_type;
    schema_version = "query-result-v1";
    content_type = "application/json";
    row_count = rows;
    byte_size = len data_text;
    sha256 = encoder.sha256 data_text;
    generated_at = t2;
    inline = true;
  });
  error = none;
  result = some result;
}

-- Of a result that was executed: whether it could be encoded decides.
abbrev pub encoded_job :
    Encoder
    → String
    → String
    → AnalyticsQuery
    → JobResult
    → ℕ
    → Option String
    → ℕ
    → ℕ
    → ℕ
    → QueryJobResult
encoded_job encoder id query_type query result rows none t0 t1 t2 =
    failed_job id query_type query encode_failed t0 t1 t2
encoded_job encoder id query_type query result rows (some data_text) t0 t1 t2 =
    succeeded_job encoder id query_type query result rows data_text t0 t1 t2

-- The job that a query is to end as: succeeded if it was executed and its result can be encoded,
-- and failed else.
abbrev pub expected_job :
    Encoder → String → String → AnalyticsQuery → Execution → ℕ → ℕ → ℕ → QueryJobResult
expected_job encoder id query_type query (stopped error) t0 t1 t2 =
    failed_job id query_type query error t0 t1 t2
expected_job encoder id query_type query (done result rows) t0 t1 t2 =
    encoded_job encoder id query_type query result rows (encoder.marshal result) t0 t1 t2
