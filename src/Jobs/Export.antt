-- ===== src/Jobs/Export.antt =====
-- services/export: store.go and the handlers of server.go, which keep their jobs as the queries do.
-- The checks of a window's times are the query service's, which this service has a copy of.
use kube_cost.Prelude.{
  ℕ, String, Bool, true, not, ◌||◌, Option, none, some, str_eq, if◌then◌else◌, ltb,
}
use kube_cost.Http.{Reply, json, problem, refuse_if, bad_request, ◌>>=◌, ◌>>◌}
use kube_cost.Gateway
use kube_cost.Gateway.{authenticated_tenant}
use kube_cost.Jobs.{Store, insert, find}
use kube_cost.Query.Request.{Service, trim, parse_required_time}
use Prim.Native.String.{len}

pub record ExportRequest : Type 0 where
  pub query_type : String
  pub format : String
  pub cluster_id : String
  pub start : String
  pub end : String
  pub group_by : String

pub record ExportSpec : Type 0 where
  pub query_type : String
  pub format : String
  pub cluster_id : String
  pub start : ℕ
  pub end : ℕ
  pub group_by : String

pub record ExportManifest : Type 0 where
  pub schema_version : String
  pub content_type : String
  pub byte_size : ℕ
  pub sha256 : String
  pub inline : Bool
  pub uri : String
  pub generated_at : ℕ

pub record ExportJob : Type 0 where
  pub export_id : String
  pub tenant_id : String
  pub status : String
  pub request : ExportSpec
  pub manifest : ExportManifest
  pub created_at : ℕ
  pub updated_at : ℕ

abbrev pub Exports : Type 0
Exports = Store ExportJob

abbrev pub export_tenant_of : ExportJob → String
export_tenant_of job = job.tenant_id

unfoldable pub content_type : String → String
content_type format =
    if str_eq format "csv"
    then "text/csv"
    else if str_eq format "parquet"
    then "application/vnd.apache.parquet"
    else "application/json"

-- The payload that `exportManifest` marshals, and what it calls for it.
pub record Payload : Type 0 where
  pub export_id : String
  pub tenant_id : String
  pub request : ExportSpec

pub record Encoder : Type 0 where
  pub marshal : Payload → Option String
  pub sha256 : String → String

unfoldable pub export_manifest : Encoder → String → String → ExportSpec → ℕ → Option ExportManifest
export_manifest encoder export_id tenant spec now =
    elim (encoder.marshal (record { export_id = export_id; tenant_id = tenant; request = spec })) [
      | none ↦ none
      | some data_text ↦ some (record {
        schema_version = "export-manifest-v1";
        content_type = content_type spec.format;
        byte_size = len data_text;
        sha256 = encoder.sha256 data_text;
        inline = true;
        uri = "";
        generated_at = now;
      })
    ]

abbrev pub export_job : String → String → ExportSpec → ExportManifest → ℕ → ExportJob
export_job export_id tenant spec manifest now = record {
  export_id = export_id;
  tenant_id = tenant;
  status = "succeeded";
  request = spec;
  manifest = manifest;
  created_at = now;
  updated_at = now;
}

-- `Create`; the random ID of `newExportID` is an argument. Without a manifest the store is as it
-- was.
unfoldable pub create_export :
    Encoder → Exports → String → String → ExportSpec → ℕ → Option (Exports × ExportJob)
create_export encoder s export_id tenant spec now =
    elim (export_manifest encoder export_id tenant spec now) [
      | none ↦ none
      | some manifest ↦
          let job = export_job export_id tenant spec manifest now in
          some (insert s export_id job, job)
    ]

unfoldable pub get_export_job : Exports → String → String → Option ExportJob
get_export_job s tenant export_id = find export_tenant_of s tenant export_id

abbrev pub is_export_type : String → Bool
is_export_type kind = str_eq kind "usage" || str_eq kind "costs" || str_eq kind "allocation"

abbrev pub is_export_format : String → Bool
is_export_format format = str_eq format "json" || str_eq format "csv" || str_eq format "parquet"

abbrev pub or_default : String → String → String
or_default value fallback = if str_eq value "" then fallback else value

unfoldable pub export_spec : Service → ExportRequest → Reply ExportSpec
export_spec s request = do
  let query_type = trim s request.query_type
  refuse_if (not (is_export_type query_type)) 400 "invalid_request"
      "query_type must be one of usage, costs, allocation"
  let format = or_default (s.lib.to_lower (trim s request.format)) "json"
  refuse_if (not (is_export_format format)) 400 "invalid_request"
      "format must be one of json, csv, parquet"
  start ← parse_required_time s request.start "start"
  end ← parse_required_time s request.end "end"
  refuse_if (not (ltb start end)) 400 "invalid_request" "start must be before end"
  json (record {
    query_type = query_type;
    format = format;
    cluster_id = trim s request.cluster_id;
    start = start;
    end = end;
    group_by = or_default (trim s request.group_by) "namespace";
  })

-- The request's body: none, not the JSON of a request, or a request.
pub data Body : Type 0 where
  no_body invalid_body : Body
  body : ExportRequest → Body

abbrev pub decode_export_request : Body → Reply ExportRequest
decode_export_request no_body = problem (bad_request "request body is required")
decode_export_request invalid_body = problem (bad_request "request body must be valid export JSON")
decode_export_request (body request) = json request

abbrev pub created_or_problem : Option (Exports × ExportJob) → Reply (Exports × ExportJob)
created_or_problem none =
    problem (record { status = 500; code = "export_failed"; detail = "create export job failed" })
created_or_problem (some x) = json x

-- `createExport`: the store with the new job, and the job.
unfoldable pub handle_create_export :
    Service → Encoder → Exports → Gateway.Request → Body → String → ℕ → Reply (Exports × ExportJob)
handle_create_export s encoder exports r input fresh now = do
  tenant ← authenticated_tenant s.lib s.env r now
  request ← decode_export_request input
  spec ← export_spec s request
  created_or_problem (create_export encoder exports fresh tenant spec now)

unfoldable pub handle_get_export : Service → Exports → Gateway.Request → ℕ → Reply ExportJob
handle_get_export s exports r now = do
  tenant ← authenticated_tenant s.lib s.env r now
  let export_id = trim s (r.path_value "export_id")
  refuse_if (str_eq export_id "") 400 "invalid_request" "export_id is required"
  elim (get_export_job exports tenant export_id) [
    | none ↦ problem (record { status = 404; code = "not_found"; detail = "export job not found" })
    | some job ↦ json job
  ]
