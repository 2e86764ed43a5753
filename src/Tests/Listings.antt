-- ===== src/Tests/Listings.antt =====
-- The listings of the query service at concrete inputs: three rows read one by one, on the library
-- of the services' tests; a time is its name.
use kube_cost.Prelude.{
  ℕ, ◌-◌, ◌≡◌, refl, sym, ap, ◌∙◌, arith, false, String, Option, str_eq, if◌then◌else◌, none, some,
  List, [], ◌∷◌, take, drop, map, ◌==◌,
}
use kube_cost.Prelude.Dict.{get}
use kube_cost.Wire.{ℤ, pos, negsuc}
use kube_cost.Http.{json}
use kube_cost.Gateway.{authenticated_tenant, trusted_gateway, verify_request}
use kube_cost.Query.{AnalyticsCursor, AnalyticsQuery, Codecs, Decimal, DataQualitySignal}
use kube_cost.Query.Rows.{UsageRecord, CostRecord, usage_row}
use kube_cost.Query.Repository.{Connection}
use kube_cost.Query.Statements.{Statement}
use kube_cost.Query.Sql.{Argument, text, time, decimal}
use kube_cost.Query.Request.{
  Service, first_query, hour, checked_window, checked_group, checked_limit, parse_required_time,
  valid_analytics_group_by, bool_query,
}
use kube_cost.Query.Accepted.{IsLawful, first_query-IsValid, IsValid}
use kube_cost.Query.Pages.{read_pages}
use kube_cost.Query.Following.{IsFollowed}
use kube_cost.Query.Results.{Quality, query_quality}
use kube_cost.Query.Reading.{usage_pages, usage_page}
use kube_cost.Query.Quality.{summarize_data_quality}
use kube_cost.Query.Freshness.{summarize-status}
use kube_cost.Query.Handlers
use kube_cost.Query.Filtered.{IsFiltered, IsFiltered-first}
use kube_cost.Query.Isolation.{AgreeFor, replies_isolated}
use Prim.Native.String.{count}
use kube_cost.Tests.Services.{
  strokes, count-strokes, strokes_named, library, request, environment, is_tenant,
}

-- The cursor of the query below, at an offset.
abbrev cursor : String → ℕ → AnalyticsCursor
cursor kind offset = record {
  kind = kind;
  tenant_id = "t";
  cluster_id = "";
  start = "early";
  end = "late";
  group_by = "namespace";
  offset = pos offset;
}

abbrev IsText : String → AnalyticsCursor → Type 0
IsText kind c = (o : ℕ) × (c ≡ cursor kind o)

abbrev strokes_of : ℤ → String
strokes_of (pos n) = strokes n
strokes_of (negsuc n) = "1"

abbrev codecs : String → Codecs
codecs kind = record {
  parse_time =
      λ s. if str_eq s "early" then some 0 else if str_eq s "late" then some hour else none;
  format_time = λ t. if t == 0 then "early" else "late";
  atoi = λ s. some (pos (count s));
  show_duration = λ d. "";
  marshal_cursor = λ c. some (strokes_of c.offset);
  unmarshal_cursor = λ s. some (cursor kind (count s - 1));
  encode_base64 = λ s. s;
  decode_base64 = λ s. some s;
  parse_decimal = λ s. none;
  show_decimal = λ d. "1";
}

strokes_of-named : (i : ℤ) → str_eq (strokes_of i) "" ≡ false
strokes_of-named (pos n) = strokes_named n
strokes_of-named (negsuc n) = refl

read_back :
    (kind : String) (c : AnalyticsCursor) (t : String)
    → IsText kind c
    → some (strokes_of c.offset) ≡ some t
    → some (cursor kind (count t - 1)) ≡ some c
read_back kind c t (o, e) m =
    let text : strokes o ≡ t = ground (arith, m, e) in
    let size : count t - 1 ≡ o = rw (sym text) (omega (arith, count-strokes o)) in
    ap (λ k. some (cursor kind k)) size ∙ ap some (sym e)

codecs-IsLawful : (kind : String) → IsLawful library (codecs kind) (IsText kind)
codecs-IsLawful kind = record {
  marshals = λ c ok. (strokes_of c.offset, refl);
  unmarshal_marshal = read_back kind;
  decode_encode = λ t. refl;
  trim_encode = λ t. refl;
  encode_named =
      λ c t m. let text : strokes_of c.offset ≡ t = cc in rw (sym text) (strokes_of-named c.offset);
  trim_empty = refl;
}

abbrev service : String → Service
service kind = record { lib = library; codecs = codecs kind; env = environment; window = pos 600 }

abbrev pub query : AnalyticsQuery
query = record {
  tenant_id = "t";
  cluster_id = "";
  start = 0;
  end = hour;
  group_by = "namespace";
  limit = pos 1;
  offset = pos 0;
  include_quality = false;
}

is_query : (kind c : String) → first_query (service kind) (request c) 0 ≡ json query
unfolding first_query authenticated_tenant trusted_gateway verify_request checked_window
    checked_group checked_limit parse_required_time valid_analytics_group_by bool_query get
is_query kind c = refl

first_query-IsValid_example :
    IsValid query
    × (query.offset ≡ pos 0)
    × (authenticated_tenant library environment (request "") 0 ≡ json "t")
first_query-IsValid_example =
    first_query-IsValid (service "usage") (request "") 0 (is_query "usage" "")

abbrev one : Decimal
one = record { coefficient = pos 1; exponent = pos 0 }

abbrev usage_record : String → UsageRecord
usage_record group = record {
  tenant_id = "";
  cluster_id = "";
  group_key = "";
  group_value = group;
  namespace_uid = "";
  namespace_name = "";
  cpu_usage_core_hours = one;
  cpu_request_core_hours = one;
  cpu_limit_core_hours = one;
  memory_working_set_gib_hours = one;
  memory_request_gib_hours = one;
  memory_limit_gib_hours = one;
  network_bytes = 1;
  filesystem_bytes = 1;
  gpu_usage_milli_hours = one;
  gpu_request_milli_hours = one;
  oom_events = 1;
  cpu_throttled_periods = 1;
  sample_count = 1;
}

abbrev cost_record : String → CostRecord
cost_record group = record {
  tenant_id = "";
  cluster_id = "";
  group_key = "";
  group_value = group;
  namespace_uid = "";
  namespace_name = "";
  currency = "";
  computation_version = "";
  computed_at = 1;
  direct_cost = one;
  idle_cost = one;
  network_cost = one;
  control_plane_cost = one;
  system_namespace_cost = one;
  allocated_cost = one;
}

abbrev usage_records : List UsageRecord
usage_records = usage_record "a" ∷ usage_record "b" ∷ usage_record "c" ∷ []

abbrev cost_records : List CostRecord
cost_records = cost_record "a" ∷ cost_record "b" ∷ cost_record "c" ∷ []

-- LIMIT and OFFSET on a table.
abbrev slice : {A : Type 0} → List A → Statement → List Argument → Option (List A)
slice rows statement arguments = elim statement.limit [
  | none ↦ some rows
  | some n ↦ some (take n (drop statement.offset rows))
]

abbrev database : Connection
database = record {
  usage_records = slice usage_records;
  cost_records = slice cost_records;
  allocation_records = slice [];
  signal_records = slice [];
  recommendation_records = slice [];
}

followed : (kind : String) → IsFollowed (service kind) request 0 query
followed kind = record { same = is_query kind; carried = λ c. refl }

abbrev unasked : Quality
unasked = record { data_through = none; summary = none }

usage_pages_example :
    read_pages (λ c. Handlers.usage (service "usage") database (request c) 0) usage_page 4 ""
    ≡ some (map (usage_row (codecs "usage")) usage_records)
unfolding query_quality
usage_pages_example =
    usage_pages (service "usage") (IsText "usage") (codecs-IsLawful "usage") database request 0
      query usage_records unasked 4 (followed "usage") (λ o. (o, refl)) (λ n o. refl) refl
      (omega arith) (omega arith)

-- Another database, which has other rows for the other tenants: none.
abbrev hidden : {A : Type 0} → List A → Statement → List Argument → Option (List A)
hidden rows statement [] = none
hidden rows statement (text tenant ∷ arguments) =
    if str_eq tenant "t" then slice rows statement (text tenant ∷ arguments) else none
hidden rows statement (time t ∷ arguments) = none
hidden rows statement (decimal d ∷ arguments) = none

abbrev other_database : Connection
other_database = record {
  usage_records = hidden usage_records;
  cost_records = hidden cost_records;
  allocation_records = hidden [];
  signal_records = hidden [];
  recommendation_records = hidden [];
}

same_rows :
    {A : Type 0} (rows : List A) (st : Statement) (arguments : List Argument)
    → IsFiltered "t" st arguments
    → slice rows st arguments ≡ hidden rows st arguments
same_rows rows st arguments f = let (rest, e) = IsFiltered-first "t" st arguments f in rw e refl

agree : AgreeFor "t" database other_database
agree = record {
  usage = same_rows usage_records;
  cost = same_rows cost_records;
  allocation = same_rows [];
  signal = same_rows [];
  recommendation = same_rows [];
}

abbrev s0 : Service
s0 = service "usage"

replies_isolated_example :
    (Handlers.usage s0 database (request "") 0 ≡ Handlers.usage s0 other_database (request "") 0)
    × (Handlers.costs s0 database (request "") 0 ≡ Handlers.costs s0 other_database (request "") 0)
    × (Handlers.allocation s0 database (request "") 0
        ≡ Handlers.allocation s0 other_database (request "") 0)
    × (Handlers.data_quality s0 database (request "") 0
        ≡ Handlers.data_quality s0 other_database (request "") 0)
    × (Handlers.recommendations s0 database (request "") 0
        ≡ Handlers.recommendations s0 other_database (request "") 0)
    × (Handlers.recommendation s0 database (request "") 0
        ≡ Handlers.recommendation s0 other_database (request "") 0)
replies_isolated_example =
    replies_isolated s0 database other_database (request "") 0 "t" agree (is_tenant "")

abbrev signal : String → DataQualitySignal
signal source = record {
  source = source;
  grain = "10s";
  cluster_id = "";
  record_count = 2;
  latest_bucket_start = some 5;
  latest_ingested_at = some 6;
  freshness_seconds = none;
  status = "";
  warning = "";
  expected_freshness_limit = "";
}

abbrev signals : List DataQualitySignal
signals = signal "container_metrics_10s" ∷ signal "node_metrics_10s" ∷ []

summarize-status_example :
    ((summarize_data_quality (codecs "usage") "t" "" 9 (pos 600) signals).quality.status ≡ "fresh")
    × ((summarize_data_quality
          (codecs "usage")
          "t"
          ""
          9
          (pos 600)
          signals).quality.estimated_percent
        ≡ 100)
summarize-status_example = summarize-status (codecs "usage") "t" "" 9 (pos 600) signals
