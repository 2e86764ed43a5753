-- ===== src/Query/Rows.antt =====
-- services/query/repository.go: the rows that the database returns, in the order of the selected
-- columns, and what the repository makes of them; decimal numbers become texts.
use kube_cost.Prelude.{ℕ, String}
use kube_cost.Query.{Decimal, Codecs}

pub record UsageRecord : Type 0 where
  pub tenant_id : String
  pub cluster_id : String
  pub group_key : String
  pub group_value : String
  pub namespace_uid : String
  pub namespace_name : String
  pub cpu_usage_core_hours : Decimal
  pub cpu_request_core_hours : Decimal
  pub cpu_limit_core_hours : Decimal
  pub memory_working_set_gib_hours : Decimal
  pub memory_request_gib_hours : Decimal
  pub memory_limit_gib_hours : Decimal
  pub network_bytes : ℕ
  pub filesystem_bytes : ℕ
  pub gpu_usage_milli_hours : Decimal
  pub gpu_request_milli_hours : Decimal
  pub oom_events : ℕ
  pub cpu_throttled_periods : ℕ
  pub sample_count : ℕ

pub record UsageRow : Type 0 where
  pub tenant_id : String
  pub cluster_id : String
  pub group_key : String
  pub group_value : String
  pub namespace_uid : String
  pub namespace_name : String
  pub cpu_usage_core_hours : String
  pub cpu_request_core_hours : String
  pub cpu_limit_core_hours : String
  pub memory_working_set_gib_hours : String
  pub memory_request_gib_hours : String
  pub memory_limit_gib_hours : String
  pub network_bytes : ℕ
  pub filesystem_bytes : ℕ
  pub gpu_usage_milli_hours : String
  pub gpu_request_milli_hours : String
  pub oom_events : ℕ
  pub cpu_throttled_periods : ℕ
  pub sample_count : ℕ

abbrev pub usage_row : Codecs → UsageRecord → UsageRow
usage_row codecs r = record {
  tenant_id = r.tenant_id;
  cluster_id = r.cluster_id;
  group_key = r.group_key;
  group_value = r.group_value;
  namespace_uid = r.namespace_uid;
  namespace_name = r.namespace_name;
  cpu_usage_core_hours = codecs.show_decimal r.cpu_usage_core_hours;
  cpu_request_core_hours = codecs.show_decimal r.cpu_request_core_hours;
  cpu_limit_core_hours = codecs.show_decimal r.cpu_limit_core_hours;
  memory_working_set_gib_hours = codecs.show_decimal r.memory_working_set_gib_hours;
  memory_request_gib_hours = codecs.show_decimal r.memory_request_gib_hours;
  memory_limit_gib_hours = codecs.show_decimal r.memory_limit_gib_hours;
  network_bytes = r.network_bytes;
  filesystem_bytes = r.filesystem_bytes;
  gpu_usage_milli_hours = codecs.show_decimal r.gpu_usage_milli_hours;
  gpu_request_milli_hours = codecs.show_decimal r.gpu_request_milli_hours;
  oom_events = r.oom_events;
  cpu_throttled_periods = r.cpu_throttled_periods;
  sample_count = r.sample_count;
}

pub record CostRecord : Type 0 where
  pub tenant_id : String
  pub cluster_id : String
  pub group_key : String
  pub group_value : String
  pub namespace_uid : String
  pub namespace_name : String
  pub currency : String
  pub computation_version : String
  pub computed_at : ℕ
  pub direct_cost : Decimal
  pub idle_cost : Decimal
  pub network_cost : Decimal
  pub control_plane_cost : Decimal
  pub system_namespace_cost : Decimal
  pub allocated_cost : Decimal

pub record CostRow : Type 0 where
  pub tenant_id : String
  pub cluster_id : String
  pub group_key : String
  pub group_value : String
  pub namespace_uid : String
  pub namespace_name : String
  pub direct_cost : String
  pub idle_cost : String
  pub network_cost : String
  pub control_plane_cost : String
  pub system_namespace_cost : String
  pub allocated_cost : String

abbrev pub cost_row : Codecs → CostRecord → CostRow
cost_row codecs r = record {
  tenant_id = r.tenant_id;
  cluster_id = r.cluster_id;
  group_key = r.group_key;
  group_value = r.group_value;
  namespace_uid = r.namespace_uid;
  namespace_name = r.namespace_name;
  direct_cost = codecs.show_decimal r.direct_cost;
  idle_cost = codecs.show_decimal r.idle_cost;
  network_cost = codecs.show_decimal r.network_cost;
  control_plane_cost = codecs.show_decimal r.control_plane_cost;
  system_namespace_cost = codecs.show_decimal r.system_namespace_cost;
  allocated_cost = codecs.show_decimal r.allocated_cost;
}

pub record AllocationRecord : Type 0 where
  pub tenant_id : String
  pub cluster_id : String
  pub group_key : String
  pub group_value : String
  pub namespace_uid : String
  pub namespace_name : String
  pub currency : String
  pub computation_version : String
  pub computed_at : ℕ
  pub cpu_request_core_milliseconds : ℕ
  pub network_bytes : ℕ
  pub allocation_weight : Decimal
  pub direct_cost : Decimal
  pub idle_cost : Decimal
  pub network_cost : Decimal
  pub control_plane_cost : Decimal
  pub system_namespace_cost : Decimal
  pub allocated_cost : Decimal

pub record AllocationRow : Type 0 where
  pub tenant_id : String
  pub cluster_id : String
  pub group_key : String
  pub group_value : String
  pub namespace_uid : String
  pub namespace_name : String
  pub cpu_request_core_milliseconds : ℕ
  pub network_bytes : ℕ
  pub allocation_weight : String
  pub direct_cost : String
  pub idle_cost : String
  pub network_cost : String
  pub control_plane_cost : String
  pub system_namespace_cost : String
  pub allocated_cost : String

abbrev pub allocation_row : Codecs → AllocationRecord → AllocationRow
allocation_row codecs r = record {
  tenant_id = r.tenant_id;
  cluster_id = r.cluster_id;
  group_key = r.group_key;
  group_value = r.group_value;
  namespace_uid = r.namespace_uid;
  namespace_name = r.namespace_name;
  cpu_request_core_milliseconds = r.cpu_request_core_milliseconds;
  network_bytes = r.network_bytes;
  allocation_weight = codecs.show_decimal r.allocation_weight;
  direct_cost = codecs.show_decimal r.direct_cost;
  idle_cost = codecs.show_decimal r.idle_cost;
  network_cost = codecs.show_decimal r.network_cost;
  control_plane_cost = codecs.show_decimal r.control_plane_cost;
  system_namespace_cost = codecs.show_decimal r.system_namespace_cost;
  allocated_cost = codecs.show_decimal r.allocated_cost;
}

pub record RecommendationRecord : Type 0 where
  pub tenant_id : String
  pub recommendation_id : String
  pub cluster_id : String
  pub namespace_uid : String
  pub target_kind : String
  pub target_uid : String
  pub recommendation_type : String
  pub safety_class : String
  pub status : String
  pub analysis_window_start : ℕ
  pub analysis_window_end : ℕ
  pub generated_at : ℕ
  pub expires_at : ℕ
  pub current_configuration : String
  pub proposed_configuration : String
  pub evidence : String
  pub currency : String
  pub monthly_gross_savings : Decimal
  pub monthly_net_savings : Decimal
  pub confidence : Decimal
  pub risk_score : Decimal
  pub policy_version : String
  pub model_version : String
  pub computation_version : String
  pub version : ℕ

pub record RecommendationResult : Type 0 where
  pub tenant_id : String
  pub recommendation_id : String
  pub cluster_id : String
  pub namespace_uid : String
  pub target_kind : String
  pub target_uid : String
  pub recommendation_type : String
  pub safety_class : String
  pub status : String
  pub analysis_window_start : ℕ
  pub analysis_window_end : ℕ
  pub generated_at : ℕ
  pub expires_at : ℕ
  pub current_configuration : String
  pub proposed_configuration : String
  pub evidence : String
  pub currency : String
  pub monthly_gross_savings : String
  pub monthly_net_savings : String
  pub confidence : String
  pub risk_score : String
  pub policy_version : String
  pub model_version : String
  pub computation_version : String
  pub version : ℕ

abbrev pub scan_recommendation : Codecs → RecommendationRecord → RecommendationResult
scan_recommendation codecs r = record {
  tenant_id = r.tenant_id;
  recommendation_id = r.recommendation_id;
  cluster_id = r.cluster_id;
  namespace_uid = r.namespace_uid;
  target_kind = r.target_kind;
  target_uid = r.target_uid;
  recommendation_type = r.recommendation_type;
  safety_class = r.safety_class;
  status = r.status;
  analysis_window_start = r.analysis_window_start;
  analysis_window_end = r.analysis_window_end;
  generated_at = r.generated_at;
  expires_at = r.expires_at;
  current_configuration = r.current_configuration;
  proposed_configuration = r.proposed_configuration;
  evidence = r.evidence;
  currency = r.currency;
  monthly_gross_savings = codecs.show_decimal r.monthly_gross_savings;
  monthly_net_savings = codecs.show_decimal r.monthly_net_savings;
  confidence = codecs.show_decimal r.confidence;
  risk_score = codecs.show_decimal r.risk_score;
  policy_version = r.policy_version;
  model_version = r.model_version;
  computation_version = r.computation_version;
  version = r.version;
}
