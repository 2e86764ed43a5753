-- ===== src/Workflow.antt =====
-- services/workflow: the commands on a recommendation. What the SELECT returns, whether the two
-- inserts succeed, the new IDs and the clock are arguments; what was inserted is in the outcome.
-- Times are nanoseconds since 1970; the details of a command, a JSON object, are its text.
pub mod History
pub mod Overlap
pub mod Rows
use kube_cost.Prelude.{
  ℕ, String, Bool, true, false, not, ◌&&◌, ◌||◌, Option, none, some, List, [], ◌∷◌, str_eq,
  if◌then◌else◌, ◌==◌,
}
use kube_cost.Http.{Problem, Reply, json, problem, bad_request, refuse_if, ◌>>=◌, ◌>>◌}
use kube_cost.Gateway
use kube_cost.Gateway.{authenticated_tenant}

pub record Recommendation : Type 0 where
  pub tenant_id : String
  pub recommendation_id : String
  pub cluster_id : String
  pub namespace_uid : String
  pub target_kind : String
  pub target_uid : String
  pub recommendation_type : String
  pub safety_class : String
  pub status : String
  pub analysis_window_start : ℕ
  pub analysis_window_end : ℕ
  pub generated_at : ℕ
  pub expires_at : ℕ
  pub current_configuration : String
  pub proposed_configuration : String
  pub evidence : String
  pub currency : String
  pub monthly_gross_savings : String
  pub monthly_net_savings : String
  pub confidence : String
  pub risk_score : String
  pub policy_version : String
  pub model_version : String
  pub computation_version : String
  pub version : ℕ

pub record CommandRequest : Type 0 where
  pub actor_id : String
  pub reason : String
  pub expected_version : ℕ
  pub details : String

pub record WorkflowCommand : Type 0 where
  pub tenant_id : String
  pub recommendation_id : String
  pub action : String
  pub next_status : String
  pub actor_id : String
  pub reason : String
  pub expected_version : ℕ
  pub details : String
  pub occurred_at : ℕ

pub record ActionReference : Type 0 where
  pub tenant_id : String
  pub recommendation_id : String
  pub action_id : String
  pub action : String
  pub execution_id : String
  pub status : String
  pub occurred_at : ℕ

pub record ExecutionRequest : Type 0 where
  pub execution_id : String
  pub tenant_id : String
  pub recommendation_id : String
  pub action_id : String
  pub cluster_id : String
  pub namespace_uid : String
  pub target_kind : String
  pub target_uid : String
  pub recommendation_type : String
  pub safety_class : String
  pub policy_version : String
  pub current_configuration : String
  pub proposed_configuration : String
  pub evidence : String
  pub requested_at : ℕ
  pub status : String

pub record WorkflowResult : Type 0 where
  pub recommendation : Recommendation
  pub action : ActionReference
  pub execution_request : Option ExecutionRequest

-- `transitionAllowed`.
unfoldable pub transition_allowed : String → String → Bool
transition_allowed current next =
    if str_eq next "approved"
    then str_eq current "open" || str_eq current "acknowledged"
    else if str_eq next "rejected" || str_eq next "suppressed"
    then str_eq current "open" || str_eq current "acknowledged" || str_eq current "approved"
    else if str_eq next "executing"
    then str_eq current "approved"
    else false

-- The errors of `ApplyCommand`; the last three are those of the database.
pub data CommandError : Type 0 where
  recommendation_not_found version_conflict invalid_transition : CommandError
  query_failed recommendation_failed action_failed : CommandError

-- The result of `recommendation`.
pub data Lookup : Type 0 where
  row : Recommendation → Lookup
  no_row query_error : Lookup

pub data Result : Type 0 where
  done : WorkflowResult → Result
  error : CommandError → Result

-- What a command returns, and what it has inserted.
pub record Outcome : Type 0 where
  pub result : Result
  pub recommendations : List Recommendation
  pub actions : List ActionReference

abbrev pub failed : CommandError → Outcome
failed e = record { result = error e; recommendations = []; actions = [] }

-- The IDs that `uuid.NewString` returns for the action and the execution, and whether the inserts
-- of the recommendation and of the action succeed.
pub record Calls : Type 0 where
  pub action_id : String
  pub execution_id : String
  pub stored : Bool
  pub recorded : Bool

abbrev pub updated : Recommendation → WorkflowCommand → Recommendation
updated current c = record current { status = c.next_status; version = c.occurred_at }

abbrev pub is_execution : WorkflowCommand → Bool
is_execution c = str_eq c.action "request_execution"

abbrev pub action_for : WorkflowCommand → Calls → ActionReference
action_for c calls = record {
  tenant_id = c.tenant_id;
  recommendation_id = c.recommendation_id;
  action_id = calls.action_id;
  action = c.action;
  execution_id = if is_execution c then calls.execution_id else "";
  status = if is_execution c then "handoff_requested" else "recorded";
  occurred_at = c.occurred_at;
}

unfoldable pub execution_request_for : Recommendation → String → String → ℕ → ExecutionRequest
execution_request_for r action_id execution_id requested_at = record {
  execution_id = execution_id;
  tenant_id = r.tenant_id;
  recommendation_id = r.recommendation_id;
  action_id = action_id;
  cluster_id = r.cluster_id;
  namespace_uid = r.namespace_uid;
  target_kind = r.target_kind;
  target_uid = r.target_uid;
  recommendation_type = r.recommendation_type;
  safety_class = r.safety_class;
  policy_version = r.policy_version;
  current_configuration = r.current_configuration;
  proposed_configuration = r.proposed_configuration;
  evidence = r.evidence;
  requested_at = requested_at;
  status = "pending_executor";
}

abbrev pub done_with : Recommendation → WorkflowCommand → Calls → WorkflowResult
done_with current c calls = record {
  recommendation = updated current c;
  action = action_for c calls;
  execution_request =
      if is_execution c
      then some (execution_request_for current calls.action_id calls.execution_id c.occurred_at)
      else none;
}

-- The two inserts at the end of `ApplyCommand`.
abbrev pub insert_both : Recommendation → WorkflowCommand → Calls → Outcome
insert_both current c calls = if not calls.stored then failed recommendation_failed else record {
  result = if calls.recorded then done (done_with current c calls) else error action_failed;
  recommendations = updated current c ∷ [];
  actions = if calls.recorded then action_for c calls ∷ [] else [];
}

unfoldable pub apply_command : Lookup → WorkflowCommand → Calls → Outcome
apply_command no_row c calls = failed recommendation_not_found
apply_command query_error c calls = failed query_failed
apply_command (row current) c calls =
    if not (c.expected_version == 0) && not (c.expected_version == current.version)
    then failed version_conflict
    else if not (transition_allowed current.status c.next_status)
    then failed invalid_transition
    else insert_both current c calls

-- The four routes: approve, reject, suppress and execute.
pub data Route : Type 0 where
  approve reject suppress execute : Route

abbrev pub action_of : Route → String
action_of approve = "approve"
action_of reject = "reject"
action_of suppress = "suppress"
action_of execute = "request_execution"

abbrev pub next_status_of : Route → String
next_status_of approve = "approved"
next_status_of reject = "rejected"
next_status_of suppress = "suppressed"
next_status_of execute = "executing"

-- The body of a request: none, an empty one, one that is not a command's JSON, or a command.
pub data Body : Type 0 where
  no_body empty_body invalid_body : Body
  body : CommandRequest → Body

abbrev pub no_request : CommandRequest
no_request = record { actor_id = ""; reason = ""; expected_version = 0; details = "" }

unfoldable pub decode_command_request : Gateway.Library → Body → Reply CommandRequest
decode_command_request lib no_body = json no_request
decode_command_request lib empty_body = json no_request
decode_command_request lib invalid_body = problem (bad_request "request body must be valid JSON")
decode_command_request lib (body r) =
    json (record r { actor_id = lib.trim_space r.actor_id; reason = lib.trim_space r.reason })

unfoldable pub command_error : CommandError → Problem
command_error recommendation_not_found = record {
  status = 404;
  code = "not_found";
  detail = "recommendation not found";
}
command_error version_conflict = record {
  status = 409;
  code = "version_conflict";
  detail = "recommendation version does not match expected_version";
}
command_error invalid_transition = record {
  status = 409;
  code = "invalid_transition";
  detail = "recommendation status does not allow this transition";
}
command_error _ = record {
  status = 500;
  code = "command_failed";
  detail = "recommendation workflow command failed";
}

abbrev pub command_for : String → String → Route → CommandRequest → ℕ → WorkflowCommand
command_for tenant recommendation_id route r now = record {
  tenant_id = tenant;
  recommendation_id = recommendation_id;
  action = action_of route;
  next_status = next_status_of route;
  actor_id = r.actor_id;
  reason = r.reason;
  expected_version = r.expected_version;
  details = r.details;
  occurred_at = now;
}

-- `command`, up to the call of the repository: the command that it is called with.
unfoldable pub read_command :
    Gateway.Library
    → Gateway.Environment
    → Gateway.Request
    → Body
    → Route
    → ℕ
    → Reply WorkflowCommand
read_command lib env r input route now = do
  tenant ← authenticated_tenant lib env r now
  let recommendation_id = lib.trim_space (r.path_value "recommendation_id")
  refuse_if (str_eq recommendation_id "") 400 "invalid_request" "recommendation_id is required"
  request ← decode_command_request lib input
  json (command_for tenant recommendation_id route request now)

abbrev pub command_reply : Result → Reply WorkflowResult
command_reply (done r) = json r
command_reply (error e) = problem (command_error e)

-- `find` is the SELECT by tenant and ID.
unfoldable pub command :
    Gateway.Library
    → Gateway.Environment
    → (String → String → Lookup)
    → Gateway.Request
    → Body
    → Route
    → ℕ
    → Calls
    → Reply WorkflowResult
command lib env find r input route now calls = do
  c ← read_command lib env r input route now
  command_reply (apply_command (find c.tenant_id c.recommendation_id) c calls).result
