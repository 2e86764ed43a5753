-- ===== src/Workflow/Rows.antt =====
-- services/workflow/repository.go: the rows that are read and inserted. The IDs of actions are texts,
-- as `uuid.NewString` makes them and `uuid.MustParse` reads them back.
use kube_cost.Prelude.{ℕ, String, Option, none, some, List, [], ◌∷◌, ◌≡◌, refl, length}
use kube_cost.Query.{Decimal}
use kube_cost.Query.Rows.{RecommendationRecord}
use kube_cost.Workflow.{Recommendation, WorkflowCommand, ActionReference}
use Prim.Native.String.{◌++◌ as append}

pub data Cell : Type 0 where
  text : String → Cell
  time number : ℕ → Cell
  decimal : Decimal → Cell

abbrev pub recommendation_columns : List String
recommendation_columns =
    "tenant_id" ∷ "recommendation_id" ∷ "cluster_id" ∷ "namespace_uid" ∷ "target_kind"
    ∷ "target_uid" ∷ "recommendation_type" ∷ "safety_class" ∷ "status" ∷ "analysis_window_start"
    ∷ "analysis_window_end" ∷ "generated_at" ∷ "expires_at" ∷ "current_configuration"
    ∷ "proposed_configuration" ∷ "evidence" ∷ "currency" ∷ "monthly_gross_savings"
    ∷ "monthly_net_savings" ∷ "confidence" ∷ "risk_score" ∷ "policy_version" ∷ "model_version"
    ∷ "computation_version" ∷ "version" ∷ []

abbrev pub action_columns : List String
action_columns =
    "tenant_id" ∷ "recommendation_id" ∷ "action_id" ∷ "action" ∷ "actor_type" ∷ "actor_id"
    ∷ "reason" ∷ "occurred_at" ∷ "execution_id" ∷ "result" ∷ "details" ∷ []

-- `joinColumns`, in a loop with the text so far.
unfoldable pub join_more : String → List String → String
join_more result [] = result
join_more result (c ∷ cs) = join_more (append result (append ", " c)) cs

unfoldable pub join_columns : List String → String
unfolding join_more
join_columns [] = ""
join_columns (c ∷ cs) = join_more c cs

abbrev pub cells_of : Recommendation → Decimal → Decimal → Decimal → Decimal → List Cell
cells_of r gross net confidence risk =
    text r.tenant_id
    ∷ text r.recommendation_id
    ∷ text r.cluster_id
    ∷ text r.namespace_uid
    ∷ text r.target_kind
    ∷ text r.target_uid
    ∷ text r.recommendation_type
    ∷ text r.safety_class
    ∷ text r.status
    ∷ time r.analysis_window_start
    ∷ time r.analysis_window_end
    ∷ time r.generated_at
    ∷ time r.expires_at
    ∷ text r.current_configuration
    ∷ text r.proposed_configuration
    ∷ text r.evidence
    ∷ text r.currency
    ∷ decimal gross
    ∷ decimal net
    ∷ decimal confidence
    ∷ decimal risk
    ∷ text r.policy_version
    ∷ text r.model_version
    ∷ text r.computation_version
    ∷ number r.version
    ∷ []

-- `require` is decimal.RequireFromString, which panics on a text that is not a decimal number: none.
abbrev pub with_decimal : {A : Type 0} → Option Decimal → (Decimal → Option A) → Option A
with_decimal none f = none
with_decimal (some d) f = f d

unfoldable pub recommendation_row : (String → Option Decimal) → Recommendation → Option (List Cell)
recommendation_row require r = with_decimal (require r.monthly_gross_savings) λ gross.
    with_decimal (require r.monthly_net_savings) λ net.
      with_decimal (require r.confidence) λ confidence.
        with_decimal (require r.risk_score) λ risk. some (cells_of r gross net confidence risk)

-- `scanRecommendation`, of a row as it is read.
unfoldable pub scan_recommendation : (Decimal → String) → RecommendationRecord → Recommendation
scan_recommendation show r = record {
  tenant_id = r.tenant_id;
  recommendation_id = r.recommendation_id;
  cluster_id = r.cluster_id;
  namespace_uid = r.namespace_uid;
  target_kind = r.target_kind;
  target_uid = r.target_uid;
  recommendation_type = r.recommendation_type;
  safety_class = r.safety_class;
  status = r.status;
  analysis_window_start = r.analysis_window_start;
  analysis_window_end = r.analysis_window_end;
  generated_at = r.generated_at;
  expires_at = r.expires_at;
  current_configuration = r.current_configuration;
  proposed_configuration = r.proposed_configuration;
  evidence = r.evidence;
  currency = r.currency;
  monthly_gross_savings = show r.monthly_gross_savings;
  monthly_net_savings = show r.monthly_net_savings;
  confidence = show r.confidence;
  risk_score = show r.risk_score;
  policy_version = r.policy_version;
  model_version = r.model_version;
  computation_version = r.computation_version;
  version = r.version;
}

-- The row of `insertAction`, with the text of the details.
unfoldable pub action_row : WorkflowCommand → ActionReference → String → List Cell
action_row c a details =
    text a.tenant_id
    ∷ text a.recommendation_id
    ∷ text a.action_id
    ∷ text a.action
    ∷ text "user"
    ∷ text c.actor_id
    ∷ text c.reason
    ∷ time a.occurred_at
    ∷ text a.execution_id
    ∷ text a.status
    ∷ text details
    ∷ []

-- A row of an action has a cell for each column.
pub length-action_row :
    (c : WorkflowCommand) (a : ActionReference) (details : String)
    → length (action_row c a details) ≡ length action_columns
unfolding action_row
length-action_row c a details = refl

-- A recommendation that was read can be inserted again, with a cell for each column, where printed
-- decimal numbers are read back.
pub recommendation_row-scan_recommendation :
    (show : Decimal → String) (require : String → Option Decimal) (r : RecommendationRecord)
    → ((d : Decimal) → require (show d) ≡ some d)
    → (cells : List Cell) × (recommendation_row require (scan_recommendation show r) ≡ some cells)
      × (length cells ≡ length recommendation_columns)
unfolding recommendation_row scan_recommendation
recommendation_row-scan_recommendation show require r back = (
  cells_of (scan_recommendation show r) r.monthly_gross_savings r.monthly_net_savings r.confidence
      r.risk_score,
  rw
      (
        back r.monthly_gross_savings,
        back r.monthly_net_savings,
        back r.confidence,
        back r.risk_score,
      )
      refl,
  refl,
)
