-- ===== src/Query/Filtered.antt =====
-- services/query/repository.go: what it means for a statement to read the rows of one tenant only.
-- The tables are those of the ClickHouse schema; the texts are written out, and not taken from the
-- functions that build the statements.
use kube_cost.Prelude.{String, true, List, [], ◌∷◌, ◌≡◌, ◌⊎◌, All, inl, inr}
use kube_cost.Prelude.Dict.{mem}
use kube_cost.Query.Sql.{Argument, text}
use kube_cost.Query.Statements.{Statement}
use Prim.Native.String.{◌++◌ as append}

-- `c AND d AND …`
abbrev pub conjunction : String → List String → String
conjunction c [] = c
conjunction c (d ∷ ds) = append c (append " AND " (conjunction d ds))

-- The tests that may stand beside the one of the tenant: of one column each.
abbrev pub single_tests : List String
single_tests =
    "cm.bucket_start >= ?" ∷ "cm.bucket_start < ?" ∷ "cm.cluster_id = ?" ∷ "nc.bucket_start >= ?"
    ∷ "nc.bucket_start < ?" ∷ "nc.cluster_id = ?" ∷ "cluster_id = ?" ∷ "status = ?"
    ∷ "recommendation_type = ?" ∷ "target_kind = ?" ∷ "target_uid = ?" ∷ "monthly_net_savings >= ?"
    ∷ "recommendation_id = ?" ∷ []

abbrev pub IsSingle : String → Type 0
IsSingle c = mem c single_tests ≡ true

-- A SELECT from this table whose rows pass the test of the tenant and some others, and whose first
-- argument is the tenant.
pub record OneTable (tenant table tenant_test : String) (st : Statement) (arguments : List Argument)
    : Type 0 where
  pub from_table : st.from ≡ table
  pub others : List String
  pub single : All IsSingle others
  pub condition : st.where_text ≡ conjunction tenant_test others
  pub rest : List Argument
  pub bound : arguments ≡ text tenant ∷ rest

-- The two tables of the metrics, each under the condition.
abbrev pub both_tables : String → String
both_tables condition =
    append
      "(SELECT 'container_metrics_10s' AS source, '10s' AS grain, cluster_id, bucket_start, ingested_at FROM kube_cost.container_metrics_10s WHERE "
      (append condition (
        append
          " UNION ALL SELECT 'node_metrics_10s' AS source, '10s' AS grain, cluster_id, bucket_start, ingested_at FROM kube_cost.node_metrics_10s WHERE "
          (append condition ")")))

-- A SELECT from both tables for the tenant, or for one of the tenant's clusters, with the arguments
-- of each table in their places.
abbrev pub TwoTables : String → Statement → List Argument → Type 0
TwoTables tenant st arguments =
    ((st.from ≡ both_tables "tenant_id = ?") × (arguments ≡ text tenant ∷ text tenant ∷ []))
    ⊎ ((cluster : String) × (st.from ≡ both_tables "tenant_id = ? AND cluster_id = ?")
        × (arguments ≡ text tenant ∷ text cluster ∷ text tenant ∷ text cluster ∷ []))

-- The joined table of the names of namespaces is restricted to the same tenant.
abbrev pub metrics_table : String
metrics_table =
    "kube_cost.container_metrics_10s AS cm LEFT JOIN kube_cost.current_namespace AS ns ON cm.tenant_id = ns.tenant_id AND cm.cluster_id = ns.cluster_id AND cm.namespace_uid = ns.namespace_uid"

abbrev pub costs_table : String
costs_table =
    "kube_cost.current_namespace_cost_1h AS nc LEFT JOIN kube_cost.current_namespace AS ns ON nc.tenant_id = ns.tenant_id AND nc.cluster_id = ns.cluster_id AND nc.namespace_uid = ns.namespace_uid"

pub data IsFiltered (tenant : String) (st : Statement) (arguments : List Argument) : Type 0 where
  on_metrics :
      OneTable tenant metrics_table "cm.tenant_id = ?" st arguments → IsFiltered tenant st arguments
  on_costs :
      OneTable tenant costs_table "nc.tenant_id = ?" st arguments → IsFiltered tenant st arguments
  on_recommendations :
      OneTable tenant "kube_cost.recommendation FINAL" "tenant_id = ?" st arguments
      → IsFiltered tenant st arguments
  on_both : TwoTables tenant st arguments → IsFiltered tenant st arguments

-- The first argument is the tenant.
pub IsFiltered-first :
    (tenant : String) (st : Statement) (arguments : List Argument)
    → IsFiltered tenant st arguments
    → (rest : List Argument) × (arguments ≡ text tenant ∷ rest)
IsFiltered-first tenant st arguments (on_metrics t) = (t.rest, t.bound)
IsFiltered-first tenant st arguments (on_costs t) = (t.rest, t.bound)
IsFiltered-first tenant st arguments (on_recommendations t) = (t.rest, t.bound)
IsFiltered-first tenant st arguments (on_both (inl (f, b))) = (text tenant ∷ [], b)
IsFiltered-first tenant st arguments (on_both (inr (cluster, f, b))) =
    (text cluster ∷ text tenant ∷ text cluster ∷ [], b)
