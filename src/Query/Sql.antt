-- ===== src/Query/Sql.antt =====
-- services/query/repository.go: the statements and their arguments. A SELECT is the record of its
-- parts; the conditions are the text that the code joins, with a `?` for each argument.
use kube_cost.Prelude.{
  ℕ, String, Bool, ◌||◌, Option, none, some, List, [], ◌∷◌, ◌++◌, str_eq, if◌then◌else◌,
}
use kube_cost.Query.{AnalyticsQuery, DataQualityQuery, RecommendationQuery, Decimal, Codecs}
use Prim.Native.String.{◌++◌ as append}

pub data Argument : Type 0 where
  text : String → Argument
  time : ℕ → Argument
  decimal : Decimal → Argument

-- `strings.Join(clauses, " AND ")`
abbrev pub join_and : List String → String
join_and [] = ""
join_and (c ∷ []) = c
join_and (c ∷ d ∷ cs) = append c (append " AND " (join_and (d ∷ cs)))

-- `if value != "" { clauses = append(…); args = append(…) }`
abbrev pub when_given {ℓ} : {A : Type ℓ} → String → A → List A
when_given value x = if str_eq value "" then [] else x ∷ []

unfoldable pub tenant_where : DataQualityQuery → String × List Argument
tenant_where query = (
  join_and ("tenant_id = ?" ∷ when_given query.cluster_id "cluster_id = ?"),
  text query.tenant_id ∷ when_given query.cluster_id (text query.cluster_id),
)

unfoldable pub analytics_where : AnalyticsQuery → String → String → String × List Argument
analytics_where query table_alias time_column =
    let prefix = append table_alias "." in
    (
      join_and (
          append prefix "tenant_id = ?"
          ∷ append prefix (append time_column " >= ?")
          ∷ append prefix (append time_column " < ?")
          ∷ when_given query.cluster_id (append prefix "cluster_id = ?")),
      text query.tenant_id
          ∷ time query.start
          ∷ time query.end
          ∷ when_given query.cluster_id (text query.cluster_id),
    )

abbrev pub analytics_metric_where : AnalyticsQuery → String → String × List Argument
analytics_metric_where query table_alias = analytics_where query table_alias "bucket_start"

abbrev pub analytics_cost_where : AnalyticsQuery → String → String × List Argument
analytics_cost_where query table_alias = analytics_where query table_alias "bucket_start"

-- The value of `decimal.NewFromString`, where the text is not empty; none is its error.
unfoldable pub savings_clause : Codecs → String → Option (List String × List Argument)
savings_clause codecs value =
    if str_eq value "" then some ([], []) else elim (codecs.parse_decimal value) [
      | none ↦ none
      | some d ↦ some ("monthly_net_savings >= ?" ∷ [], decimal d ∷ [])
    ]

abbrev pub given_clauses : RecommendationQuery → List String
given_clauses query =
    when_given query.cluster_id "cluster_id = ?"
    ++ when_given query.status "status = ?"
    ++ when_given query.recommendation_type "recommendation_type = ?"
    ++ when_given query.target_kind "target_kind = ?"
    ++ when_given query.target_uid "target_uid = ?"

abbrev pub given_arguments : RecommendationQuery → List Argument
given_arguments query =
    when_given query.cluster_id (text query.cluster_id)
    ++ when_given query.status (text query.status)
    ++ when_given query.recommendation_type (text query.recommendation_type)
    ++ when_given query.target_kind (text query.target_kind)
    ++ when_given query.target_uid (text query.target_uid)

unfoldable pub recommendations_where :
    Codecs → RecommendationQuery → Option (String × List Argument)
recommendations_where codecs query = elim (savings_clause codecs query.minimum_monthly_savings) [
  | none ↦ none
  | some (clauses, arguments) ↦ some (
    join_and ("tenant_id = ?" ∷ given_clauses query ++ clauses),
    text query.tenant_id ∷ given_arguments query ++ arguments,
  )
]

-- `analyticsGroupSpec`.
pub record AnalyticsGroupSpec : Type 0 where
  pub group_key_select : String
  pub group_value_select : String
  pub namespace_uid_select : String
  pub namespace_name_select : String
  pub group_by_suffix : String

abbrev pub cluster_group : String → AnalyticsGroupSpec
cluster_group cluster_id_column = record {
  group_key_select = "'cluster'";
  group_value_select = cluster_id_column;
  namespace_uid_select = "''";
  namespace_name_select = "''";
  group_by_suffix = "";
}

abbrev pub label_group : String → String → AnalyticsGroupSpec
label_group group_by namespace_alias =
    let column = append namespace_alias (append "." group_by) in
    record {
      group_key_select = append "'" (append group_by "'");
      group_value_select =
          append "if(empty(any("
            (append column (append ")), '__unassigned__', any(" (append column "))")));
      namespace_uid_select = "''";
      namespace_name_select = "''";
      group_by_suffix = append ", " column;
    }

abbrev pub namespace_group : String → String → AnalyticsGroupSpec
namespace_group uid_column name_column =
    let name = append "if(empty(any(" (
      append name_column
        (append ")), " (append uid_column (append ", any(" (append name_column "))"))))) in
    record {
      group_key_select = "'namespace'";
      group_value_select = name;
      namespace_uid_select = uid_column;
      namespace_name_select = name;
      group_by_suffix = append ", " uid_column;
    }

abbrev pub is_label : String → Bool
is_label group_by =
    str_eq group_by "team"
    || str_eq group_by "project"
    || str_eq group_by "environment"
    || str_eq group_by "cost_center"

unfoldable pub analytics_group : String → String → String → String → String → AnalyticsGroupSpec
analytics_group group_by cluster_id_column uid_column name_column namespace_alias =
    if str_eq group_by "cluster"
    then cluster_group cluster_id_column
    else if is_label group_by
    then label_group group_by namespace_alias
    else namespace_group uid_column name_column
