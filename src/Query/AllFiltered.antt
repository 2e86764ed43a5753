-- ===== src/Query/AllFiltered.antt =====
-- services/query/repository.go: the statements of the listings and reports are filtered by the tenant.
use kube_cost.Prelude.{
  String, List, [], ◌∷◌, str_eq, ◌≡◌, refl, ap, arith, Bool-cases, All, All-append, ◌∙◌, some, inl,
  inr,
}
use kube_cost.Query.{AnalyticsQuery, DataQualityQuery, RecommendationQuery, Codecs}
use kube_cost.Query.Sql.{
  Argument, tenant_where, analytics_where, savings_clause, join_and, given_clauses, when_given,
}
use kube_cost.Query.Statements.{Statement, usage_sql, costs_sql, allocation_sql, data_quality_sql}
use kube_cost.Query.Filtered.{
  conjunction, IsSingle, costs_table, IsFiltered, on_metrics, on_costs, on_both,
}
use Prim.Native.String.{◌++◌ as append}

pub join_and-conjunction : (c : String) (cs : List String) → join_and (c ∷ cs) ≡ conjunction c cs
join_and-conjunction c [] = refl
join_and-conjunction c (d ∷ ds) = ap (λ t. append c (append " AND " t)) (join_and-conjunction d ds)

when_given-IsSingle : (value c : String) → IsSingle c → All IsSingle (when_given value c)
when_given-IsSingle value c h = ground (arith, h)

pub given_clauses-IsSingle : (query : RecommendationQuery) → All IsSingle (given_clauses query)
given_clauses-IsSingle query =
    let one = λ (value : String) (c : String) (h : IsSingle c). when_given-IsSingle value c h in
    All-append IsSingle _ (when_given query.target_uid "target_uid = ?")
      (All-append IsSingle _ (when_given query.target_kind "target_kind = ?")
        (All-append IsSingle _ (when_given query.recommendation_type "recommendation_type = ?")
          (All-append IsSingle (when_given query.cluster_id "cluster_id = ?")
            (when_given query.status "status = ?") (one query.cluster_id "cluster_id = ?" refl)
            (one query.status "status = ?" refl))
          (one query.recommendation_type "recommendation_type = ?" refl))
        (one query.target_kind "target_kind = ?" refl))
      (one query.target_uid "target_uid = ?" refl)

pub savings_clause-IsSingle :
    (codecs : Codecs) (value : String) {x : List String × List Argument}
    → savings_clause codecs value ≡ some x
    → All IsSingle x.0
unfolding savings_clause
savings_clause-IsSingle codecs value e = ground arith

abbrev cm_tests : AnalyticsQuery → List String
cm_tests query =
    "cm.bucket_start >= ?" ∷ "cm.bucket_start < ?" ∷ when_given query.cluster_id "cm.cluster_id = ?"

abbrev nc_tests : AnalyticsQuery → List String
nc_tests query =
    "nc.bucket_start >= ?" ∷ "nc.bucket_start < ?" ∷ when_given query.cluster_id "nc.cluster_id = ?"

module _ (query : AnalyticsQuery) where
  pub usage-IsFiltered : IsFiltered query.tenant_id (usage_sql query).0 (usage_sql query).1
  unfolding usage_sql analytics_where
  usage-IsFiltered = on_metrics (record {
    from_table = refl;
    others = cm_tests query;
    single = (refl, (refl, when_given-IsSingle query.cluster_id "cm.cluster_id = ?" refl));
    condition = join_and-conjunction "cm.tenant_id = ?" (cm_tests query);
    rest = _;
    bound = refl;
  })

  cost-condition :
      (st : Statement) (arguments : List Argument)
      → st.from ≡ costs_table
      → (st.where_text, arguments) ≡ analytics_where query "nc" "bucket_start"
      → IsFiltered query.tenant_id st arguments
  unfolding analytics_where
  cost-condition st arguments f e = on_costs (record {
    from_table = f;
    others = nc_tests query;
    single = (refl, (refl, when_given-IsSingle query.cluster_id "nc.cluster_id = ?" refl));
    condition = ap (λ p. p.0) e ∙ join_and-conjunction "nc.tenant_id = ?" (nc_tests query);
    rest = _;
    bound = ap (λ p. p.1) e;
  })

  pub costs-IsFiltered : IsFiltered query.tenant_id (costs_sql query).0 (costs_sql query).1
  unfolding costs_sql analytics_where
  costs-IsFiltered = cost-condition (costs_sql query).0 (costs_sql query).1 refl refl

  pub allocation-IsFiltered :
      IsFiltered query.tenant_id (allocation_sql query).0 (allocation_sql query).1
  unfolding allocation_sql analytics_where
  allocation-IsFiltered = cost-condition (allocation_sql query).0 (allocation_sql query).1 refl refl

pub data_quality-IsFiltered :
    (query : DataQualityQuery)
    → IsFiltered query.tenant_id (data_quality_sql query).0 (data_quality_sql query).1
unfolding data_quality_sql tenant_where
data_quality-IsFiltered query = elim (Bool-cases (str_eq query.cluster_id "")) [
  | inl e ↦ on_both (
      inl
        (rw (data_quality_sql, tenant_where, e) refl, rw (data_quality_sql, tenant_where, e) refl))
  | inr e ↦ on_both (
      inr (
        query.cluster_id,
        rw (data_quality_sql, tenant_where, e) refl,
        rw (data_quality_sql, tenant_where, e) refl,
      ))
]
