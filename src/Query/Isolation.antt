-- ===== src/Query/Isolation.antt =====
-- A tenant's requests are answered from the tenant's rows: two databases that agree on the
-- statements that are filtered by the tenant give the same replies.
use kube_cost.Prelude.{
  ℕ, String, Option, List, [], ◌∷◌, ◌++◌, str_eq, ◌≡◌, refl, sym, ap, subst, arith, Bool-cases,
  All-append, Option-cases, inl, inr,
}
use kube_cost.Http.{json, >>=-eq-json, >>=_agree}
use kube_cost.Gateway
use kube_cost.Gateway.{authenticated_tenant}
use kube_cost.Query.{AnalyticsQuery, DataQualityQuery, RecommendationQuery, Codecs}
use kube_cost.Query.Sql.{Argument, recommendations_where, savings_clause, given_clauses}
use kube_cost.Query.Statements.{Statement, recommendations_sql}
use kube_cost.Query.Filtered.{IsSingle, IsFiltered, on_recommendations}
use kube_cost.Query.Rows.{usage_row, cost_row, allocation_row, scan_recommendation}
use kube_cost.Query.Repository.{
  Connection, SignalRecord, read_rows, read_with_metadata, cost_metadata, allocation_metadata,
  no_metadata, signal_of, first_found,
}
use kube_cost.Query.Repository
use kube_cost.Query.Cursors.{decode_analytics_cursor}
use kube_cost.Query.Request.{
  Service, first_query, with_cursor, analytics_query, matches, trim,
  recommendation_query_from_request, checked_limit, savings_are_decimal,
}
use kube_cost.Query.Accepted.{first_query-IsValid}
use kube_cost.Query.Results.{query_quality}
use kube_cost.Query.Handlers
use kube_cost.Query.Handlers.{or_fail, found_reply, answer_recommendations}
use kube_cost.Query.AllFiltered.{
  join_and-conjunction, given_clauses-IsSingle, savings_clause-IsSingle, usage-IsFiltered,
  costs-IsFiltered, allocation-IsFiltered, data_quality-IsFiltered,
}

abbrev pub Agree :
    {A : Type 0}
    → String
    → (Statement → List Argument → Option (List A))
    → (Statement → List Argument → Option (List A))
    → Type 0
Agree tenant f g =
    (st : Statement) (arguments : List Argument)
    → IsFiltered tenant st arguments
    → f st arguments ≡ g st arguments

pub record AgreeFor (tenant : String) (a b : Connection) : Type 0 where
  pub usage : Agree tenant a.usage_records b.usage_records
  pub cost : Agree tenant a.cost_records b.cost_records
  pub allocation : Agree tenant a.allocation_records b.allocation_records
  pub signal : Agree tenant a.signal_records b.signal_records
  pub recommendation : Agree tenant a.recommendation_records b.recommendation_records

-- The cursor does not change the tenant of a query.
with_cursor-tenant :
    (s : Service) (query : AnalyticsQuery) (kind raw : String) {q : AnalyticsQuery}
    → with_cursor s query kind raw ≡ json q
    → q.tenant_id ≡ query.tenant_id
unfolding with_cursor
with_cursor-tenant s query kind raw {q = q} h = elim (Bool-cases (str_eq (trim s raw) "")) [
  | inl e ↦ let same : query ≡ q = ground (arith, h, e) in ap (λ x. x.tenant_id) (sym same)
  | inr e ↦ elim (Option-cases (decode_analytics_cursor s.codecs (trim s raw))) [
    | inl d ↦ absurd (ground (arith, h, e, d))
    | inr (cursor, d) ↦ elim (Bool-cases (matches s cursor query kind)) [
      | inl m ↦
          let same : record query { offset = cursor.offset } ≡ q = ground (arith, h, e, d, m) in
          ap (λ x. x.tenant_id) (sym same)
      | inr m ↦ absurd (ground (arith, h, e, d, m))
    ]
  ]
]

pub analytics_query-tenant :
    (s : Service) (r : Gateway.Request) (kind : String) (now : ℕ) {query : AnalyticsQuery}
    → analytics_query s r kind now ≡ json query
    → authenticated_tenant s.lib s.env r now ≡ json query.tenant_id
unfolding analytics_query
analytics_query-tenant s r kind now {query = query} h =
    let (first, f, w) = >>=-eq-json (first_query s r now) _ h in
    let same = with_cursor-tenant s first kind (r.value "cursor") w in
    rw same ((first_query-IsValid s r now f).2)

module _ (codecs : Codecs) (a b : Connection) where
  usage_agree :
      (query : AnalyticsQuery)
      → AgreeFor query.tenant_id a b
      → Repository.usage codecs a query ≡ Repository.usage codecs b query
  unfolding Repository.usage
  usage_agree query h = ap (read_rows (usage_row codecs)) (h.usage _ _ (usage-IsFiltered query))

  costs_agree :
      (query : AnalyticsQuery)
      → AgreeFor query.tenant_id a b
      → Repository.costs codecs a query ≡ Repository.costs codecs b query
  unfolding Repository.costs
  costs_agree query h =
      ap (read_with_metadata (cost_metadata no_metadata) (cost_row codecs))
        (h.cost _ _ (costs-IsFiltered query))

  allocation_agree :
      (query : AnalyticsQuery)
      → AgreeFor query.tenant_id a b
      → Repository.allocation codecs a query ≡ Repository.allocation codecs b query
  unfolding Repository.allocation
  allocation_agree query h =
      ap (read_with_metadata (allocation_metadata no_metadata) (allocation_row codecs))
        (h.allocation _ _ (allocation-IsFiltered query))

  data_quality_agree :
      (query : DataQualityQuery)
      → AgreeFor query.tenant_id a b
      → Repository.data_quality a query ≡ Repository.data_quality b query
  unfolding Repository.data_quality
  data_quality_agree query h =
      ap (read_rows signal_of) (h.signal _ _ (data_quality-IsFiltered query))

  recommendation_agree :
      (tenant recommendation_id : String)
      → AgreeFor tenant a b
      → Repository.recommendation codecs a tenant recommendation_id
        ≡ Repository.recommendation codecs b tenant recommendation_id
  unfolding Repository.recommendation
  recommendation_agree tenant recommendation_id h = ap (first_found codecs) (
      h.recommendation _ _ (
        on_recommendations (record {
          from_table = refl;
          others = "recommendation_id = ?" ∷ [];
          single = (refl, tt);
          condition = refl;
          rest = _;
          bound = refl;
        })))

  recommendations_agree :
      (query : RecommendationQuery)
      → AgreeFor query.tenant_id a b
      → Repository.recommendations codecs a query ≡ Repository.recommendations codecs b query
  unfolding Repository.recommendations recommendations_sql recommendations_where
  recommendations_agree query h =
      elim (Option-cases (savings_clause codecs query.minimum_monthly_savings)) [
        | inl e ↦
            rw (Repository.recommendations, recommendations_sql, recommendations_where, e) refl
        | inr (x, e) ↦
            rw (Repository.recommendations, recommendations_sql, recommendations_where, e)
              (ap (read_rows (scan_recommendation codecs)) (
                h.recommendation _ _ (
                  on_recommendations (record {
                    from_table = refl;
                    others = given_clauses query ++ x.0;
                    single =
                        All-append IsSingle (given_clauses query) x.0 (given_clauses-IsSingle query)
                          (savings_clause-IsSingle codecs query.minimum_monthly_savings e);
                    condition = join_and-conjunction "tenant_id = ?" (given_clauses query ++ x.0);
                    rest = _;
                    bound = refl;
                  }))))
      ]

quality_agree :
    (s : Service) (a b : Connection) (query : AnalyticsQuery) (now : ℕ)
    → AgreeFor query.tenant_id a b
    → query_quality s a query now ≡ query_quality s b query now
unfolding query_quality
quality_agree s a b query now h =
    rw
      (data_quality_agree s.codecs a b
        (record {
          tenant_id = query.tenant_id;
          cluster_id = query.cluster_id;
          freshness_window = s.window;
        })
        h)
      refl

recommendation_query-tenant :
    (s : Service) (r : Gateway.Request) (tenant : String) {q : RecommendationQuery}
    → recommendation_query_from_request s r tenant ≡ json q
    → q.tenant_id ≡ tenant
unfolding recommendation_query_from_request
recommendation_query-tenant s r tenant {q = q} h =
    let (limit, l, h1) = >>=-eq-json (checked_limit s (r.value "limit")) _ h in
    let (u, d, h2) =
      >>=-eq-json (savings_are_decimal s (trim s (r.value "min_monthly_savings"))) _ h1 in
    ground (arith, h2)

module _ (s : Service) (a b : Connection) (r : Gateway.Request) (now : ℕ) (tenant : String) where
  agree_on :
      {q : String}
      → AgreeFor tenant a b
      → authenticated_tenant s.lib s.env r now ≡ json tenant
      → authenticated_tenant s.lib s.env r now ≡ json q
      → AgreeFor q a b
  agree_on {q = q} h t u = let same : tenant ≡ q = cc in subst (λ x. AgreeFor x a b) same h

  usage_isolated :
      AgreeFor tenant a b
      → authenticated_tenant s.lib s.env r now ≡ json tenant
      → Handlers.usage s a r now ≡ Handlers.usage s b r now
  unfolding Handlers.usage
  usage_isolated h t = >>=_agree (analytics_query s r "usage" now) _ _ λ q e.
      let agree = agree_on h t (analytics_query-tenant s r "usage" now e) in
      rw (usage_agree s.codecs a b q agree, quality_agree s a b q now agree) refl

  costs_isolated :
      AgreeFor tenant a b
      → authenticated_tenant s.lib s.env r now ≡ json tenant
      → Handlers.costs s a r now ≡ Handlers.costs s b r now
  unfolding Handlers.costs
  costs_isolated h t = >>=_agree (analytics_query s r "costs" now) _ _ λ q e.
      let agree = agree_on h t (analytics_query-tenant s r "costs" now e) in
      rw (costs_agree s.codecs a b q agree, quality_agree s a b q now agree) refl

  allocation_isolated :
      AgreeFor tenant a b
      → authenticated_tenant s.lib s.env r now ≡ json tenant
      → Handlers.allocation s a r now ≡ Handlers.allocation s b r now
  unfolding Handlers.allocation
  allocation_isolated h t = >>=_agree (analytics_query s r "allocation" now) _ _ λ q e.
      let agree = agree_on h t (analytics_query-tenant s r "allocation" now e) in
      rw (allocation_agree s.codecs a b q agree, quality_agree s a b q now agree) refl

  data_quality_isolated :
      AgreeFor tenant a b
      → authenticated_tenant s.lib s.env r now ≡ json tenant
      → Handlers.data_quality s a r now ≡ Handlers.data_quality s b r now
  unfolding Handlers.data_quality
  data_quality_isolated h t = >>=_agree (authenticated_tenant s.lib s.env r now) _ _ λ u e.
      rw
        (data_quality_agree s.codecs a b
          (record {
            tenant_id = u;
            cluster_id = trim s (r.value "cluster_id");
            freshness_window = s.window;
          })
          (agree_on h t e))
        refl

  recommendations_isolated :
      AgreeFor tenant a b
      → authenticated_tenant s.lib s.env r now ≡ json tenant
      → Handlers.recommendations s a r now ≡ Handlers.recommendations s b r now
  unfolding Handlers.recommendations
  recommendations_isolated h t = >>=_agree (authenticated_tenant s.lib s.env r now) _ _ λ u e.
      >>=_agree (recommendation_query_from_request s r u) (answer_recommendations s a u now)
        (answer_recommendations s b u now)
        λ q f.
          let agree = agree_on h t (rw (recommendation_query-tenant s r u f) e) in
          rw (recommendations_agree s.codecs a b q agree) refl

  recommendation_isolated :
      AgreeFor tenant a b
      → authenticated_tenant s.lib s.env r now ≡ json tenant
      → Handlers.recommendation s a r now ≡ Handlers.recommendation s b r now
  unfolding Handlers.recommendation
  recommendation_isolated h t = >>=_agree (authenticated_tenant s.lib s.env r now) _ _ λ u e.
      rw
        (recommendation_agree s.codecs a b u (trim s (r.path_value "recommendation_id"))
          (agree_on h t e))
        refl

-- A request that is taken for a tenant gets the same reply, of each of the six listings and
-- reports, from any two databases that agree on the statements that are filtered by the tenant: each
-- of their tables of facts is read under a conjunction of tests of one column each, the first of
-- which compares `tenant_id` with an argument, which is the tenant.
pub replies_isolated :
    (s : Service) (a b : Connection) (r : Gateway.Request) (now : ℕ) (tenant : String)
    → AgreeFor tenant a b
    → authenticated_tenant s.lib s.env r now ≡ json tenant
    → (Handlers.usage s a r now ≡ Handlers.usage s b r now)
      × (Handlers.costs s a r now ≡ Handlers.costs s b r now)
      × (Handlers.allocation s a r now ≡ Handlers.allocation s b r now)
      × (Handlers.data_quality s a r now ≡ Handlers.data_quality s b r now)
      × (Handlers.recommendations s a r now ≡ Handlers.recommendations s b r now)
      × (Handlers.recommendation s a r now ≡ Handlers.recommendation s b r now)
replies_isolated s a b r now tenant h t = (
  usage_isolated s a b r now tenant h t,
  costs_isolated s a b r now tenant h t,
  allocation_isolated s a b r now tenant h t,
  data_quality_isolated s a b r now tenant h t,
  recommendations_isolated s a b r now tenant h t,
  recommendation_isolated s a b r now tenant h t,
)
