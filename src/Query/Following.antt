-- ===== src/Query/Following.antt =====
-- What a listing that is followed by its cursors relies on, and that its answers are the pages.
use kube_cost.Prelude.{
  ℕ, ◌≤◌, ◌<◌, String, Option, some, List, length, take, drop, ◌≡◌, refl, ap, ◌∙◌, arith,
}
use kube_cost.Wire.{ℤ, pos, negsuc}
use kube_cost.Http.{Reply, json}
use kube_cost.Gateway
use kube_cost.Query.{
  AnalyticsQuery, AnalyticsCursor, normalized_analytics_limit, normalized_analytics_fetch_limit,
}
use kube_cost.Query.Sql.{Argument}
use kube_cost.Query.Statements.{Statement}
use kube_cost.Query.Cursors.{max_int, paginate, cursor_of}
use kube_cost.Query.Pages.{IsPaged, cursor_at, paginate-slice}
use kube_cost.Query.Request.{Service, first_query, with_cursor, analytics_query}
use kube_cost.Query.Accepted.{
  IsLawful, with_cursor-cursor_at, with_cursor_empty, encode_named, first_query-IsValid,
}

-- What LIMIT and OFFSET mean in the database, for one statement and its arguments: a slice of the
-- rows that there are, in one order.
abbrev pub IsSliced {ℓ} :
    {A : Type ℓ}
    → (Statement → List Argument → Option (List A))
    → Statement × List Argument
    → List A
    → Type ℓ
IsSliced send (statement, arguments) rows =
    (limit offset : ℕ)
    → send (record statement { limit = some limit; offset = offset }) arguments
      ≡ some (take limit (drop offset rows))

-- Requests that ask for one query and differ in their cursors.
pub record IsFollowed (s : Service) (request : String → Gateway.Request) (now : ℕ)
    (query : AnalyticsQuery) : Type 0 where
  pub same : (c : String) → first_query s (request c) now ≡ json query
  pub carried : (c : String) → (request c).value "cursor" ≡ c

abbrev pub at : AnalyticsQuery → ℕ → AnalyticsQuery
at query o = record query { offset = pos o }

normalized_positive : (l : ℤ) → 0 < normalized_analytics_limit l
unfolding normalized_analytics_limit
normalized_positive (pos n) = ground arith
normalized_positive (negsuc n) = omega arith

-- All cursors of a query can be carried by JSON.
abbrev pub AllText : Service → (AnalyticsCursor → Type 0) → AnalyticsQuery → String → Type 0
AllText s IsText query kind = (o : ℕ) → IsText (cursor_of s.codecs query kind (pos o))

module _ (s : Service) (IsText : AnalyticsCursor → Type 0) (laws : IsLawful s.lib s.codecs IsText)
    (request : String → Gateway.Request) (now : ℕ) (query : AnalyticsQuery)
    (followed : IsFollowed s request now query) (kind : String)
    (texts : AllText s IsText query kind) where
  asked_at :
      (o : ℕ)
      → analytics_query s (request (cursor_at s.codecs query kind o)) kind now ≡ json (at query o)
  unfolding analytics_query
  asked_at o =
      let c = cursor_at s.codecs query kind o in
      rw (followed.same c, followed.carried c)
        (with_cursor-cursor_at s IsText laws query kind o (texts o))

  asked_first : analytics_query s (request "") kind now ≡ json (at query 0)
  unfolding analytics_query
  asked_first =
      let start = (first_query-IsValid s (request "") now (followed.same "")).1 in
      let here : with_cursor s query kind "" ≡ json query =
        with_cursor_empty s IsText laws query kind in
      let e : query ≡ at query 0 = ground (arith, start) in
      rw (followed.same "", followed.carried "", here) (ap json e)

  pub pages :
      {R : Type 0} {A : Type 0} (ask : String → Reply R) (page_of : R → List A × String)
      (table : List A) (answer : ℕ → R)
      → length table ≤ max_int
      → ((c : String) (o : ℕ)
          → analytics_query s (request c) kind now ≡ json (at query o)
          → ask c ≡ json (answer o))
      → ((o : ℕ)
          → page_of (answer o)
            ≡ paginate s.codecs
                (take (normalized_analytics_fetch_limit query.limit) (drop o table))
                (at query o)
                kind)
      → IsPaged ask page_of table
          (normalized_analytics_limit query.limit)
          (cursor_at s.codecs query kind)
  pages ask page_of table answer small asked paged = record {
    answer = answer;
    shape = λ o. paged o ∙ paginate-slice s.codecs table (at query o) kind o refl small;
    first = asked "" 0 asked_first;
    asked = λ o. asked (cursor_at s.codecs query kind o) o (asked_at o);
    named = λ o. encode_named laws (cursor_of s.codecs query kind (pos o)) (texts o);
    progress = normalized_positive query.limit;
  }
