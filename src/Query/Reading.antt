-- ===== src/Query/Reading.antt =====
-- The three listings of the read API, read page by page with their cursors, give the whole table.
use kube_cost.Prelude.{ℕ, ◌≤◌, ◌<◌, String, some, List, length, take, drop, map, ◌≡◌, refl, ap, ◌∙◌}
use kube_cost.Http.{json}
use kube_cost.Gateway
use kube_cost.Query.{AnalyticsQuery, AnalyticsCursor, Codecs, normalized_analytics_fetch_limit}
use kube_cost.Query.Sql.{analytics_where, analytics_group}
use kube_cost.Query.Statements.{usage_sql, costs_sql, allocation_sql}
use kube_cost.Query.Rows.{
  UsageRecord, UsageRow, usage_row, CostRecord, CostRow, cost_row, AllocationRecord, AllocationRow,
  allocation_row,
}
use kube_cost.Query.Repository.{Connection, cost_metadata, allocation_metadata, no_metadata}
use kube_cost.Query.Repository
use kube_cost.Query.Cursors.{max_int, paginate}
use kube_cost.Query.Pages.{read_pages, read_pages_lem, map-take, map-drop}
use kube_cost.Query.Request.{Service, analytics_query}
use kube_cost.Query.Accepted.{IsLawful}
use kube_cost.Query.Results.{
  UsageResult, CostResult, AllocationResult, Quality, query_quality, usage_result, cost_result,
  allocation_result,
}
use kube_cost.Query.Handlers.{usage, costs, allocation}
use kube_cost.Query.Following.{IsSliced, IsFollowed, AllText, at, pages}

map_slice :
    {A : Type 0} {B : Type 0} (f : A → B) (n o : ℕ) (rows : List A)
    → map f (take n (drop o rows)) ≡ take n (drop o (map f rows))
map_slice f n o rows = map-take f n (drop o rows) ∙ ap (take n) (map-drop f o rows)

-- What `usage` answers at an offset.
abbrev pub usage_answer :
    Service → AnalyticsQuery → ℕ → List UsageRecord → Quality → ℕ → UsageResult
usage_answer s query now records quality o =
    let slice = take (normalized_analytics_fetch_limit query.limit) (drop o records) in
    usage_result s (at query o) now (map (usage_row s.codecs) slice) quality

abbrev pub usage_page : UsageResult → List UsageRow × String
usage_page r = (r.rows, r.next_cursor)

usage-slice :
    (codecs : Codecs) (db : Connection) (query : AnalyticsQuery) (records : List UsageRecord)
    (o : ℕ)
    → IsSliced db.usage_records (usage_sql query) records
    → Repository.usage codecs db (at query o)
      ≡ some (
          map
            (usage_row codecs)
            (take (normalized_analytics_fetch_limit query.limit) (drop o records)))
unfolding Repository.usage usage_sql analytics_where analytics_group
usage-slice codecs db query records o sliced =
    let page = sliced (normalized_analytics_fetch_limit query.limit) o in rw page refl

usage-answer :
    (s : Service) (db : Connection) (r : Gateway.Request) (now : ℕ) (query : AnalyticsQuery)
    (records : List UsageRecord) (quality : Quality) (o : ℕ)
    → IsSliced db.usage_records (usage_sql query) records
    → query_quality s db query now ≡ some quality
    → analytics_query s r "usage" now ≡ json (at query o)
    → usage s db r now ≡ json (usage_answer s query now records quality o)
unfolding usage query_quality
usage-answer s db r now query records quality o sliced good asked =
    rw (asked, usage-slice s.codecs db query records o sliced, good) refl

-- The rows of all pages, read with the cursor of each for the next until there is none, are exactly
-- the rows that the database has for the query, each once and in its order, where the requests are
-- accepted as one query and differ in their cursors only, the database answers with slices of one
-- result, of at most 2 ^ 63 - 1 rows, the quality of the data is found, and the codecs read back the
-- cursors that they write; as many pages as rows and one more are enough.
pub usage_pages :
    (s : Service) (IsText : AnalyticsCursor → Type 0)
    → IsLawful s.lib s.codecs IsText
    → (db : Connection) (request : String → Gateway.Request) (now : ℕ) (query : AnalyticsQuery)
      (records : List UsageRecord) (quality : Quality) (fuel : ℕ)
    → IsFollowed s request now query
    → AllText s IsText query "usage"
    → IsSliced db.usage_records (usage_sql query) records
    → query_quality s db query now ≡ some quality
    → length (map (usage_row s.codecs) records) ≤ max_int
    → length (map (usage_row s.codecs) records) < fuel
    → read_pages (λ c. usage s db (request c) now) usage_page fuel ""
      ≡ some (map (usage_row s.codecs) records)
usage_pages s IsText laws db request now query records quality fuel followed texts sliced good small
      enough =
    let table = map (usage_row s.codecs) records in
    let paged =
      pages s IsText laws request now query followed "usage" texts (λ c. usage s db (request c) now)
        usage_page table (usage_answer s query now records quality) small
        (λ c o. usage-answer s db (request c) now query records quality o sliced good)
        (λ o.
          ap (λ rows. paginate s.codecs rows (at query o) "usage")
            (map_slice (usage_row s.codecs) (normalized_analytics_fetch_limit query.limit) o
              records)) in
    read_pages_lem _ _ table _ _ paged fuel enough

-- What `costs` answers at an offset.
abbrev pub costs_answer : Service → AnalyticsQuery → ℕ → List CostRecord → Quality → ℕ → CostResult
costs_answer s query now records quality o =
    let slice = take (normalized_analytics_fetch_limit query.limit) (drop o records) in
    cost_result s (at query o) now (cost_metadata no_metadata slice) (map (cost_row s.codecs) slice)
      quality

abbrev pub costs_page : CostResult → List CostRow × String
costs_page r = (r.rows, r.next_cursor)

costs-slice :
    (codecs : Codecs) (db : Connection) (query : AnalyticsQuery) (records : List CostRecord) (o : ℕ)
    → IsSliced db.cost_records (costs_sql query) records
    → Repository.costs codecs db (at query o)
      ≡ some (
          (
            cost_metadata no_metadata
                (take (normalized_analytics_fetch_limit query.limit) (drop o records)),
            map
                (cost_row codecs)
                (take (normalized_analytics_fetch_limit query.limit) (drop o records)),
          ))
unfolding Repository.costs costs_sql analytics_where analytics_group
costs-slice codecs db query records o sliced =
    let page = sliced (normalized_analytics_fetch_limit query.limit) o in rw page refl

costs-answer :
    (s : Service) (db : Connection) (r : Gateway.Request) (now : ℕ) (query : AnalyticsQuery)
    (records : List CostRecord) (quality : Quality) (o : ℕ)
    → IsSliced db.cost_records (costs_sql query) records
    → query_quality s db query now ≡ some quality
    → analytics_query s r "costs" now ≡ json (at query o)
    → costs s db r now ≡ json (costs_answer s query now records quality o)
unfolding costs query_quality
costs-answer s db r now query records quality o sliced good asked =
    rw (asked, costs-slice s.codecs db query records o sliced, good) refl

-- The rows of all pages, read with the cursor of each for the next until there is none, are exactly
-- the rows that the database has for the query, each once and in its order, where the requests are
-- accepted as one query and differ in their cursors only, the database answers with slices of one
-- result, of at most 2 ^ 63 - 1 rows, the quality of the data is found, and the codecs read back the
-- cursors that they write; as many pages as rows and one more are enough.
pub costs_pages :
    (s : Service) (IsText : AnalyticsCursor → Type 0)
    → IsLawful s.lib s.codecs IsText
    → (db : Connection) (request : String → Gateway.Request) (now : ℕ) (query : AnalyticsQuery)
      (records : List CostRecord) (quality : Quality) (fuel : ℕ)
    → IsFollowed s request now query
    → AllText s IsText query "costs"
    → IsSliced db.cost_records (costs_sql query) records
    → query_quality s db query now ≡ some quality
    → length (map (cost_row s.codecs) records) ≤ max_int
    → length (map (cost_row s.codecs) records) < fuel
    → read_pages (λ c. costs s db (request c) now) costs_page fuel ""
      ≡ some (map (cost_row s.codecs) records)
costs_pages s IsText laws db request now query records quality fuel followed texts sliced good small
      enough =
    let table = map (cost_row s.codecs) records in
    let paged =
      pages s IsText laws request now query followed "costs" texts (λ c. costs s db (request c) now)
        costs_page table (costs_answer s query now records quality) small
        (λ c o. costs-answer s db (request c) now query records quality o sliced good)
        (λ o.
          ap (λ rows. paginate s.codecs rows (at query o) "costs")
            (map_slice (cost_row s.codecs) (normalized_analytics_fetch_limit query.limit) o
              records)) in
    read_pages_lem _ _ table _ _ paged fuel enough

-- What `allocation` answers at an offset.
abbrev pub allocation_answer :
    Service → AnalyticsQuery → ℕ → List AllocationRecord → Quality → ℕ → AllocationResult
allocation_answer s query now records quality o =
    let slice = take (normalized_analytics_fetch_limit query.limit) (drop o records) in
    allocation_result s (at query o) now (allocation_metadata no_metadata slice)
      (map (allocation_row s.codecs) slice) quality

abbrev pub allocation_page : AllocationResult → List AllocationRow × String
allocation_page r = (r.rows, r.next_cursor)

allocation-slice :
    (codecs : Codecs) (db : Connection) (query : AnalyticsQuery) (records : List AllocationRecord)
    (o : ℕ)
    → IsSliced db.allocation_records (allocation_sql query) records
    → Repository.allocation codecs db (at query o)
      ≡ some (
          (
            allocation_metadata no_metadata
                (take (normalized_analytics_fetch_limit query.limit) (drop o records)),
            map
                (allocation_row codecs)
                (take (normalized_analytics_fetch_limit query.limit) (drop o records)),
          ))
unfolding Repository.allocation allocation_sql analytics_where analytics_group
allocation-slice codecs db query records o sliced =
    let page = sliced (normalized_analytics_fetch_limit query.limit) o in rw page refl

allocation-answer :
    (s : Service) (db : Connection) (r : Gateway.Request) (now : ℕ) (query : AnalyticsQuery)
    (records : List AllocationRecord) (quality : Quality) (o : ℕ)
    → IsSliced db.allocation_records (allocation_sql query) records
    → query_quality s db query now ≡ some quality
    → analytics_query s r "allocation" now ≡ json (at query o)
    → allocation s db r now ≡ json (allocation_answer s query now records quality o)
unfolding allocation query_quality
allocation-answer s db r now query records quality o sliced good asked =
    rw (asked, allocation-slice s.codecs db query records o sliced, good) refl

-- The rows of all pages, read with the cursor of each for the next until there is none, are exactly
-- the rows that the database has for the query, each once and in its order, where the requests are
-- accepted as one query and differ in their cursors only, the database answers with slices of one
-- result, of at most 2 ^ 63 - 1 rows, the quality of the data is found, and the codecs read back the
-- cursors that they write; as many pages as rows and one more are enough.
pub allocation_pages :
    (s : Service) (IsText : AnalyticsCursor → Type 0)
    → IsLawful s.lib s.codecs IsText
    → (db : Connection) (request : String → Gateway.Request) (now : ℕ) (query : AnalyticsQuery)
      (records : List AllocationRecord) (quality : Quality) (fuel : ℕ)
    → IsFollowed s request now query
    → AllText s IsText query "allocation"
    → IsSliced db.allocation_records (allocation_sql query) records
    → query_quality s db query now ≡ some quality
    → length (map (allocation_row s.codecs) records) ≤ max_int
    → length (map (allocation_row s.codecs) records) < fuel
    → read_pages (λ c. allocation s db (request c) now) allocation_page fuel ""
      ≡ some (map (allocation_row s.codecs) records)
allocation_pages s IsText laws db request now query records quality fuel followed texts sliced good
      small enough =
    let table = map (allocation_row s.codecs) records in
    let paged =
      pages s IsText laws request now query followed "allocation" texts
        (λ c. allocation s db (request c) now) allocation_page table
        (allocation_answer s query now records quality) small
        (λ c o. allocation-answer s db (request c) now query records quality o sliced good)
        (λ o.
          ap (λ rows. paginate s.codecs rows (at query o) "allocation")
            (map_slice (allocation_row s.codecs) (normalized_analytics_fetch_limit query.limit) o
              records)) in
    read_pages_lem _ _ table _ _ paged fuel enough
