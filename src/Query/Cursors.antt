-- ===== src/Query/Cursors.antt =====
-- services/query/server.go: `paginate` and the cursor of the next page.
use kube_cost.Prelude.{
  ℕ, suc, ◌+◌, ◌-◌, String, Bool, true, false, Option, none, some, List, if◌then◌else◌, leb, length,
  take,
}
use kube_cost.Wire.{ℤ, pos, negsuc}
use kube_cost.Query.{AnalyticsQuery, AnalyticsCursor, Codecs, normalized_analytics_limit}

abbrev pub max_int : ℕ
max_int = 9223372036854775807

-- `offset + limit` on 64 bits, for a limit that is not negative.
abbrev pub add_int : ℤ → ℕ → ℤ
add_int (pos o) l =
    if leb (o + l) max_int then pos (o + l) else negsuc (max_int + max_int + 1 - (o + l))
add_int (negsuc n) l = if leb l n then negsuc (n - l) else pos (l - suc n)

unfoldable pub encode_analytics_cursor : Codecs → AnalyticsCursor → String
encode_analytics_cursor codecs cursor = elim (codecs.marshal_cursor cursor) [
  | none ↦ ""
  | some data_text ↦ codecs.encode_base64 data_text
]

abbrev pub is_negative : ℤ → Bool
is_negative (pos n) = false
is_negative (negsuc n) = true

unfoldable pub decode_analytics_cursor : Codecs → String → Option AnalyticsCursor
decode_analytics_cursor codecs value = elim (codecs.decode_base64 value) [
  | none ↦ none
  | some data_text ↦ elim (codecs.unmarshal_cursor data_text) [
    | none ↦ none
    | some cursor ↦ if is_negative cursor.offset then none else some cursor
  ]
]

-- The cursor of a query at an offset.
abbrev pub cursor_of : Codecs → AnalyticsQuery → String → ℤ → AnalyticsCursor
cursor_of codecs query kind offset = record {
  kind = kind;
  tenant_id = query.tenant_id;
  cluster_id = query.cluster_id;
  start = codecs.format_time query.start;
  end = codecs.format_time query.end;
  group_by = query.group_by;
  offset = offset;
}

unfoldable pub paginate {ℓ} :
    {A : Type ℓ} → Codecs → List A → AnalyticsQuery → String → List A × String
paginate codecs rows query kind =
    let limit = normalized_analytics_limit query.limit in
    if leb (length rows) limit then (rows, "") else (
      take limit rows,
      encode_analytics_cursor codecs (cursor_of codecs query kind (add_int query.offset limit)),
    )
