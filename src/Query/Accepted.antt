-- ===== src/Query/Accepted.antt =====
-- What an accepted query is, and that a cursor leads back to the query that it was made for.
use kube_cost.Prelude.{
  ℕ, ◌%◌, ◌<◌, String, true, false, not, ◌&&◌, Option, none, some, str_eq, eq_iff, if◌then◌else◌,
  ltb, ◌≡◌, refl, subst, arith, Bool-cases, inl, inr,
}
use kube_cost.Wire.{ℤ, pos, negsuc}
use kube_cost.Http.{json, >>=-eq-json, refuse_if, refuse_if-eq-json}
use kube_cost.Gateway
use kube_cost.Gateway.{authenticated_tenant}
use kube_cost.Query.{AnalyticsQuery, AnalyticsCursor, Codecs}
use kube_cost.Query.Cursors.{
  encode_analytics_cursor, decode_analytics_cursor, cursor_of, is_negative,
}
use kube_cost.Query.Pages.{cursor_at}
use kube_cost.Query.Request.{
  Service, trim, hour, is_whole_hour, valid_analytics_group_by, checked_window, checked_group,
  checked_limit, positive, first_query, with_cursor, matches, parse_required_time, bool_query,
}

-- What the code relies on in the codecs: a cursor whose texts JSON can carry, `IsText`, has a JSON
-- text, which is read back; base64 is read back and has no white space, and is not empty for a JSON
-- text.
pub record IsLawful (lib : Gateway.Library) (codecs : Codecs) (IsText : AnalyticsCursor → Type 0)
    : Type 0 where
  pub marshals :
      (c : AnalyticsCursor) → IsText c → (t : String) × (codecs.marshal_cursor c ≡ some t)
  pub unmarshal_marshal :
      (c : AnalyticsCursor) (t : String)
      → IsText c
      → codecs.marshal_cursor c ≡ some t
      → codecs.unmarshal_cursor t ≡ some c
  pub decode_encode : (t : String) → codecs.decode_base64 (codecs.encode_base64 t) ≡ some t
  pub trim_encode : (t : String) → lib.trim_space (codecs.encode_base64 t) ≡ codecs.encode_base64 t
  pub encode_named :
      (c : AnalyticsCursor) (t : String)
      → codecs.marshal_cursor c ≡ some t
      → str_eq (codecs.encode_base64 t) "" ≡ false
  pub trim_empty : lib.trim_space "" ≡ ""

module _ {lib : Gateway.Library} {codecs : Codecs} {IsText : AnalyticsCursor → Type 0}
    (laws : IsLawful lib codecs IsText) (c : AnalyticsCursor) (ok : IsText c) where
  encoded :
      (t : String) × (codecs.marshal_cursor c ≡ some t)
      × (encode_analytics_cursor codecs c ≡ codecs.encode_base64 t)
  unfolding encode_analytics_cursor
  encoded = let (t, e) = laws.marshals c ok in (t, e, ground (arith, e))

  decode_own :
      is_negative c.offset ≡ false
      → decode_analytics_cursor codecs (encode_analytics_cursor codecs c) ≡ some c
  unfolding decode_analytics_cursor
  decode_own h =
      let (t, m, e) = encoded in
      ground (arith, e, laws.decode_encode t, laws.unmarshal_marshal c t ok m, h)

  pub encode_named : str_eq (encode_analytics_cursor codecs c) "" ≡ false
  encode_named = let (t, m, e) = encoded in rw e (laws.encode_named c t m)

  pub encode_trimmed :
      lib.trim_space (encode_analytics_cursor codecs c) ≡ encode_analytics_cursor codecs c
  encode_trimmed = let (t, m, e) = encoded in rw e (laws.trim_encode t)

-- A cursor of texts that JSON can carry, whose offset is not negative, is decoded from its own
-- text.
pub decode-encode :
    (lib : Gateway.Library) (codecs : Codecs) (IsText : AnalyticsCursor → Type 0)
    → IsLawful lib codecs IsText
    → (c : AnalyticsCursor) → IsText c
    → is_negative c.offset ≡ false
    → decode_analytics_cursor codecs (encode_analytics_cursor codecs c) ≡ some c
decode-encode lib codecs IsText laws c ok h = decode_own laws c ok h

str_eq_refl : (a : String) → str_eq a a ≡ true
str_eq_refl a = (eq_iff a a).1 refl

matches_own :
    (s : Service) (query : AnalyticsQuery) (kind : String) (offset : ℤ)
    → matches s (cursor_of s.codecs query kind offset) query kind ≡ true
matches_own s query kind offset =
    rw
      (
        str_eq_refl query.tenant_id,
        str_eq_refl kind,
        str_eq_refl query.cluster_id,
        str_eq_refl (s.codecs.format_time query.start),
        str_eq_refl (s.codecs.format_time query.end),
        str_eq_refl query.group_by,
      )
      refl

pub with_cursor-cursor_at :
    (s : Service) (IsText : AnalyticsCursor → Type 0)
    → IsLawful s.lib s.codecs IsText
    → (query : AnalyticsQuery) (kind : String) (o : ℕ)
    → IsText (cursor_of s.codecs query kind (pos o))
    → with_cursor s query kind (cursor_at s.codecs query kind o)
      ≡ json (record query { offset = pos o })
unfolding with_cursor
with_cursor-cursor_at s IsText laws query kind o ok =
    let c = cursor_of s.codecs query kind (pos o) in
    ground (
      arith,
      encode_trimmed laws c ok,
      encode_named laws c ok,
      decode_own laws c ok refl,
      matches_own s query kind (pos o),
    )

pub with_cursor_empty :
    (s : Service) (IsText : AnalyticsCursor → Type 0)
    → IsLawful s.lib s.codecs IsText
    → (query : AnalyticsQuery) (kind : String) → with_cursor s query kind "" ≡ json query
unfolding with_cursor
with_cursor_empty s IsText laws query kind = rw (laws.trim_empty) refl

-- A query that the repository may be asked.
pub record IsValid (query : AnalyticsQuery) : Type 0 where
  pub ordered : query.start < query.end
  pub start_aligned : query.start % hour ≡ 0
  pub end_aligned : query.end % hour ≡ 0
  pub grouped : valid_analytics_group_by query.group_by ≡ true
  pub limited : (n : ℕ) × (query.limit ≡ pos n) × (0 < n)

checked_window_sound :
    (s : Service) (a b : String) {x : ℕ × ℕ}
    → checked_window s a b ≡ json x
    → (x.0 < x.1) × (x.0 % hour ≡ 0) × (x.1 % hour ≡ 0)
unfolding checked_window
checked_window_sound s a b {x = x} h =
    let (start, p, h1) = >>=-eq-json (parse_required_time s a "start") _ h in
    let (end, q, h2) = >>=-eq-json (parse_required_time s b "end") _ h1 in
    let (u, ordered, h3) =
      >>=-eq-json (refuse_if (not (ltb start end)) 400 "invalid_request" "start must be before end")
        _ h2 in
    let (u', aligned, h4) =
      >>=-eq-json
        (refuse_if (not (is_whole_hour start && is_whole_hour end)) 400 "invalid_request"
          "start and end must be aligned to whole hours")
        _ h3 in
    let o = refuse_if-eq-json _ 400 "invalid_request" "start must be before end" ordered in
    let a =
      refuse_if-eq-json _ 400 "invalid_request" "start and end must be aligned to whole hours"
        aligned in
    let same : (start, end) ≡ x = cc in
    subst (λ y. (y.0 < y.1) × (y.0 % hour ≡ 0) × (y.1 % hour ≡ 0)) same
      (ground (arith, o), ground (arith, a), ground (arith, a))

checked_group_sound :
    (s : Service) (a : String) {g : String}
    → checked_group s a ≡ json g
    → valid_analytics_group_by g ≡ true
unfolding checked_group
checked_group_sound s a {g = g} h =
    let raw = trim s a in
    let group_by = if str_eq raw "" then "namespace" else raw in
    let (u, ok, h1) =
      >>=-eq-json
        (refuse_if (not (valid_analytics_group_by group_by)) 400 "invalid_request"
          "group_by must be one of namespace, cluster, team, project, environment, cost_center")
        _ h in
    let v =
      refuse_if-eq-json _ 400 "invalid_request"
        "group_by must be one of namespace, cluster, team, project, environment, cost_center" ok in
    let same : group_by ≡ g = cc in
    subst (λ y. valid_analytics_group_by y ≡ true) same (ground (arith, v))

positive_sound : (o : Option ℤ) {l : ℤ} → positive o ≡ json l → (n : ℕ) × (l ≡ pos n) × (0 < n)
positive_sound none h = cc
positive_sound (some (negsuc n)) h = cc
positive_sound (some (pos n)) h = (n, ground (arith, h), ground (arith, h))

checked_limit_sound :
    (s : Service) (a : String) {l : ℤ}
    → checked_limit s a ≡ json l
    → (n : ℕ) × (l ≡ pos n) × (0 < n)
unfolding checked_limit
checked_limit_sound s a {l = l} h = elim (Bool-cases (str_eq (trim s a) "")) [
  | inl e ↦ (100, ground (arith, h, e), omega arith)
  | inr e ↦
      let read : positive (s.codecs.atoi (trim s a)) ≡ json l = ground (arith, h, e) in
      positive_sound (s.codecs.atoi (trim s a)) read
]

-- Every query that is accepted without its cursor has a window of whole hours that is not empty, a
-- known group, a positive limit and the offset 0, and the tenant is the authenticated one.
pub first_query-IsValid :
    (s : Service) (r : Gateway.Request) (now : ℕ) {query : AnalyticsQuery}
    → first_query s r now ≡ json query
    → IsValid query
      × (query.offset ≡ pos 0)
      × (authenticated_tenant s.lib s.env r now ≡ json query.tenant_id)
unfolding first_query
first_query-IsValid s r now {query = query} h =
    let (tenant, p, h1) = >>=-eq-json (authenticated_tenant s.lib s.env r now) _ h in
    let (bounds, w, h2) = >>=-eq-json (checked_window s (r.value "start") (r.value "end")) _ h1 in
    let (group_by, g, h3) = >>=-eq-json (checked_group s (r.value "group_by")) _ h2 in
    let (limit, l, h4) = >>=-eq-json (checked_limit s (r.value "limit")) _ h3 in
    let made : AnalyticsQuery = record {
      tenant_id = tenant;
      cluster_id = trim s (r.value "cluster_id");
      start = bounds.0;
      end = bounds.1;
      group_by = group_by;
      limit = limit;
      offset = pos 0;
      include_quality = bool_query s (r.value "include_quality");
    } in
    let same : made ≡ query = cc in
    let window = checked_window_sound s (r.value "start") (r.value "end") w in
    subst
      (λ q.
        IsValid q
        × (q.offset ≡ pos 0)
        × (authenticated_tenant s.lib s.env r now ≡ json q.tenant_id))
      same
      (
        record {
          ordered = window.0;
          start_aligned = window.1;
          end_aligned = window.2;
          grouped = checked_group_sound s (r.value "group_by") g;
          limited = checked_limit_sound s (r.value "limit") l;
        },
        refl,
        p,
      )
