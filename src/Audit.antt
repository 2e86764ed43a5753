-- ===== src/Audit.antt =====
-- services/audit: the log of events, which keeps the newest, and its handlers. The random ID of
-- `newAuditID` and whether details are valid JSON are arguments; details are a text, which is
-- copied.
pub mod Log
use kube_cost.Prelude.{
  ℕ, zero, suc, ◌-◌, String, Bool, true, false, not, ◌&&◌, ◌||◌, Option, none, some, List, [], ◌∷◌,
  ◌++◌, str_eq, if◌then◌else◌, ltb, length, get_elem?, drop,
}
use kube_cost.Wire.{ℤ, pos, negsuc}
use kube_cost.Http.{Reply, json, problem, bad_request, refuse_if, ◌>>=◌, ◌>>◌}
use kube_cost.Gateway
use kube_cost.Gateway.{Environment, authenticated_tenant}

pub record EventRequest : Type 0 where
  pub actor_id : String
  pub action : String
  pub resource_type : String
  pub resource_id : String
  pub outcome : String
  pub details : String

pub record Event : Type 0 where
  pub audit_id : String
  pub tenant_id : String
  pub actor_id : String
  pub action : String
  pub resource_type : String
  pub resource_id : String
  pub outcome : String
  pub details : String
  pub occurred_at : ℕ

pub record EventFilter : Type 0 where
  pub actor_id : String
  pub resource_type : String
  pub resource_id : String
  pub limit : ℤ

pub record Store : Type 0 where
  pub max_events : ℕ
  pub events : List Event

unfoldable pub new_store : ℤ → Store
new_store (negsuc n) = record { max_events = 1000; events = [] }
new_store (pos n) = record { max_events = if ltb 0 n then n else 1000; events = [] }

abbrev pub event_of : String → String → EventRequest → ℕ → Event
event_of audit_id tenant r now = record {
  audit_id = audit_id;
  tenant_id = tenant;
  actor_id = r.actor_id;
  action = r.action;
  resource_type = r.resource_type;
  resource_id = r.resource_id;
  outcome = r.outcome;
  details = r.details;
  occurred_at = now;
}

-- `s.events = append(s.events, event)`, and the copy of the last `maxEvents` where they are more.
unfoldable pub add_event : Store → Event → Store
add_event s event =
    let events = s.events ++ event ∷ [] in
    record s {
      events =
          if ltb s.max_events (length events)
          then drop (length events - s.max_events) events
          else events;
    }

unfoldable pub append : Store → String → String → EventRequest → ℕ → Store × Event
append s audit_id tenant r now =
    let event = event_of audit_id tenant r now in (add_event s event, event)

-- The events that are not skipped.
abbrev pub is_shown : String → EventFilter → Event → Bool
is_shown tenant filter event =
    str_eq event.tenant_id tenant
    && (str_eq filter.actor_id "" || str_eq event.actor_id filter.actor_id)
    && (str_eq filter.resource_type "" || str_eq event.resource_type filter.resource_type)
    && (str_eq filter.resource_id "" || str_eq event.resource_id filter.resource_id)

-- The loop of `List` with `n` events before the one at hand; the index is in range.
unfoldable pub list_from : (Event → Bool) → ℕ → List Event → ℕ → List Event → List Event
list_from shown limit events zero result = result
list_from shown limit events (suc i) result =
    let skip = list_from shown limit events i result in
    let keep = λ (event : Event). list_from shown limit events i (result ++ event ∷ []) in
    if ltb (length result) limit
    then (elim (get_elem? events i) [
      | none ↦ skip
      | some event ↦ if shown event then keep event else skip
    ])
    else result

abbrev pub limit_of : EventFilter → ℕ
limit_of filter = elim filter.limit [ pos n ↦ if ltb 0 n then n else 100 | negsuc n ↦ 100 ]

unfoldable pub list : Store → String → EventFilter → List Event
list s tenant filter =
    list_from (is_shown tenant filter) (limit_of filter) s.events (length s.events) []

abbrev pub is_outcome : String → Bool
is_outcome outcome =
    str_eq outcome "succeeded" || str_eq outcome "failed" || str_eq outcome "denied"

abbrev pub trimmed : Gateway.Library → EventRequest → EventRequest
trimmed lib r = record {
  actor_id = lib.trim_space r.actor_id;
  action = lib.trim_space r.action;
  resource_type = lib.trim_space r.resource_type;
  resource_id = lib.trim_space r.resource_id;
  outcome = lib.to_lower (lib.trim_space r.outcome);
  details = r.details;
}

-- `valid` is json.Valid.
unfoldable pub normalize_event :
    Gateway.Library → (String → Bool) → EventRequest → Reply EventRequest
normalize_event lib valid raw = do
  let r = trimmed lib raw
  refuse_if
      (str_eq r.actor_id ""
        || str_eq r.action ""
        || str_eq r.resource_type ""
        || str_eq r.resource_id "")
      400 "invalid_request" "actor_id, action, resource_type, and resource_id are required"
  refuse_if (not (is_outcome r.outcome)) 400 "invalid_request"
      "outcome must be one of succeeded, failed, denied"
  refuse_if (not (str_eq r.details "") && not (valid r.details)) 400 "invalid_request"
      "details must be valid JSON"
  json r

abbrev pub parsed_limit : Option ℤ → Reply ℕ
parsed_limit none = problem (bad_request "limit must be a positive integer")
parsed_limit (some (negsuc n)) = problem (bad_request "limit must be a positive integer")
parsed_limit (some (pos n)) =
    if ltb 0 n then json n else problem (bad_request "limit must be a positive integer")

abbrev pub limit_given : (String → Option ℤ) → String → Reply ℕ
limit_given atoi text = if str_eq text "" then json 100 else parsed_limit (atoi text)

unfoldable pub event_filter :
    Gateway.Library → (String → Option ℤ) → Gateway.Request → Reply EventFilter
event_filter lib atoi r = do
  limit ← limit_given atoi (lib.trim_space (r.value "limit"))
  json (record {
    actor_id = lib.trim_space (r.value "actor_id");
    resource_type = lib.trim_space (r.value "resource_type");
    resource_id = lib.trim_space (r.value "resource_id");
    limit = pos (if ltb 500 limit then 500 else limit);
  })

-- The request's body: none, not the JSON of an event, or an event.
pub data Body : Type 0 where
  no_body invalid_body : Body
  body : EventRequest → Body

abbrev pub decode_event_request : Body → Reply EventRequest
decode_event_request no_body = problem (bad_request "request body is required")
decode_event_request invalid_body =
    problem (bad_request "request body must be valid audit event JSON")
decode_event_request (body r) = json r

-- The store after the call, and the event.
unfoldable pub append_event :
    Gateway.Library
    → Environment
    → (String → Bool)
    → Store
    → Gateway.Request
    → Body
    → String
    → ℕ
    → Reply (Store × Event)
append_event lib env valid s r input audit_id now = do
  tenant ← authenticated_tenant lib env r now
  request ← decode_event_request input
  event ← normalize_event lib valid request
  json (append s audit_id tenant event now)

pub record EventsResult : Type 0 where
  pub tenant_id : String
  pub events : List Event
  pub limit : ℤ

unfoldable pub list_events :
    Gateway.Library
    → Environment
    → (String → Option ℤ)
    → Store
    → Gateway.Request
    → ℕ
    → Reply EventsResult
list_events lib env atoi s r now = do
  tenant ← authenticated_tenant lib env r now
  filter ← event_filter lib atoi r
  json (record { tenant_id = tenant; events = list s tenant filter; limit = filter.limit })
