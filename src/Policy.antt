-- ===== src/Policy.antt =====
-- services/policy/store.go: the versions of the policies of each tenant and family. The store is a
-- map of maps; a generated version ID and parsed times are arguments.
pub mod Active
pub mod Calls
use kube_cost.Prelude.{
  ℕ, String, Bool, true, false, Option, none, some, List, [], ◌∷◌, str_eq, if◌then◌else◌,
}
use kube_cost.Prelude.Dict.{get, put}

-- The texts "draft", "active" and "inactive".
pub data Status : Type 0 where
  draft active inactive : Status

pub record VersionRequest : Type 0 where
  pub version : String
  pub description : String
  pub effective_start : String
  pub rules : List ℕ

pub record PolicyVersion : Type 0 where
  pub tenant_id : String
  pub family : String
  pub version : String
  pub description : String
  pub status : Status
  pub effective_start : ℕ
  pub rules : List ℕ
  pub created_by : String
  pub created_at : ℕ
  pub activated_by : String
  pub activated_at : Option ℕ

pub record PolicyFamilyState : Type 0 where
  pub active_version : String
  pub versions : List (String × PolicyVersion)

abbrev pub Store : Type 0
Store = List (String × List (String × PolicyFamilyState))

abbrev pub new_store : Store
new_store = []

-- `s.families[tenantID]`; reading a nil map finds nothing.
abbrev pub families_of : Store → String → List (String × PolicyFamilyState)
families_of s tenant = elim (get s tenant) [ none ↦ [] | some m ↦ m ]

abbrev pub find : Store → String → String → Option PolicyFamilyState
find s tenant family = get (families_of s tenant) family

-- `state` is a pointer: what is written to it is in the store.
abbrev pub write : Store → String → String → PolicyFamilyState → Store
write s tenant family state = put s tenant (put (families_of s tenant) family state)

-- `parse` is `time.Parse(time.RFC3339, …)`, in UTC; none is its error.
unfoldable pub policy_time : (String → Option ℕ) → String → ℕ → ℕ
policy_time parse value fallback =
    if str_eq value "" then fallback else elim (parse value) [ none ↦ fallback | some t ↦ t ]

abbrev pub state_of : Option PolicyFamilyState → PolicyFamilyState
state_of none = record { active_version = ""; versions = [] }
state_of (some state) = state

insert_version : PolicyFamilyState → PolicyVersion → Option PolicyFamilyState
insert_version state p = elim (get state.versions p.version) [
  | some old ↦ none
  | none ↦ some (record state { versions = put state.versions p.version p })
]

abbrev pub version_of : String → VersionRequest → String
version_of fresh request = if str_eq request.version "" then fresh else request.version

abbrev pub new_policy :
    (String → Option ℕ) → String → String → String → String → VersionRequest → ℕ → PolicyVersion
new_policy parse fresh tenant family created_by request now = record {
  tenant_id = tenant;
  family = family;
  version = version_of fresh request;
  description = request.description;
  status = draft;
  effective_start = policy_time parse request.effective_start now;
  rules = request.rules;
  created_by = created_by;
  created_at = now;
  activated_by = "";
  activated_at = none;
}

-- none is ErrVersionExists; the maps that were made on the way stay, empty.
unfoldable pub create_version :
    (String → Option ℕ)
    → String
    → String
    → String
    → String
    → VersionRequest
    → ℕ
    → Store
    → Option PolicyVersion × Store
unfolding insert_version
create_version parse fresh tenant family created_by request now s =
    let state = state_of (find s tenant family) in
    let p = new_policy parse fresh tenant family created_by request now in
    elim (insert_version state p) [
      | none ↦ (none, write s tenant family state)
      | some state' ↦ (some p, write s tenant family state')
    ]

-- The loop over the versions.
unfoldable pub deactivate : List (String × PolicyVersion) → List (String × PolicyVersion)
deactivate [] = []
deactivate ((version, p) ∷ rest) =
    (version, elim p.status [ active ↦ record p { status = inactive } | draft ↦ p | inactive ↦ p ])
    ∷ deactivate rest

unfoldable pub activated : String → ℕ → PolicyVersion → PolicyVersion
activated actor now p = record p { status = active; activated_by = actor; activated_at = some now }

activate_in : String → String → ℕ → PolicyFamilyState → Option (PolicyVersion × PolicyFamilyState)
unfolding activated
activate_in version actor now state = elim (get state.versions version) [
  | none ↦ none
  | some p ↦ some (
    activated actor now p,
    record {
      active_version = version;
      versions = put (deactivate state.versions) version (activated actor now p);
    },
  )
]

activate_found :
    String
    → String
    → String
    → String
    → ℕ
    → Store
    → Option PolicyFamilyState
    → Option PolicyVersion × Store
unfolding activate_in
activate_found tenant family version actor now s none = (none, s)
activate_found tenant family version actor now s (some state) =
    elim (activate_in version actor now state) [
      | none ↦ (none, s)
      | some r ↦ (some r.0, write s tenant family r.1)
    ]

-- none for `false`.
unfoldable pub activate_version :
    String → String → String → String → ℕ → Store → Option PolicyVersion × Store
unfolding activate_found
activate_version tenant family version actor now s =
    activate_found tenant family version actor now s (find s tenant family)
