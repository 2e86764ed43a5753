-- ===== src/Policy/Active.antt =====
-- At most one version of a policy family is active: the one that the family names.
use kube_cost.Prelude.{
  ◌≡◌, ◌≢◌, ◌↔◌, refl, arith, String, Option, none, some, List, [], ◌∷◌, eq_iff,
}
use kube_cost.Prelude.Dict.{get, put, get-put}
use kube_cost.Policy.{draft, active, inactive, PolicyVersion, PolicyFamilyState, deactivate}

-- The active versions are those that the family names, and no version has an empty name.
pub record IsConsistent (state : PolicyFamilyState) : Type 0 where
  pub named : get state.versions "" ≡ none
  pub known : get state.versions state.active_version ≡ none → state.active_version ≡ ""
  pub one :
      (version : String) {p : PolicyVersion}
      → get state.versions version ≡ some p
      → (p.status ≡ active) ↔ (version ≡ state.active_version)

abbrev quiet : Option PolicyVersion → Option PolicyVersion
quiet none = none
quiet (some p) =
    some (elim p.status [ active ↦ record p { status = inactive } | draft ↦ p | inactive ↦ p ])

get-deactivate :
    (m : List (String × PolicyVersion)) (k : String) → get (deactivate m) k ≡ quiet (get m k)
unfolding get deactivate
get-deactivate [] k = refl
get-deactivate ((j, p) ∷ m) k = ground (arith, get-deactivate m k)

module _ (state : PolicyFamilyState) (h : IsConsistent state) where
  -- A new draft.
  pub inserted-IsConsistent :
      (p : PolicyVersion)
      → p.status ≡ draft
      → p.version ≢ ""
      → get state.versions p.version ≡ none
      → IsConsistent (record state { versions = put state.versions p.version p })
  inserted-IsConsistent p d n g = record {
    named = ground (arith, h.named, get-put state.versions p.version "" p, eq_iff p.version "");
    known = λ e. ground (
      arith,
      h.known,
      get-put state.versions p.version state.active_version p,
      eq_iff p.version state.active_version,
    );
    one = λ v {p = q} e. ground (
      arith,
      d,
      n,
      g,
      h.known,
      h.one v {p = q},
      e,
      get-put state.versions p.version v p,
      eq_iff p.version v,
      eq_iff p.version state.active_version,
    );
  }

  -- An activation of a version that is there.
  pub activated-IsConsistent :
      (version : String) (p : PolicyVersion) {old : PolicyVersion}
      → p.status ≡ active
      → get state.versions version ≡ some old
      → IsConsistent (record {
        active_version = version;
        versions = put (deactivate state.versions) version p;
      })
  activated-IsConsistent version p {old = old} d g = record {
    named = ground (
      arith,
      h.named,
      g,
      get-put (deactivate state.versions) version "" p,
      get-deactivate state.versions "",
      eq_iff version "",
    );
    known = λ e.
        ground
          (arith, e, get-put (deactivate state.versions) version version p, eq_iff version version);
    one = λ v {p = q} e. ground (
      arith,
      d,
      e,
      get-put (deactivate state.versions) version v p,
      get-deactivate state.versions v,
      eq_iff version v,
    );
  }
