-- ===== src/Policy/Calls.antt =====
-- Any sequence of calls of the policy store keeps its families consistent.
use kube_cost.Prelude.{
  ◌&&◌, Bool-cases, ℕ, ◌≡◌, ◌≢◌, ◌↔◌, refl, sym, subst, arith, String, Option, none, some, List, [],
  ◌∷◌, str_eq, eq_iff, if◌then◌else◌, Option-cases, inl, inr,
}
use kube_cost.Prelude.Dict.{get, put, get-put}
use kube_cost.Policy.{
  active, VersionRequest, PolicyVersion, PolicyFamilyState, Store, new_store, find, write,
  families_of, create_version, deactivate, activate_version, activated, new_policy, state_of,
}
use kube_cost.Policy.Active.{IsConsistent, inserted-IsConsistent, activated-IsConsistent}

find-write :
    (s : Store) (t f t' f' : String) (state : PolicyFamilyState)
    → find (write s t f state) t' f'
      ≡ (if str_eq t t' && str_eq f f' then some state else find s t' f')
unfolding get
find-write s t f t' f' state = ground (
  arith,
  get-put s t t' (put (families_of s t) f state),
  get-put (families_of s t) f f' state,
  eq_iff t t',
  eq_iff f f',
)

-- All families of all tenants.
abbrev pub AllConsistent : Store → Type 0
AllConsistent s =
    (tenant family : String) (state : PolicyFamilyState)
    → find s tenant family ≡ some state
    → IsConsistent state

write-AllConsistent :
    (s : Store) (t f : String) (state : PolicyFamilyState)
    → AllConsistent s
    → IsConsistent state
    → AllConsistent (write s t f state)
write-AllConsistent s t f state h c t' f' x e = elim (Bool-cases (str_eq t t' && str_eq f f')) [
  | inl p ↦
      let same : state ≡ x = ground (arith, find-write s t f t' f' state, e, p) in
      subst IsConsistent same c
  | inr p ↦
      let old : find s t' f' ≡ some x = ground (arith, find-write s t f t' f' state, e, p) in
      h t' f' x old
]

state_of-IsConsistent :
    (s : Store) (t f : String) → AllConsistent s → IsConsistent (state_of (find s t f))
unfolding get
state_of-IsConsistent s t f h = go (find s t f) refl
  where
    go : (x : Option PolicyFamilyState) → find s t f ≡ x → IsConsistent (state_of x)
    go (some state) e = h t f state e
    go none e = record { named = refl; known = λ x. refl; one = λ v {p = p} x. cc }

-- A call of the store. `fresh` is what `newPolicyVersionID` returns, which is not empty.
pub record Creation : Type 0 where
  pub fresh : String
  pub fresh_named : fresh ≢ ""
  pub tenant : String
  pub family : String
  pub created_by : String
  pub request : VersionRequest
  pub now : ℕ

pub data Call : Type 0 where
  creates : Creation → Call
  activates : String → String → String → String → ℕ → Call

unfoldable pub step : (String → Option ℕ) → Store → Call → Store
step parse s (creates c) =
    (create_version parse c.fresh c.tenant c.family c.created_by c.request c.now s).1
step parse s (activates tenant family version actor now) =
    (activate_version tenant family version actor now s).1

unfoldable pub run : (String → Option ℕ) → Store → List Call → Store
run parse s [] = s
run parse s (c ∷ cs) = run parse (step parse s c) cs

create_version-AllConsistent :
    (parse : String → Option ℕ) (c : Creation) (s : Store)
    → AllConsistent s
    → AllConsistent
        (create_version parse c.fresh c.tenant c.family c.created_by c.request c.now s).1
unfolding create_version
create_version-AllConsistent parse c s h =
    let state = state_of (find s c.tenant c.family) in
    let ok = state_of-IsConsistent s c.tenant c.family h in
    let p = new_policy parse c.fresh c.tenant c.family c.created_by c.request c.now in
    let named : p.version ≢ "" =
      λ e. ground (arith, e, c.fresh_named, eq_iff c.request.version "") in
    elim (Option-cases (get state.versions p.version)) [
      | inl e ↦
          rw (create_version, e)
            (write-AllConsistent s c.tenant c.family
              (record state { versions = put state.versions p.version p }) h
              (inserted-IsConsistent state ok p refl named e))
      | inr (old, e) ↦ rw (create_version, e) (write-AllConsistent s c.tenant c.family state h ok)
    ]

activate_version-AllConsistent :
    (tenant family version actor : String) (now : ℕ) (s : Store)
    → AllConsistent s
    → AllConsistent (activate_version tenant family version actor now s).1
unfolding activate_version
activate_version-AllConsistent tenant family version actor now s h =
    let after = (activate_version tenant family version actor now s).1 in
    elim (Option-cases (find s tenant family)) [
      | inl e ↦ let same : after ≡ s = ground (arith, e) in subst AllConsistent (sym same) h
      | inr (state, e) ↦ elim (Option-cases (get state.versions version)) [
        | inl g ↦ let same : after ≡ s = ground (arith, e, g) in subst AllConsistent (sym same) h
        | inr (p, g) ↦
            let p' = activated actor now p in
            let state' : PolicyFamilyState = record {
              active_version = version;
              versions = put (deactivate state.versions) version p';
            } in
            let written : after ≡ write s tenant family state' = ground (arith, e, g) in
            subst AllConsistent (sym written) (
              write-AllConsistent s tenant family state' h (
                activated-IsConsistent state (h tenant family state e) version p' {old = p}
                  (unfold activated in refl) g))
      ]
    ]

run-AllConsistent :
    (parse : String → Option ℕ) (s : Store) (calls : List Call)
    → AllConsistent s
    → AllConsistent (run parse s calls)
unfolding run step
run-AllConsistent parse s [] h = h
run-AllConsistent parse s (creates c ∷ cs) h =
    run-AllConsistent parse (step parse s (creates c)) cs (create_version-AllConsistent parse c s h)
run-AllConsistent parse s (activates t f v a now ∷ cs) h =
    run-AllConsistent parse (step parse s (activates t f v a now)) cs
      (activate_version-AllConsistent t f v a now s h)

-- After any creations, with generated IDs that are not empty, and activations on an empty store: in
-- each family that is there, a version is active exactly if the family names it as its active one.
pub one_active_version :
    (parse : String → Option ℕ) (calls : List Call) (tenant family version : String)
    {state : PolicyFamilyState} {p : PolicyVersion}
    → find (run parse new_store calls) tenant family ≡ some state
    → get state.versions version ≡ some p
    → (p.status ≡ active) ↔ (version ≡ state.active_version)
unfolding get
one_active_version parse calls tenant family version {state = state} {p = p} e g =
    (run-AllConsistent parse new_store calls (λ t f x x'. cc) tenant family state e).one version
      {p = p} g
