-- ===== src/Jobs/Kept.antt =====
-- A bounded store against the history without a bound: it keeps the newest jobs, as they would be
-- had none been evicted.
use kube_cost.Prelude.{
  ◌-◌, ◌≤◌, String, Bool, true, false, Option, none, some, List, [], ◌∷◌, ◌++◌, str_eq, eq_iff,
  if◌then◌else◌, length, ◌≡◌, refl, sym, ap, subst, ◌∙◌, arith, Bool-cases, Option-cases, inl, inr,
  length-drop, append-nil, append_assoc,
}
use kube_cost.Prelude.Dict.{get, put, get-put, mem}
use kube_cost.Wire.{ℤ}
use kube_cost.Jobs.{Store, bound_of, new_store, insert, owned, find, update, updated}
use kube_cost.Jobs.Newest.{
  Distinct, mem-append, Distinct-append, mem-drop, Distinct-drop, drop_none, newest, newest-append,
  evict-order, mem-evict, evict-get,
}

-- A call of a store: a new job under a new ID, or a change of a tenant's job.
pub data Call (J : Type 0) : Type 0 where
  inserts : String → J → Call J
  updates : String → String → (J → J) → Call J

module _ {J : Type 0} (tenant_of : J → String) where
  unfoldable pub step : Store J → Call J → Store J
  step s (inserts id job) = insert s id job
  step s (updates tenant id change) = (update tenant_of s tenant id change).0

  unfoldable pub run : Store J → List (Call J) → Store J
  run s [] = s
  run s (c ∷ cs) = run (step s c) cs

  abbrev pub changed : List (String × J) → String → (J → J) → Option J → List (String × J)
  changed m id change none = m
  changed m id change (some job) = put m id (change job)

  -- The same call without a bound: a map that forgets nothing.
  abbrev pub ideal_step : List (String × J) → Call J → List (String × J)
  ideal_step m (inserts id job) = put m id job
  ideal_step m (updates tenant id change) = changed m id change (owned tenant_of tenant (get m id))

  unfoldable pub ideal : List (String × J) → List (Call J) → List (String × J)
  ideal m [] = m
  ideal m (c ∷ cs) = ideal (ideal_step m c) cs

-- The IDs of the new jobs, in the order of the calls.
abbrev pub created : {J : Type 0} → List (Call J) → List String
created [] = []
created (inserts id job ∷ cs) = id ∷ created cs
created (updates tenant id change ∷ cs) = created cs

-- What the store keeps of a history with the IDs `ids`.
pub record IsKept {J : Type 0} (s : Store J) (m : List (String × J)) (ids : List String)
    : Type 0 where
  pub distinct : Distinct ids
  pub ordered : s.order ≡ newest s.max_jobs ids
  pub same : (id : String) → get s.jobs id ≡ (if mem id s.order then get m id else none)

module _ {J : Type 0} (tenant_of : J → String) where
  IsKept-insert :
      (s : Store J) (m : List (String × J)) (ids : List String) (id : String) (job : J)
      → IsKept s m ids
      → mem id ids ≡ false
      → IsKept (insert s id job) (put m id job) (ids ++ id ∷ [])
  unfolding insert
  IsKept-insert s m ids id job h new =
      let order = s.order ++ id ∷ [] in
      let jobs = put s.jobs id job in
      let absent : mem id s.order ≡ false =
        rw h.ordered (mem-drop id (length ids - s.max_jobs) ids new) in
      let distinct : Distinct order =
        Distinct-append s.order id
          (subst Distinct (sym h.ordered) (Distinct-drop (length ids - s.max_jobs) ids h.distinct))
          absent in
      let only : (i : String) → mem i order ≡ false → get jobs i ≡ none = λ i e. ground (
        arith,
        get-put s.jobs id i job,
        mem-append i s.order (id ∷ []),
        h.same i,
        e,
        eq_iff id i,
      ) in
      record {
        distinct = Distinct-append ids id h.distinct new;
        ordered =
            evict-order s.max_jobs order jobs
            ∙ ap (λ o. newest s.max_jobs (o ++ id ∷ [])) h.ordered
            ∙ newest-append s.max_jobs ids id;
        same = λ i. ground (
          arith,
          evict-get i s.max_jobs order jobs distinct only,
          mem-evict i s.max_jobs order jobs,
          mem-append i s.order (id ∷ []),
          get-put s.jobs id i job,
          get-put m id i job,
          h.same i,
          eq_iff id i,
        );
      }

  pub ideal_other :
      (m : List (String × J)) (tenant id : String) (change : J → J) (i : String)
      → str_eq id i ≡ false
      → get (ideal_step tenant_of m (updates tenant id change)) i ≡ get m i
  ideal_other m tenant id change i ne = elim (Option-cases (owned tenant_of tenant (get m id))) [
    | inl e ↦ ap (λ o. get (changed tenant_of m id change o) i) e
    | inr (job, e) ↦
        ap (λ o. get (changed tenant_of m id change o) i) e
        ∙ get-put m id i (change job)
        ∙ rw ne refl
  ]

  IsKept-update :
      (s : Store J) (m : List (String × J)) (ids : List String) (tenant id : String)
      (change : J → J)
      → IsKept s m ids
      → IsKept
          (update tenant_of s tenant id change).0
          (ideal_step tenant_of m (updates tenant id change))
          ids
  unfolding update find
  IsKept-update s m ids tenant id change h = go (owned tenant_of tenant (get s.jobs id)) refl
    where
      go :
          (o : Option J)
          → owned tenant_of tenant (get s.jobs id) ≡ o
          → IsKept
              (update tenant_of s tenant id change).0
              (ideal_step tenant_of m (updates tenant id change))
              ids
      go none e =
          subst
            (λ o.
              IsKept (updated s id change o).0 (ideal_step tenant_of m (updates tenant id change))
                ids)
            (sym e)
            (record {
              distinct = h.distinct;
              ordered = h.ordered;
              same = λ i. elim (Bool-cases (mem id s.order)) [
                | inl k ↦
                    let none_here : owned tenant_of tenant (get m id) ≡ none =
                      ground (arith, e, h.same id, k) in
                    h.same i
                    ∙ ap
                        (λ o.
                          if mem i s.order then get (changed tenant_of m id change o) i else none)
                        (sym none_here)
                | inr k ↦ ground (arith, h.same i, k, ideal_other m tenant id change i, eq_iff id i)
              ];
            })
      go (some job) e =
          let there : get s.jobs id ≡ get m id = ground (arith, e, h.same id) in
          let own : owned tenant_of tenant (get m id) ≡ some job =
            ap (owned tenant_of tenant) (sym there) ∙ e in
          subst
            (λ o.
              IsKept (updated s id change o).0 (ideal_step tenant_of m (updates tenant id change))
                ids)
            (sym e)
            (subst
              (λ o. IsKept (updated s id change (some job)).0 (changed tenant_of m id change o) ids)
              (sym own)
              (record {
                distinct = h.distinct;
                ordered = h.ordered;
                same = λ i. ground (
                  arith,
                  h.same i,
                  h.same id,
                  e,
                  there,
                  eq_iff id i,
                  get-put s.jobs id i (change job),
                  get-put m id i (change job),
                );
              }))

Distinct-mem :
    (xs : List String) (y : String) (ys : List String) → Distinct (xs ++ y ∷ ys) → mem y xs ≡ false
Distinct-mem [] y ys d = refl
Distinct-mem (x ∷ xs) y ys d =
    ground (arith, mem-append x xs (y ∷ ys), d.0, Distinct-mem xs y ys d.1, eq_iff x y, eq_iff y x)

new_store-max : (J : Type 0) (n : ℤ) → (new_store {J = J} n).max_jobs ≡ bound_of n
unfolding new_store
new_store-max J n = refl

new_store-IsKept : {J : Type 0} (n : ℤ) → IsKept {J = J} (new_store n) [] []
unfolding new_store get
new_store-IsKept n = record {
  distinct = tt;
  ordered = drop_none (0 - bound_of n);
  same = λ id. refl;
}

module _ {J : Type 0} (tenant_of : J → String) where
  step-max : (s : Store J) (c : Call J) → (step tenant_of s c).max_jobs ≡ s.max_jobs
  unfolding step insert update
  step-max s (inserts id job) = refl
  step-max s (updates tenant id change) =
      elim (find tenant_of s tenant id) as (λ o. (updated s id change o).0.max_jobs ≡ s.max_jobs) [
        | none ↦ refl
        | some job ↦ refl
      ]

  run-max : (s : Store J) (cs : List (Call J)) → (run tenant_of s cs).max_jobs ≡ s.max_jobs
  unfolding run
  run-max s [] = refl
  run-max s (c ∷ cs) = run-max (step tenant_of s c) cs ∙ step-max s c

  run-IsKept :
      (s : Store J) (m : List (String × J)) (ids : List String) (cs : List (Call J))
      → IsKept s m ids
      → Distinct (ids ++ created cs)
      → IsKept (run tenant_of s cs) (ideal tenant_of m cs) (ids ++ created cs)
  unfolding run ideal step
  run-IsKept s m ids [] h d = subst (IsKept s m) (sym (append-nil ids)) h
  run-IsKept s m ids (inserts id job ∷ cs) h d =
      let new = Distinct-mem ids id (created cs) d in
      let same = append_assoc ids (id ∷ []) (created cs) in
      subst (IsKept (run tenant_of (insert s id job) cs) (ideal tenant_of (put m id job) cs)) same (
        run-IsKept (insert s id job) (put m id job) (ids ++ id ∷ []) cs
          (IsKept-insert tenant_of s m ids id job h new) (subst Distinct (sym same) d))
  run-IsKept s m ids (updates tenant id change ∷ cs) h d =
      run-IsKept (update tenant_of s tenant id change).0
        (ideal_step tenant_of m (updates tenant id change)) ids cs
        (IsKept-update tenant_of s m ids tenant id change h) d

-- After any history of calls whose new jobs have different IDs, on a store of any bound: a job is
-- found exactly if its ID is one of the newest that the bound allows and it is the tenant's, and it
-- is then what it would be had no job ever been evicted.
pub find-run :
    {J : Type 0} (tenant_of : J → String) (n : ℤ) (cs : List (Call J)) (tenant id : String)
    → Distinct (created cs)
    → find tenant_of (run tenant_of (new_store n) cs) tenant id ≡ (
        if mem id (newest (bound_of n) (created cs))
        then owned tenant_of tenant (get (ideal tenant_of [] cs) id)
        else none)
unfolding find
find-run {J = J} tenant_of n cs tenant id d =
    let end = run tenant_of (new_store n) cs in
    let kept = run-IsKept tenant_of (new_store n) [] [] cs (new_store-IsKept n) d in
    let bound : end.max_jobs ≡ bound_of n =
      run-max tenant_of (new_store n) cs ∙ new_store-max J n in
    let order : end.order ≡ newest (bound_of n) (created cs) =
      kept.ordered ∙ ap (λ k. newest k (created cs)) bound in
    ap (owned tenant_of tenant)
      (kept.same id ∙ ap (λ o. if mem id o then get (ideal tenant_of [] cs) id else none) order)
    ∙ owned_if (mem id (newest (bound_of n) (created cs)))
  where
    owned_if :
        (b : Bool)
        → owned tenant_of tenant (if b then get (ideal tenant_of [] cs) id else none)
          ≡ (if b then owned tenant_of tenant (get (ideal tenant_of [] cs) id) else none)
    owned_if true = refl
    owned_if false = refl

-- The store never holds more jobs than its bound.
pub order-bounded :
    {J : Type 0} (tenant_of : J → String) (n : ℤ) (cs : List (Call J))
    → Distinct (created cs)
    → length (run tenant_of (new_store n) cs).order ≤ bound_of n
order-bounded {J = J} tenant_of n cs d =
    let kept = run-IsKept tenant_of (new_store n) [] [] cs (new_store-IsKept n) d in
    let bound = run-max tenant_of (new_store n) cs ∙ new_store-max J n in
    ground (arith, kept.ordered, bound, length-drop (length (created cs) - bound_of n) (created cs))
