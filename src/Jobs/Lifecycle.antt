-- ===== src/Jobs/Lifecycle.antt =====
-- services/query/query_jobs.go: the life of one job among those of all tenants.
use kube_cost.Prelude.{
  ℕ, String, Bool, true, not, ◌&&◌, Option, none, some, List, [], ◌∷◌, ◌++◌, str_eq, eq_iff,
  if◌then◌else◌, ◌≡◌, refl, sym, ap, ◌∙◌, arith, Option-cases, inl, inr,
}
use kube_cost.Prelude.Dict.{get, put, get-put, mem}
use kube_cost.Wire.{ℤ}
use kube_cost.Jobs.{bound_of, new_store, update, find, owned}
use kube_cost.Jobs.Newest.{Distinct, newest}
use kube_cost.Jobs.Kept.{
  Call, inserts, updates, step, run, ideal, ideal_step, changed, created, find-run, ideal_other,
}
use kube_cost.Query.{AnalyticsQuery}
use kube_cost.Jobs.Expected.{expected_job}
use kube_cost.Jobs.Query.{
  Jobs, QueryJobResult, encode_failed, JobResult, tenant_of, new_job, create, started, finished,
  broken, start, succeed, fail, get_job, Encoder, query_manifest, QueryManifest, store_result,
  Execution, done, stopped, finish_query_job,
}

abbrev pub JobCall : Type 0
JobCall = Call QueryJobResult

-- The call is about another job.
abbrev pub is_other : String → JobCall → Bool
is_other id (inserts other job) = not (str_eq other id)
is_other id (updates tenant other change) = not (str_eq other id)

abbrev pub all_other : String → List JobCall → Bool
all_other id [] = true
all_other id (c ∷ cs) = is_other id c && all_other id cs

abbrev pub with_manifest : JobResult → ℕ → QueryJobResult → Option QueryManifest → QueryJobResult
with_manifest result now job none = broken encode_failed now job
with_manifest result now job (some manifest) = finished manifest result now job

-- What the end of its execution makes of a job.
abbrev pub ended : Encoder → String → Execution → ℕ → QueryJobResult → QueryJobResult
ended encoder query_type (stopped error) now job = broken error now job
ended encoder query_type (done result rows) now job =
    with_manifest result now job (query_manifest encoder query_type rows result now)

finish-update :
    (encoder : Encoder) (s : Jobs) (id query_type : String) (query : AnalyticsQuery)
    (execution : Execution) (now : ℕ)
    → finish_query_job encoder s id query_type query execution now
      ≡ (update tenant_of s query.tenant_id id (ended encoder query_type execution now)).0
unfolding finish_query_job succeed fail
finish-update encoder s id query_type query (stopped error) now = refl
finish-update encoder s id query_type query (done result rows) now =
    go (query_manifest encoder query_type rows result now)
  where
    go :
        (o : Option QueryManifest)
        → store_result s query.tenant_id id result now o
          ≡ (update tenant_of s query.tenant_id id (λ job. with_manifest result now job o)).0
    go none = refl
    go (some manifest) = refl

run-append :
    (s : Jobs) (xs ys : List JobCall)
    → run tenant_of s (xs ++ ys) ≡ run tenant_of (run tenant_of s xs) ys
unfolding run
run-append s [] ys = refl
run-append s (x ∷ xs) ys = run-append (step tenant_of s x) xs ys

ideal-append :
    (m : List (String × QueryJobResult)) (xs ys : List JobCall)
    → ideal tenant_of m (xs ++ ys) ≡ ideal tenant_of (ideal tenant_of m xs) ys
unfolding ideal
ideal-append m [] ys = refl
ideal-append m (x ∷ xs) ys = ideal-append (ideal_step tenant_of m x) xs ys

run_past :
    (s : Jobs) (xs : List JobCall) (c : JobCall) (ys : List JobCall)
    → run tenant_of s (xs ++ c ∷ ys) ≡ run tenant_of (step tenant_of (run tenant_of s xs) c) ys
unfolding run
run_past s xs c ys = run-append s xs (c ∷ ys)

ideal_past :
    (m : List (String × QueryJobResult)) (xs : List JobCall) (c : JobCall) (ys : List JobCall)
    → ideal tenant_of m (xs ++ c ∷ ys)
      ≡ ideal tenant_of (ideal_step tenant_of (ideal tenant_of m xs) c) ys
unfolding ideal
ideal_past m xs c ys = ideal-append m xs (c ∷ ys)

-- A change by the tenant of a job that is there.
ideal_hit :
    (m : List (String × QueryJobResult)) (id : String) (job : QueryJobResult)
    (change : QueryJobResult → QueryJobResult)
    → get m id ≡ some job
    → get (ideal_step tenant_of m (updates job.tenant_id id change)) id ≡ some (change job)
ideal_hit m id job change e =
    let own : owned tenant_of job.tenant_id (get m id) ≡ some job =
      ap (owned tenant_of job.tenant_id) e ∙ ground (arith, eq_iff job.tenant_id job.tenant_id) in
    ap (λ o. get (changed tenant_of m id change o) id) own
    ∙ get-put m id id (change job)
    ∙ ground (arith, eq_iff id id)

-- Calls about other jobs leave the job alone.
ideal-other :
    (m : List (String × QueryJobResult)) (id : String) (cs : List JobCall)
    → all_other id cs ≡ true
    → get (ideal tenant_of m cs) id ≡ get m id
unfolding ideal
ideal-other m id [] h = refl
ideal-other m id (inserts other job ∷ cs) h =
    ideal-other (put m other job) id cs (ground (arith, h))
    ∙ ground (arith, h, get-put m other id job)
ideal-other m id (updates tenant other change ∷ cs) h =
    ideal-other (ideal_step tenant_of m (updates tenant other change)) id cs (ground (arith, h))
    ∙ ideal_other tenant_of m tenant other change id (ground (arith, h))

-- The history of a job: created after some calls, started after more, and ended after more still,
-- with the calls about other jobs in between and after.
abbrev pub life :
    Encoder
    → String
    → String
    → AnalyticsQuery
    → Execution
    → ℕ
    → ℕ
    → ℕ
    → List JobCall
    → List JobCall
    → List JobCall
    → List JobCall
    → List JobCall
life encoder id query_type query execution t0 t1 t2 before queue_time run_time after =
    before
    ++ inserts id (new_job id query.tenant_id query_type query t0)
      ∷ (queue_time
          ++ updates query.tenant_id id (started t1)
            ∷ (run_time
                ++ updates query.tenant_id id (ended encoder query_type execution t2) ∷ after))

abbrev pub ended_job :
    Encoder → String → String → AnalyticsQuery → Execution → ℕ → ℕ → ℕ → QueryJobResult
ended_job encoder id query_type query execution t0 t1 t2 =
    ended encoder query_type execution t2
      (started t1 (new_job id query.tenant_id query_type query t0))

-- The same history, as the code runs it: `create`, `start` and the end of `runQueryJob`.
abbrev pub after_life :
    Encoder
    → Jobs
    → String
    → String
    → AnalyticsQuery
    → Execution
    → ℕ
    → ℕ
    → ℕ
    → List JobCall
    → List JobCall
    → List JobCall
    → List JobCall
    → Jobs
after_life encoder s id query_type query execution t0 t1 t2 before queue_time run_time after =
    let s1 = (create (run tenant_of s before) id query.tenant_id query_type query t0).0 in
    let s2 = (start (run tenant_of s1 queue_time) query.tenant_id id t1).0 in
    let s3 =
      finish_query_job encoder (run tenant_of s2 run_time) id query_type query execution t2 in
    run tenant_of s3 after

after_life-run :
    (encoder : Encoder) (s : Jobs) (id query_type : String) (query : AnalyticsQuery)
    (execution : Execution) (t0 t1 t2 : ℕ) (before queue_time run_time after : List JobCall)
    → run tenant_of s
        (life encoder id query_type query execution t0 t1 t2 before queue_time run_time after)
      ≡ after_life encoder s id query_type query execution t0 t1 t2 before queue_time run_time after
unfolding run step create start
after_life-run encoder s id query_type query execution t0 t1 t2 before queue_time run_time after =
    let c1 = inserts id (new_job id query.tenant_id query_type query t0) in
    let c2 = updates query.tenant_id id (started t1) in
    let c3 = updates query.tenant_id id (ended encoder query_type execution t2) in
    let s1 = step tenant_of (run tenant_of s before) c1 in
    let s2 = step tenant_of (run tenant_of s1 queue_time) c2 in
    run_past s before c1 (queue_time ++ c2 ∷ (run_time ++ c3 ∷ after))
    ∙ run_past s1 queue_time c2 (run_time ++ c3 ∷ after)
    ∙ run_past s2 run_time c3 after
    ∙ ap (λ x. run tenant_of x after)
        (sym (finish-update encoder (run tenant_of s2 run_time) id query_type query execution t2))

ended-owned :
    (encoder : Encoder) (query_type : String) (execution : Execution) (now : ℕ)
    (job : QueryJobResult)
    → (ended encoder query_type execution now job).tenant_id ≡ job.tenant_id
ended-owned encoder query_type (stopped error) now job = refl
ended-owned encoder query_type (done result rows) now job =
    go (query_manifest encoder query_type rows result now)
  where
    go : (o : Option QueryManifest) → (with_manifest result now job o).tenant_id ≡ job.tenant_id
    go none = refl
    go (some manifest) = refl

ideal-life :
    (encoder : Encoder) (id query_type : String) (query : AnalyticsQuery) (execution : Execution)
    (t0 t1 t2 : ℕ) (before queue_time run_time after : List JobCall)
    → all_other id queue_time ≡ true
    → all_other id run_time ≡ true
    → all_other id after ≡ true
    → get
        (ideal tenant_of []
          (life encoder id query_type query execution t0 t1 t2 before queue_time run_time after))
        id
      ≡ some (ended_job encoder id query_type query execution t0 t1 t2)
unfolding ideal
ideal-life encoder id query_type query execution t0 t1 t2 before queue_time run_time after o1 o2
      o3 =
    let job = new_job id query.tenant_id query_type query t0 in
    let c1 = inserts id job in
    let c2 = updates query.tenant_id id (started t1) in
    let c3 = updates query.tenant_id id (ended encoder query_type execution t2) in
    let m1 = ideal_step tenant_of (ideal tenant_of [] before) c1 in
    let m2 = ideal_step tenant_of (ideal tenant_of m1 queue_time) c2 in
    let m3 = ideal_step tenant_of (ideal tenant_of m2 run_time) c3 in
    let made : get m1 id ≡ some job =
      get-put (ideal tenant_of [] before) id id job ∙ ground (arith, eq_iff id id) in
    let waited = ideal-other m1 id queue_time o1 ∙ made in
    let ran =
      ideal-other m2 id run_time o2
      ∙ ideal_hit (ideal tenant_of m1 queue_time) id job (started t1) waited in
    let past =
      ideal_past [] before c1 (queue_time ++ c2 ∷ (run_time ++ c3 ∷ after))
      ∙ ideal_past m1 queue_time c2 (run_time ++ c3 ∷ after)
      ∙ ideal_past m2 run_time c3 after in
    ap (λ m. get m id) past
    ∙ ideal-other m3 id after o3
    ∙ ideal_hit (ideal tenant_of m2 run_time) id (started t1 job)
        (ended encoder query_type execution t2) ran

ended_job-expected :
    (encoder : Encoder) (id query_type : String) (query : AnalyticsQuery) (execution : Execution)
    (t0 t1 t2 : ℕ)
    → ended_job encoder id query_type query execution t0 t1 t2
      ≡ expected_job encoder id query_type query execution t0 t1 t2
unfolding query_manifest
ended_job-expected encoder id query_type query (stopped error) t0 t1 t2 = refl
ended_job-expected encoder id query_type query (done result rows) t0 t1 t2 =
    elim (Option-cases (encoder.marshal result)) [
      | inl e ↦ rw (query_manifest, expected_job, e) refl
      | inr (data_text, e) ↦ rw (query_manifest, expected_job, e) refl
    ]

-- On a store of any bound, with any calls about other jobs and with new jobs of different IDs: a
-- job that was created and started, and whose execution has ended and was reported, is found at the
-- end by its tenant exactly if its ID is still one of the newest that the bound allows. It is then
-- succeeded, with the manifest and the result, if the execution gave a result that can be encoded,
-- and failed with the error else; and it has the times of its creation, its start and its end.
pub after_life_lem :
    (encoder : Encoder) (n : ℤ) (id query_type : String) (query : AnalyticsQuery)
    (execution : Execution) (t0 t1 t2 : ℕ) (before queue_time run_time after : List JobCall)
    → all_other id queue_time ≡ true
    → all_other id run_time ≡ true
    → all_other id after ≡ true
    → Distinct (
        created
          (life encoder id query_type query execution t0 t1 t2 before queue_time run_time after))
    → get_job
        (after_life encoder
          (new_store n)
          id
          query_type
          query
          execution
          t0
          t1
          t2
          before
          queue_time
          run_time
          after)
        query.tenant_id
        id
      ≡ (if mem id (
            newest (bound_of n) (
              created (
                life encoder id query_type query execution t0 t1 t2 before queue_time run_time
                  after)))
          then some (expected_job encoder id query_type query execution t0 t1 t2)
          else none)
unfolding get_job
after_life_lem encoder n id query_type query execution t0 t1 t2 before queue_time run_time after o1
      o2 o3 d =
    let calls =
      life encoder id query_type query execution t0 t1 t2 before queue_time run_time after in
    let made = ended_job encoder id query_type query execution t0 t1 t2 in
    let tenant = query.tenant_id in
    let own : owned tenant_of tenant (some made) ≡ some made = ground (
      arith,
      ended-owned encoder query_type execution t2
          (started t1 (new_job id tenant query_type query t0)),
      eq_iff made.tenant_id tenant,
    ) in
    ap (λ s. find tenant_of s tenant id)
      (sym (
        after_life-run encoder (new_store n) id query_type query execution t0 t1 t2 before
          queue_time run_time after))
    ∙ find-run tenant_of n calls tenant id d
    ∙ ap
        (λ o.
          if mem id (newest (bound_of n) (created calls)) then owned tenant_of tenant o else none)
        (ideal-life encoder id query_type query execution t0 t1 t2 before queue_time run_time after
          o1 o2 o3)
    ∙ ap (λ o. if mem id (newest (bound_of n) (created calls)) then o else none)
        (own ∙ ap some (ended_job-expected encoder id query_type query execution t0 t1 t2))
