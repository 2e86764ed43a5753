-- ===== src/Jobs.antt =====
-- The bounded store of jobs that services/query/query_jobs.go (`queryJobStore`) and
-- services/export/store.go (`Store`) both have: a map of the jobs, the order in which they were
-- made, and the eviction of the oldest. Each method holds the store's lock, so it is one step.
pub mod Newest
pub mod Kept
pub mod Query
pub mod Export
pub mod Expected
pub mod Lifecycle
use kube_cost.Prelude.{
  ℕ, suc, String, Bool, true, false, Option, none, some, List, [], ◌∷◌, ◌++◌, str_eq, if◌then◌else◌,
  ltb, length,
}
use kube_cost.Prelude.Dict.{get, put, remove}
use kube_cost.Wire.{ℤ, pos, negsuc}

pub record Store (J : Type 0) : Type 0 where
  pub max_jobs : ℕ
  pub order : List String
  pub jobs : List (String × J)

-- `if maxJobs <= 0 { maxJobs = 1000 }`
abbrev pub bound_of : ℤ → ℕ
bound_of (negsuc n) = 1000
bound_of (pos n) = if ltb 0 n then n else 1000

module _ {J : Type 0} where
  unfoldable pub new_store : ℤ → Store J
  new_store max_jobs = record { max_jobs = bound_of max_jobs; order = []; jobs = [] }

  -- The loop of `evictLocked`, on `order` and `jobs`.
  unfoldable pub evict : ℕ → List String → List (String × J) → List String × List (String × J)
  evict max_jobs [] jobs = ([], jobs)
  evict max_jobs (oldest ∷ order) jobs =
      let rest = evict max_jobs order (remove jobs oldest) in
      if ltb max_jobs (length (oldest ∷ order)) then rest else (oldest ∷ order, jobs)

  -- `s.jobs[id] = job; s.order = append(s.order, id); s.evictLocked()`
  unfoldable pub insert : Store J → String → J → Store J
  unfolding evict
  insert s id job =
      let kept = evict s.max_jobs (s.order ++ id ∷ []) (put s.jobs id job) in
      record s { order = kept.0; jobs = kept.1 }

  -- A job is found by its own tenant only; `tenant_of` reads its field TenantID.
  abbrev pub owned : (J → String) → String → Option J → Option J
  owned tenant_of tenant none = none
  owned tenant_of tenant (some job) = if str_eq (tenant_of job) tenant then some job else none

  unfoldable pub find : (J → String) → Store J → String → String → Option J
  find tenant_of s tenant id = owned tenant_of tenant (get s.jobs id)

  -- `job := s.jobs[id]; …; s.jobs[id] = job; return true`, or false where it is not found.
  abbrev pub updated : Store J → String → (J → J) → Option J → Store J × Bool
  updated s id change none = (s, false)
  updated s id change (some job) = (record s { jobs = put s.jobs id (change job) }, true)

  unfoldable pub update : (J → String) → Store J → String → String → (J → J) → Store J × Bool
  update tenant_of s tenant id change = updated s id change (find tenant_of s tenant id)
