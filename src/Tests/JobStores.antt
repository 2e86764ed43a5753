-- ===== src/Tests/JobStores.antt =====
-- The store of jobs with room for two, at concrete histories.
use kube_cost.Prelude.{◌≡◌, refl, String, none, some, List, [], ◌∷◌}
use kube_cost.Prelude.Dict.{get, put}
use kube_cost.Wire.{pos}
use kube_cost.Jobs.{new_store, find}
use kube_cost.Jobs.Kept.{inserts, updates, run, ideal, find-run}
use kube_cost.Jobs.Query.{tenant_of, new_job, started, get_job, Encoder, stopped, usage_failed}
use kube_cost.Jobs.Lifecycle.{JobCall, after_life, after_life_lem}
use kube_cost.Jobs.Expected.{failed_job}
use kube_cost.Tests.Listings.{query}

abbrev new : String → JobCall
new id = inserts id (new_job id "t" "usage" query 1)

abbrev history : List JobCall
history = new "a" ∷ new "b" ∷ updates "t" "b" (started 2) ∷ new "c" ∷ []

find-run_example :
    find tenant_of (run tenant_of (new_store (pos 2)) history) "t" "b"
    ≡ some (started 2 (new_job "b" "t" "usage" query 1))
unfolding ideal get put
find-run_example = find-run tenant_of (pos 2) history "t" "b" (refl, (refl, (refl, tt)))

abbrev encoder : Encoder
encoder = record { marshal = λ r. none; sha256 = λ s. s }

after_life_lem_example :
    get_job
      (after_life encoder
        (new_store (pos 2))
        "x"
        "usage"
        query
        (stopped usage_failed)
        1
        2
        3
        (new "a" ∷ [])
        []
        (new "b" ∷ [])
        [])
      "t"
      "x"
    ≡ some (failed_job "x" "usage" query usage_failed 1 2 3)
after_life_lem_example =
    after_life_lem encoder (pos 2) "x" "usage" query (stopped usage_failed) 1 2 3 (new "a" ∷ []) []
      (new "b" ∷ []) [] refl refl refl (refl, (refl, (refl, tt)))
