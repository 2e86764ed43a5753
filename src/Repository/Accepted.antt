-- ===== src/Repository/Accepted.antt =====
-- What the ingestion server has checked, `Persist` never refuses: the worker that calls it does not
-- stop.
use kube_cost.Prelude.{
  ℕ, zero, suc, ◌+◌, ◌-◌, ◌≤◌, ◌<◌, ◌≡◌, ◌≢◌, Bool, String, none, List, [], ◌∷◌, ◌++◌, eq_iff,
  range_from, All, arith, Option-cases, inl, inr, ◌⊎◌, subst, sym, ap, ◌∙◌, All-append,
}
use kube_cost.Prelude.Dict.{get}
use kube_cost.Wire.{Observation, Codec, u64_mod}
use kube_cost.Buffer.Batches.{sequences}
use kube_cost.Queue
use kube_cost.Queue.{Queue, try_enqueue}
use kube_cost.Server.Checks.{
  validate_hello, validate_batch, validate_payload, validate_inventory_record,
}
use kube_cost.Server.Valid.{IsComplete, validate_batch_iff}
use kube_cost.Server.Suffix.{suffix_after, suffix_after-IsSuffix}
use kube_cost.Server.Batch.{Frame, queued_batch, handle_batch}
use kube_cost.Server.Progress.{handle_batch-queue}
use kube_cost.Repository.Values.{Library, operation_name}
use kube_cost.Repository.Mapped.{Mapped, row, skipped, invalid, Invalid}
use kube_cost.Repository.Nodes.{map_cluster, map_node, map_namespace}
use kube_cost.Repository.Workloads.{map_deployment, map_pod, map_container}
use kube_cost.Repository.Rows.{map_observation}
use kube_cost.Repository.Inserts.{
  Insert, Groups, Grouping, groups, broken, add_row, add_mapped, then_group, add_observations,
  add_batches, empty_groups, insert_all, Persisted, rejected, persist, sort_strings,
}

-- A queued batch of complete and numbered observations of a named tenant and cluster.
pub record IsStorable (b : Queue.Batch) : Type 0 where
  pub tenant : b.tenant_id ≢ ""
  pub cluster : b.cluster_id ≢ ""
  pub complete : All IsComplete b.observation_set.observations
  pub numbered : All (λ (o : Observation). 1 ≤ o.sequence) b.observation_set.observations

abbrev IsAccepted : Mapped → Type 0
IsAccepted (invalid e) = ⊥
IsAccepted _ = Unit

-- The checks of the server are those of `mapObservation`.
map_observation-IsAccepted :
    (lib : Library) (b : Queue.Batch) (o : Observation)
    → b.tenant_id ≢ ""
    → b.cluster_id ≢ ""
    → IsComplete o
    → 1 ≤ o.sequence
    → IsAccepted (map_observation lib b o)
unfolding map_observation map_cluster map_node map_namespace map_deployment map_pod map_container
    validate_payload validate_inventory_record operation_name
map_observation-IsAccepted lib b o t c k n =
    ground (arith, eq_iff b.tenant_id "", eq_iff b.cluster_id "", eq_iff o.event_id "")

abbrev Succeeds : Grouping → Type 0
Succeeds (groups g) = Unit
Succeeds (broken e) = ⊥

then_group-Succeeds :
    (g : Groups) (r : Mapped) (rest : Groups → Grouping)
    → IsAccepted r
    → ((g' : Groups) → Succeeds (rest g'))
    → Succeeds (then_group (add_mapped g r) rest)
then_group-Succeeds g (row r) rest a f = f (add_row g r)
then_group-Succeeds g skipped rest a f = f g
then_group-Succeeds g (invalid e) rest a f = a

add_observations-Succeeds :
    (lib : Library) (b : Queue.Batch) (os : List Observation) (g : Groups)
    → b.tenant_id ≢ ""
    → b.cluster_id ≢ ""
    → All IsComplete os
    → All (λ (o : Observation). 1 ≤ o.sequence) os
    → Succeeds (add_observations lib b os g)
unfolding add_observations
add_observations-Succeeds lib b [] g t c k n = tt
add_observations-Succeeds lib b (o ∷ os) g t c k n =
    then_group-Succeeds g (map_observation lib b o) (λ g'. add_observations lib b os g')
      (map_observation-IsAccepted lib b o t c k.0 n.0)
      (λ g'. add_observations-Succeeds lib b os g' t c k.1 n.1)

after-Succeeds :
    (g : Grouping) (rest : Groups → Grouping)
    → Succeeds g
    → ((g' : Groups) → Succeeds (rest g'))
    → Succeeds (then_group g rest)
after-Succeeds (groups g) rest s f = f g
after-Succeeds (broken e) rest s f = s

add_batches-Succeeds :
    (lib : Library) (bs : List Queue.Batch) (g : Groups)
    → All IsStorable bs
    → Succeeds (add_batches lib bs g)
unfolding add_batches
add_batches-Succeeds lib [] g h = tt
add_batches-Succeeds lib (b ∷ bs) g h =
    after-Succeeds (add_observations lib b b.observation_set.observations g)
      (λ g'. add_batches lib bs g')
      (add_observations-Succeeds lib b b.observation_set.observations g h.0.tenant h.0.cluster
        h.0.complete h.0.numbered)
      (λ g'. add_batches-Succeeds lib bs g' h.1)

insert_all-accepted :
    (accepts : Insert → Bool) (grouped : List (String × Insert)) (tables : List String)
    (done : List Insert) (e : Invalid)
    → insert_all accepts grouped tables done ≢ rejected e
unfolding insert_all
insert_all-accepted accepts grouped [] done e h = cc
insert_all-accepted accepts grouped (t ∷ ts) done e h = elim (Option-cases (get grouped t)) [
  | inl p ↦ ground (arith, insert_all-accepted accepts grouped ts done e)
  | inr (i, p) ↦ ground (arith, insert_all-accepted accepts grouped ts (done ++ i ∷ []) e)
]

-- `Persist` never returns `ErrInvalidInventory` for batches of complete, numbered observations with
-- a tenant and a cluster, whatever the store answers.
pub persist-accepts :
    (lib : Library) (accepts : Insert → Bool) (batches : List Queue.Batch) (e : Invalid)
    → All IsStorable batches
    → persist lib accepts batches ≢ rejected e
unfolding persist
persist-accepts lib accepts batches e h =
    go (add_batches lib batches empty_groups) (add_batches-Succeeds lib batches empty_groups h)
  where
    go :
        (g : Grouping)
        → Succeeds g
        → (elim g as (λ _. Persisted) [
          | broken e ↦ rejected e
          | groups g' ↦ insert_all accepts g'.grouped (sort_strings g'.order) []
        ])
          ≢ rejected e
    go (groups g) s = insert_all-accepted accepts g.grouped (sort_strings g.order) [] e
    go (broken x) s = absurd s

range-numbered :
    (a n : ℕ) (os : List Observation)
    → 1 ≤ a
    → sequences os ≡ range_from a n
    → All (λ (o : Observation). 1 ≤ o.sequence) os
range-numbered a n [] h e = tt
range-numbered a zero (o ∷ os) h e = cc
range-numbered a (suc n) (o ∷ os) h e =
    let p : o.sequence ≡ a = cc in
    let q : sequences os ≡ range_from (suc a) n = cc in
    (omega arith, range-numbered (suc a) n os (omega arith) q)

queued_batch-IsStorable :
    (codec : Codec) (f : Frame) (p : ℕ)
    → validate_hello f.hello ≡ none
    → validate_batch codec f.config f.received ≡ none
    → f.received.last_sequence < u64_mod
    → p < f.received.last_sequence
    → f.received.first_sequence ≤ p + 1
    → IsStorable (queued_batch f (suffix_after codec f.received p))
unfolding queued_batch validate_hello
queued_batch-IsStorable codec f p hello ok fits more joins =
    let v = (validate_batch_iff codec f.config f.received fits).0 ok in
    let s = suffix_after-IsSuffix codec f.config f.received p v fits more joins in
    record {
      tenant = λ e. ground (arith, eq_iff f.hello.tenant_id "");
      cluster = λ e. ground (arith, eq_iff f.hello.cluster_id "");
      complete = s.complete;
      numbered =
          range-numbered (p + 1) (f.received.last_sequence - p)
            (suffix_after codec f.received p).observations (omega arith) s.in_sequence;
    }

try_enqueue-items :
    (b : Queue.Batch) (q : Queue)
    → ((try_enqueue b q).1.items ≡ q.items) ⊎ ((try_enqueue b q).1.items ≡ q.items ++ b ∷ [])
unfolding try_enqueue
try_enqueue-items b q = ground arith

-- A call of `handleBatch` on a stream whose hello passed its checks, with any batch whose last
-- sequence is a 64-bit number, and on a queue whose batches all have a tenant, a cluster and
-- complete, numbered observations, leaves a queue of such batches.
pub handle_batch-IsStorable :
    (codec : Codec) (f : Frame) (p : ℕ) (q : Queue)
    → validate_hello f.hello ≡ none
    → f.received.last_sequence < u64_mod
    → All IsStorable q.items
    → All IsStorable (handle_batch codec f p q).queue.items
handle_batch-IsStorable codec f p q hello fits h = elim (handle_batch-queue codec f p q) [
  | inl same ↦ subst (All IsStorable) (ap (λ x. x.items) (sym same)) h
  | inr (e, ok, more, joins) ↦
      let new = queued_batch f (suffix_after codec f.received p) in
      let entered : (handle_batch codec f p q).queue.items ≡ (try_enqueue new q).1.items =
        ap (λ x. x.items) e in
      let storable = queued_batch-IsStorable codec f p hello ok fits more (omega (arith, joins)) in
      elim (try_enqueue-items new q) [
        | inl same ↦ subst (All IsStorable) (sym (entered ∙ same)) h
        | inr added ↦
            subst (All IsStorable) (sym (entered ∙ added))
              (All-append IsStorable q.items (new ∷ []) h (storable, tt))
      ]
]
