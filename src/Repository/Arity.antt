-- ===== src/Repository/Arity.antt =====
-- The inserts of `Persist` have as many cells in each row as columns: the test that `Insert` in
-- services/ingestion/persistence/store.go makes of this never fails.
use kube_cost.Prelude.{
  ℕ, ◌≡◌, sym, subst, Bool, String, some, List, [], ◌∷◌, ◌++◌, str_eq, eq_iff, if◌then◌else◌,
  length, All, All-append, arith, Option-cases, inl, inr,
}
use kube_cost.Prelude.Dict.{get, put}
use kube_cost.Wire.{Observation}
use kube_cost.Queue
use kube_cost.Repository.Values.{Library, Value}
use kube_cost.Repository.Mapped.{MappedRow, Mapped, row, skipped, invalid}
use kube_cost.Repository.Nodes.{map_cluster, map_node, map_namespace}
use kube_cost.Repository.Workloads.{map_deployment, map_pod, map_container}
use kube_cost.Repository.Rows.{map_observation}
use kube_cost.Repository.Inserts.{
  Insert, Groups, Grouping, groups, broken, add_row, add_mapped, then_group, add_observations,
  add_batches, empty_groups, insert_all, Persisted, stored, rejected, store_failed, persist,
  sort_strings,
}

-- The number of columns of a table.
width : String → ℕ
width t =
    if str_eq t "cluster"
    then 14
    else if str_eq t "node"
    then 23
    else if str_eq t "namespace"
    then 16
    else if str_eq t "deployment"
    then 20
    else 23

abbrev IsShaped : Mapped → Type 0
IsShaped (row r) = (length r.columns ≡ width r.table) × (length r.cells ≡ width r.table)
IsShaped _ = Unit

map_observation-IsShaped :
    (lib : Library) (batch : Queue.Batch) (o : Observation) → IsShaped (map_observation lib batch o)
unfolding map_observation map_cluster map_node map_namespace map_deployment map_pod map_container
    width
map_observation-IsShaped lib batch o = ground arith

abbrev InsertFits : ℕ → Insert → Type 0
InsertFits n i = (length i.columns ≡ n) × All (λ (cells : List Value). length cells ≡ n) i.rows

abbrev GroupsFit : List (String × Insert) → Type 0
GroupsFit = All (λ e. InsertFits (width e.0) e.1)

get-InsertFits :
    (m : List (String × Insert)) (k : String) {i : Insert}
    → GroupsFit m
    → get m k ≡ some i
    → InsertFits (width k) i
unfolding get
get-InsertFits [] k h e = cc
get-InsertFits ((j, v) ∷ m) k {i} h e = ground (arith, eq_iff j k, get-InsertFits m k {i = i} h.1)

put-GroupsFit :
    (m : List (String × Insert)) (k : String) (i : Insert)
    → GroupsFit m
    → InsertFits (width k) i
    → GroupsFit (put m k i)
unfolding put
put-GroupsFit [] k i h f = (f, tt)
put-GroupsFit ((j, v) ∷ m) k i h f = ground (arith, eq_iff j k, put-GroupsFit m k i h.1 f)

add_row-GroupsFit :
    (g : Groups) (r : MappedRow)
    → IsShaped (row r)
    → GroupsFit g.grouped
    → GroupsFit (add_row g r).grouped
unfolding add_row
add_row-GroupsFit g r s h = elim (Option-cases (get g.grouped r.table)) [
  | inl e ↦
      rw (add_row, e)
        (put-GroupsFit g.grouped r.table
          (record { table = r.table; columns = r.columns; rows = r.cells ∷ [] }) h (s.0, (s.1, tt)))
  | inr (i, e) ↦
      let f = get-InsertFits g.grouped r.table h e in
      rw (add_row, e)
        (put-GroupsFit g.grouped r.table (record i { rows = i.rows ++ r.cells ∷ [] }) h
          (
            f.0,
            All-append (λ (cells : List Value). length cells ≡ width r.table) i.rows (r.cells ∷ [])
                f.1 (s.1, tt),
          ))
]

abbrev GroupingFits : Grouping → Type 0
GroupingFits (groups g) = GroupsFit g.grouped
GroupingFits (broken e) = Unit

add_mapped-GroupingFits :
    (g : Groups) (r : Mapped) → IsShaped r → GroupsFit g.grouped → GroupingFits (add_mapped g r)
add_mapped-GroupingFits g (row r) s h = add_row-GroupsFit g r s h
add_mapped-GroupingFits g skipped s h = h
add_mapped-GroupingFits g (invalid e) s h = tt

then_group-GroupingFits :
    (g : Grouping) (rest : Groups → Grouping)
    → GroupingFits g
    → ((g' : Groups) → GroupsFit g'.grouped → GroupingFits (rest g'))
    → GroupingFits (then_group g rest)
then_group-GroupingFits (groups g) rest h f = f g h
then_group-GroupingFits (broken e) rest h f = tt

add_observations-GroupingFits :
    (lib : Library) (batch : Queue.Batch) (os : List Observation) (g : Groups)
    → GroupsFit g.grouped
    → GroupingFits (add_observations lib batch os g)
unfolding add_observations
add_observations-GroupingFits lib batch [] g h = h
add_observations-GroupingFits lib batch (o ∷ os) g h =
    then_group-GroupingFits (add_mapped g (map_observation lib batch o))
      (λ g'. add_observations lib batch os g')
      (add_mapped-GroupingFits g (map_observation lib batch o)
        (map_observation-IsShaped lib batch o) h)
      (λ g' h'. add_observations-GroupingFits lib batch os g' h')

add_batches-GroupingFits :
    (lib : Library) (bs : List Queue.Batch) (g : Groups)
    → GroupsFit g.grouped
    → GroupingFits (add_batches lib bs g)
unfolding add_batches
add_batches-GroupingFits lib [] g h = h
add_batches-GroupingFits lib (b ∷ bs) g h =
    then_group-GroupingFits (add_observations lib b b.observation_set.observations g)
      (λ g'. add_batches lib bs g')
      (add_observations-GroupingFits lib b b.observation_set.observations g h)
      (λ g' h'. add_batches-GroupingFits lib bs g' h')

-- Each row of an insert is as long as its columns.
abbrev pub IsRectangular : Insert → Type 0
IsRectangular i = All (λ (cells : List Value). length cells ≡ length i.columns) i.rows

abbrev pub inserts_of : Persisted → List Insert
inserts_of (stored is) = is
inserts_of (rejected e) = []
inserts_of (store_failed is) = is

All-width :
    (n m : ℕ) (rows : List (List Value))
    → n ≡ m
    → All (λ (cells : List Value). length cells ≡ n) rows
    → All (λ (cells : List Value). length cells ≡ m) rows
All-width n m rows e h = subst (λ k. All (λ (cells : List Value). length cells ≡ k) rows) e h

InsertFits-IsRectangular : (n : ℕ) (i : Insert) → InsertFits n i → IsRectangular i
InsertFits-IsRectangular n i f = All-width n (length i.columns) i.rows (sym f.0) f.1

insert_all-IsRectangular :
    (accepts : Insert → Bool) (grouped : List (String × Insert)) (tables : List String)
    (done : List Insert)
    → GroupsFit grouped
    → All IsRectangular done
    → All IsRectangular (inserts_of (insert_all accepts grouped tables done))
unfolding insert_all
insert_all-IsRectangular accepts grouped [] done h d = d
insert_all-IsRectangular accepts grouped (t ∷ ts) done h d = elim (Option-cases (get grouped t)) [
  | inl e ↦ rw (insert_all, e) (insert_all-IsRectangular accepts grouped ts done h d)
  | inr (i, e) ↦
      let f = get-InsertFits grouped t h e in
      let d' =
        All-append IsRectangular done (i ∷ []) d (InsertFits-IsRectangular (width t) i f, tt) in
      let rest = insert_all-IsRectangular accepts grouped ts (done ++ i ∷ []) h d' in
      ground (arith, rest, d)
]

-- Whatever the batches and the store's answers: in each insert that `Persist` makes, every row has
-- as many cells as the insert has columns.
pub persist-IsRectangular :
    (lib : Library) (accepts : Insert → Bool) (batches : List Queue.Batch)
    → All IsRectangular (inserts_of (persist lib accepts batches))
unfolding persist
persist-IsRectangular lib accepts batches =
    go (add_batches lib batches empty_groups) (add_batches-GroupingFits lib batches empty_groups tt)
  where
    go :
        (g : Grouping)
        → GroupingFits g
        → All IsRectangular (
            inserts_of (elim g [
              | broken e ↦ rejected e
              | groups g' ↦ insert_all accepts g'.grouped (sort_strings g'.order) []
            ]))
    go (groups g) h = insert_all-IsRectangular accepts g.grouped (sort_strings g.order) [] h tt
    go (broken e) h = tt
