-- ===== src/Repository/Inserts.antt =====
-- services/ingestion/persistence/repository.go, `Persist`, and `Insert` of store.go: the rows of
-- the batches, grouped by table, table by table in the order of the names.
use kube_cost.Prelude.{Bool, String, none, some, List, [], ◌∷◌, ◌++◌, if◌then◌else◌}
use kube_cost.Prelude.Dict.{get, put}
use Prim.Native.String.{compare}
use text.Mathlib.Text.{is_le}
use kube_cost.Wire.{Observation}
use kube_cost.Queue
use kube_cost.Repository.Values.{Library, Value}
use kube_cost.Repository.Mapped.{MappedRow, Mapped, row, skipped, invalid, Invalid}
use kube_cost.Repository.Rows.{map_observation}

pub record Insert : Type 0 where
  pub table : String
  pub columns : List String
  pub rows : List (List Value)

-- `grouped` and `order`.
pub record Groups : Type 0 where
  pub grouped : List (String × Insert)
  pub order : List String

abbrev pub empty_groups : Groups
empty_groups = record { grouped = []; order = [] }

unfoldable pub add_row : Groups → MappedRow → Groups
add_row g r = elim (get g.grouped r.table) [
  | none ↦ record {
    grouped =
        put g.grouped r.table
          (record { table = r.table; columns = r.columns; rows = r.cells ∷ [] });
    order = g.order ++ r.table ∷ [];
  }
  | some insert ↦ record g {
    grouped = put g.grouped r.table (record insert { rows = insert.rows ++ r.cells ∷ [] });
  }
]

-- The loops over batches and observations, up to the first error.
pub data Grouping : Type 0 where
  groups : Groups → Grouping
  broken : Invalid → Grouping

abbrev pub then_group : Grouping → (Groups → Grouping) → Grouping
then_group (groups g) rest = rest g
then_group (broken e) rest = broken e

abbrev pub add_mapped : Groups → Mapped → Grouping
add_mapped g (row r) = groups (add_row g r)
add_mapped g skipped = groups g
add_mapped g (invalid e) = broken e

unfoldable pub add_observations : Library → Queue.Batch → List Observation → Groups → Grouping
add_observations lib batch [] g = groups g
add_observations lib batch (o ∷ os) g =
    then_group (add_mapped g (map_observation lib batch o)) λ g'. add_observations lib batch os g'

unfoldable pub add_batches : Library → List Queue.Batch → Groups → Grouping
unfolding add_observations
add_batches lib [] g = groups g
add_batches lib (b ∷ bs) g =
    then_group (add_observations lib b b.observation_set.observations g) λ g'. add_batches lib bs g'

-- `sort.Strings`.
abbrev insert_sorted : String → List String → List String
insert_sorted s [] = s ∷ []
insert_sorted s (x ∷ xs) = if is_le (compare s x) then s ∷ x ∷ xs else x ∷ insert_sorted s xs

unfoldable pub sort_strings : List String → List String
sort_strings [] = []
sort_strings (s ∷ ss) = insert_sorted s (sort_strings ss)

pub data Persisted : Type 0 where
  stored : List Insert → Persisted
  rejected : Invalid → Persisted
  store_failed : List Insert → Persisted

-- `accepts` is the store: does `Insert` of these rows return nil? The inserts before stay.
unfoldable pub insert_all :
    (Insert → Bool) → List (String × Insert) → List String → List Insert → Persisted
insert_all accepts grouped [] done = stored done
insert_all accepts grouped (table ∷ tables) done = elim (get grouped table) [
  | none ↦ insert_all accepts grouped tables done
  | some insert ↦
      let rest = insert_all accepts grouped tables (done ++ insert ∷ []) in
      if accepts insert then rest else store_failed done
]

unfoldable pub persist : Library → (Insert → Bool) → List Queue.Batch → Persisted
persist lib accepts batches = elim (add_batches lib batches empty_groups) [
  | broken e ↦ rejected e
  | groups g ↦ insert_all accepts g.grouped (sort_strings g.order) []
]
