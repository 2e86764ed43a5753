-- ===== src/Repository/Mapped.antt =====
-- services/ingestion/persistence/repository.go: the results of `mapObservation`.
use kube_cost.Prelude.{ℕ, String, Option, none, some, List}
use kube_cost.Wire.{InventoryRecord, RecordError, operation_required}
use kube_cost.Repository.Values.{Value, operation_name}

pub record MappedRow : Type 0 where
  pub table : String
  pub columns : List String
  pub cells : List Value

-- The reasons of `ErrInvalidInventory`.
pub data Invalid : Type 0 where
  identity_required : Invalid
  bad : RecordError → Invalid

-- A row, nothing to store (`ok` is false), or an error.
pub data Mapped : Type 0 where
  row : MappedRow → Mapped
  skipped : Mapped
  invalid : Invalid → Mapped

pub record RowBase : Type 0 where
  pub tenant_id : String
  pub cluster_id : String
  pub observed_at : ℕ
  pub event_id : String
  pub version : ℕ  -- uint64

abbrev pub with_operation : Option InventoryRecord → (String → Mapped) → Mapped
with_operation r rest = elim (operation_name r) [
  | none ↦ invalid (bad operation_required)
  | some operation ↦ rest operation
]
