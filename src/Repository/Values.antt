-- ===== src/Repository/Values.antt =====
-- services/ingestion/persistence/repository.go: the cells of a row and the helpers that fill them.
use kube_cost.Prelude.{
  ℕ, ◌*◌, ◌≡◌, min, refl, arith, String, Bool, ◌%◌, Option, none, some, List, [], ◌∷◌, str_eq, ltb,
  if◌then◌else◌,
}
use kube_cost.Prelude.Dict.{get}
use kube_cost.Wire.{
  ℤ, pos, negsuc, Labels, unspecified, upsert, delete, InventoryRecord, operation_of,
  ResourceValues,
}

-- What the code takes from `strings`, `timestamppb` and `uuid`: `TrimSpace`, `IsValid`, and the
-- SHA-1 UUID of a text.
pub record Library : Type 0 where
  pub trim_space : String → String
  pub time_valid : ℕ → Bool
  pub uuid : String → String

-- A cell: `any` in Go.
pub data Value : Type 0 where
  text uuid : String → Value
  number instant : ℕ → Value
  labels : Labels → Value
  null : Value

-- none is the error that an operation is required.
unfoldable pub operation_name : Option InventoryRecord → Option String
operation_name r = elim (operation_of r) [
  | upsert ↦ some "upsert"
  | delete ↦ some "delete"
  | unspecified ↦ none
]

-- A missing key reads as the empty string.
abbrev label : Labels → String → String
label m key = elim (get m key) [ none ↦ "" | some v ↦ v ]

unfoldable pub first_label : Library → Labels → List String → String
first_label lib m [] = ""
first_label lib m (key ∷ keys) =
    let value = lib.trim_space (label m key) in
    let rest = first_label lib m keys in if str_eq value "" then rest else value

unfoldable pub first_non_empty : Library → List String → String
first_non_empty lib [] = ""
first_non_empty lib (value ∷ values) =
    let rest = first_non_empty lib values in
    if str_eq (lib.trim_space value) "" then rest else value

pub record Dimensions : Type 0 where
  pub team : String
  pub project : String
  pub environment : String
  pub cost_center : String

unfoldable pub promoted_dimensions : Library → Labels → Dimensions
promoted_dimensions lib m = record {
  team = first_label lib m ("team" ∷ "app.kubernetes.io/team" ∷ []);
  project = first_label lib m ("project" ∷ "app.kubernetes.io/part-of" ∷ []);
  environment = first_label lib m ("environment" ∷ "env" ∷ []);
  cost_center = first_label lib m ("cost-center" ∷ "cost_center" ∷ []);
}

unfoldable pub valid_time : Library → Option ℕ → Option ℕ
valid_time lib none = none
valid_time lib (some t) = if lib.time_valid t then some t else none

unfoldable pub nullable_time : Library → Option ℕ → Value
unfolding valid_time
nullable_time lib t = elim (valid_time lib t) [ none ↦ null | some x ↦ instant x ]

-- `nonNegative` and `nonNegative32`.
unfoldable pub non_negative : ℤ → ℕ
non_negative (pos n) = n
non_negative (negsuc n) = 0

-- The products are in uint64: beyond MaxUint64 / 1000 the result is MaxUint64.
unfoldable pub gpu_milli : ℤ → ℕ
gpu_milli (negsuc n) = 0
gpu_milli (pos n) =
    if ltb 18446744073709551 n then 18446744073709551615 else n * 1000 % 18446744073709551616

-- `gpuMilli` multiplies without overflow: the product by 1000, at most the greatest uint64.
pub gpu_milli_lem : (v : ℤ) → gpu_milli v ≡ min (non_negative v * 1000) 18446744073709551615
unfolding gpu_milli non_negative
gpu_milli_lem (negsuc n) = refl
gpu_milli_lem (pos n) = grind arith

-- A getter of an optional field of `ResourceValues`.
abbrev value_of : Option ℤ → ℤ
value_of none = pos 0
value_of (some v) = v

abbrev pub cpu_of : Option ResourceValues → ℤ
cpu_of none = pos 0
cpu_of (some r) = value_of r.cpu_millicores

abbrev pub memory_of : Option ResourceValues → ℤ
memory_of none = pos 0
memory_of (some r) = value_of r.memory_bytes

abbrev pub gpus_of : Option ResourceValues → ℤ
gpus_of none = pos 0
gpus_of (some r) = value_of r.gpu_count
