-- ===== src/Inventory.antt =====
-- agent/inventory/event.go: an event of the collectors, its checks and its fingerprint.
pub mod Cache
pub mod Collector
pub mod Mirror
pub mod Pods
use kube_cost.Prelude.{
  ℕ, String, Bool, true, false, Option, none, some, List, str_eq, if◌then◌else◌,
}
use kube_cost.Wire.{Observation, Codec}

pub record Event : Type 0 where
  pub key : String
  pub observation : Option Observation

-- The texts of the errors that the package makes.
pub data EventError : Type 0 where
  key_required payload_required observation_required marshal_failed : EventError

abbrev pub has_payload : Option Observation → Bool
has_payload none = false
has_payload (some o) = elim o.payload [ none ↦ false | some p ↦ true ]

-- none is success.
unfoldable pub validate : Event → Option EventError
validate e =
    if str_eq e.key ""
    then some key_required
    else if has_payload e.observation
    then none
    else some payload_required

pub data Fingerprinted : Type 0 where
  print : String → Fingerprinted
  failed : EventError → Fingerprinted

-- The observation without the fields that change from one collection to the next.
abbrev pub anonymous : Observation → Observation
anonymous o = record o {
  sequence = 0;
  event_id = "";
  observed_at = none;
  collected_at = none;
  source_resource_version = "";
}

digest : Codec → Option (List ℕ) → Fingerprinted
digest codec none = failed marshal_failed
digest codec (some bytes) = print (codec.hex (codec.sha256 bytes))

fingerprint_of : Codec → Option Observation → Fingerprinted
unfolding digest
fingerprint_of codec none = failed observation_required
fingerprint_of codec (some o) =
    if has_payload (some o)
    then digest codec (codec.marshal (anonymous o))
    else failed observation_required

unfoldable pub fingerprint : Codec → Option Observation → Fingerprinted
unfolding fingerprint_of
fingerprint codec o = fingerprint_of codec o
