-- ===== src/Inventory/Cache.antt =====
-- agent/inventory/cache.go: the fingerprints of what has been published, by key.
use kube_cost.Prelude.{
  String, Bool, true, false, ◌||◌, Option, none, some, List, [], str_eq, if◌then◌else◌,
}
use kube_cost.Prelude.Dict.{get, put, remove}
use kube_cost.Wire.{Codec}
use kube_cost.Inventory.{Event, EventError, validate, Fingerprinted, print, failed, fingerprint}

abbrev pub Cache : Type 0
Cache = List (String × String)

abbrev pub new_cache : Cache
new_cache = []

-- The results of `Changed`.
pub data Change : Type 0 where
  refused : EventError → Change
  changed unchanged : String → Change

compare_print : Option String → Fingerprinted → Change
compare_print current (failed e) = refused e
compare_print none (print p) = changed p
compare_print (some current) (print p) = if str_eq current p then unchanged p else changed p

check_change : Codec → Event → Option EventError → Cache → Change
unfolding compare_print
check_change codec e (some error) c = refused error
check_change codec e none c = compare_print (get c e.key) (fingerprint codec e.observation)

unfoldable pub change_of : Codec → Event → Cache → Change
unfolding check_change
change_of codec e c = check_change codec e (validate e) c

unfoldable pub exists : String → Cache → Bool
exists key c = elim (get c key) [ none ↦ false | some p ↦ true ]

-- The result is false for the error.
unfoldable pub commit : String → String → Cache → Bool × Cache
commit key p c = if str_eq key "" || str_eq p "" then (false, c) else (true, put c key p)

abbrev pub delete : String → Cache → Cache
delete key c = remove c key
