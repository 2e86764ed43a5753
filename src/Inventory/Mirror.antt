-- ===== src/Inventory/Mirror.antt =====
-- The cache mirrors what has been published, so only differences are.
use kube_cost.Prelude.{
  ◌≡◌, ◌≢◌, ◌⊎◌, refl, String, Bool, true, false, ◌||◌, Option, none, some, List, [], ◌∷◌, arith,
  str_eq, eq_iff, if◌then◌else◌, inl, inr,
}
use kube_cost.Prelude.Dict.{get, put, remove, get-put, get-remove}
use kube_cost.Wire.{Codec, InventoryOperation}
use kube_cost.Inventory.{Event, Fingerprinted, print, failed, fingerprint, validate}
use kube_cost.Inventory.Cache.{Cache, new_cache, change_of, exists, commit}
use kube_cost.Inventory.Collector.{Delta, publish_delta, is_deletion, is_delete}

-- A call of `publishDelta`, with the answer of the publisher.
pub record Call : Type 0 where
  pub operation : InventoryOperation
  pub event : Event
  pub published : Bool

abbrev removes : InventoryOperation → Event → Bool
removes operation e = is_deletion operation || is_delete e

-- The cache, and what the publisher has taken, the last first; true is a delete.
pub record Published : Type 0 where
  pub cache : Cache
  pub log : List (Event × Bool)

unfoldable pub step : Codec → Published → Call → Published
step codec w c =
    let d = publish_delta codec c.operation c.event c.published w.cache in
    record {
      cache = d.cache;
      log = if d.sent then (c.event, removes c.operation c.event) ∷ w.log else w.log;
    }

unfoldable pub run : Codec → Published → List Call → Published
run codec w [] = w
run codec w (c ∷ cs) = run codec (step codec w c) cs

abbrev pub unpublished : Published
unpublished = record { cache = new_cache; log = [] }

abbrev print_of : Fingerprinted → Option String
print_of (print p) = some p
print_of (failed e) = none

-- The fingerprint of the last event with this key, none if it was a delete or there was none.
unfoldable pub last_told : Codec → List (Event × Bool) → String → Option String
last_told codec [] key = none
last_told codec ((e, deleted) ∷ log) key =
    let before = last_told codec log key in
    if str_eq e.key key
    then (if deleted then none else print_of (fingerprint codec e.observation))
    else before

-- A hexadecimal text of a digest is not empty.
abbrev pub HexIsNonempty : Codec → Type 0
HexIsNonempty codec = (o : Option _) (p : String) → fingerprint codec o ≡ print p → p ≢ ""

-- `publishDelta` keeps the cache and sends nothing, or sends a delete and forgets the key, or sends
-- the event and remembers its fingerprint.
abbrev DeltaCases : Codec → Event → Bool → Cache → Delta → Type 0
DeltaCases codec e removal c d =
    ((d.sent ≡ false) × (d.cache ≡ c))
    ⊎ (((d.sent ≡ true) × (removal ≡ true) × (d.cache ≡ remove c e.key))
        ⊎ ((p : String) × (d.sent ≡ true)
            × (removal ≡ false)
            × (fingerprint codec e.observation ≡ print p)
            × (d.cache ≡ put c e.key p)))

publish_delta_cases :
    (codec : Codec) (operation : InventoryOperation) (e : Event) (published : Bool) (c : Cache)
    → HexIsNonempty codec
    → DeltaCases codec e (removes operation e) c (publish_delta codec operation e published c)
unfolding publish_delta change_of commit validate
publish_delta_cases codec operation e published c hex = go (fingerprint codec e.observation) refl
  where
    go :
        (x : Fingerprinted)
        → fingerprint codec e.observation ≡ x
        → DeltaCases codec e (removes operation e) c (publish_delta codec operation e published c)
    go (print p) eq = ground (arith, hex e.observation p eq, eq_iff e.key "", eq_iff p "")
    go (failed error) eq = ground (arith, eq_iff e.key "")

step-mirror :
    (codec : Codec) (w : Published) (c : Call) (key : String)
    → HexIsNonempty codec
    → get w.cache key ≡ last_told codec w.log key
    → get (step codec w c).cache key ≡ last_told codec (step codec w c).log key
unfolding step last_told
step-mirror codec w c key hex h =
    elim (publish_delta_cases codec c.operation c.event c.published w.cache hex) [
      | inl (s, e) ↦ rw (s, e) h
      | inr (inl (s, r, e)) ↦ rw (s, r, e) (ground (arith, h, get-remove w.cache c.event.key key))
      | inr (inr (p, s, r, f, e)) ↦
          rw (s, r, e) (ground (arith, f, h, get-put w.cache c.event.key key p))
    ]

run-mirror :
    (codec : Codec) (w : Published) (calls : List Call) (key : String)
    → HexIsNonempty codec
    → get w.cache key ≡ last_told codec w.log key
    → get (run codec w calls).cache key ≡ last_told codec (run codec w calls).log key
unfolding run
run-mirror codec w [] key hex h = h
run-mirror codec w (c ∷ cs) key hex h =
    run-mirror codec (step codec w c) cs key hex (step-mirror codec w c key hex h)

-- After any calls of `publishDelta` from an empty cache, whatever the publisher answers: the cache
-- holds for each key the fingerprint of the last event with it that the publisher took, and nothing
-- if that was a delete or there was none. (The hexadecimal text of a digest is not empty.)
pub cache_mirrors :
    (codec : Codec) (calls : List Call) (key : String)
    → HexIsNonempty codec
    → let w = run codec unpublished calls in get w.cache key ≡ last_told codec w.log key
unfolding last_told get
cache_mirrors codec calls key hex = run-mirror codec unpublished calls key hex refl

-- If `publishDelta` has succeeded for an event, the same call on the cache that it has left
-- succeeds, sends nothing and keeps the cache.
pub publish_delta_again :
    (codec : Codec) (operation : InventoryOperation) (e : Event) (published published' : Bool)
    (c : Cache)
    → (publish_delta codec operation e published c).ok ≡ true
    → let c' = (publish_delta codec operation e published c).cache in
      let d' = publish_delta codec operation e published' c' in
      (d'.ok ≡ true) × (d'.sent ≡ false) × (d'.cache ≡ c')
unfolding publish_delta change_of commit validate exists
publish_delta_again codec operation e published published' c h =
    go (fingerprint codec e.observation) refl
  where
    go :
        (x : Fingerprinted)
        → fingerprint codec e.observation ≡ x
        → let c' = (publish_delta codec operation e published c).cache in
          let d' = publish_delta codec operation e published' c' in
          (d'.ok ≡ true) × (d'.sent ≡ false) × (d'.cache ≡ c')
    go (print p) eq =
        ground
          (arith, get-put c e.key e.key p, get-remove c e.key e.key, eq_iff e.key e.key, eq_iff p p)
    go (failed error) eq = ground (arith, get-remove c e.key e.key, eq_iff e.key e.key)
