-- ===== src/Audit/Log.antt =====
-- services/audit/store.go: what a listing shows of all the events that were appended.
use kube_cost.Prelude.{ℕ, ◌-◌, Bool, List, [], ◌∷◌, ◌++◌, take, filter}
use kube_cost.Audit.{Event, Store, add_event}

abbrev pub reverse : {A : Type 0} → List A → List A
reverse [] = []
reverse (x ∷ xs) = reverse xs ++ x ∷ []

-- The result that is still to come after `n` results.
abbrev rest_of : (Event → Bool) → ℕ → ℕ → List Event → List Event
rest_of shown limit n events = take (limit - n) (filter shown (reverse events))

unfoldable pub add_events : Store → List Event → Store
add_events s [] = s
add_events s (e ∷ es) = add_events (add_event s e) es
