-- ===== src/Tests/Audits.antt =====
-- The audit log with room for two events, after three.
use kube_cost.Prelude.{String, List, [], ◌∷◌}
use kube_cost.Wire.{pos}
use kube_cost.Audit.{Event, EventFilter, event_of}

abbrev event : String → String → Event
event id tenant =
    event_of id tenant
      (record {
        actor_id = "u";
        action = "read";
        resource_type = "policy";
        resource_id = "p";
        outcome = "denied";
        details = "";
      })
      1

abbrev events : List Event
events = event "1" "t" ∷ event "2" "t" ∷ event "3" "t" ∷ []

abbrev any_event : EventFilter
any_event = record { actor_id = ""; resource_type = "policy"; resource_id = ""; limit = pos 0 }
