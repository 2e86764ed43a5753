-- ===== src/Tests/Records.antt =====
-- The repository of the worker, sessions and the agent's cache at concrete inputs.
use kube_cost.Prelude.{
  ◌≡◌, ◌≢◌, ◌⊎◌, refl, true, false, String, none, some, List, [], ◌∷◌, arith, All, length, count,
  ◌≤◌, ◌++◌,
}
use kube_cost.Prelude.Dict.{get, put, remove}
use kube_cost.Wire.{
  ObservationBatch, AgentHello, agent_hello, pos, upsert, delete, container_inventory,
  ContainerInventory,
}
use kube_cost.Queue.{Queue, try_enqueue}
use kube_cost.Server.Checks
use kube_cost.Server.Checks.{validate_hello, validate_batch}
use kube_cost.Server.Batch.{Frame, handle_batch}
use kube_cost.Server.Journal.{serve}
use kube_cost.Server.Session.{
  Server, acquired, acquire, release, on_batches, Outside, connect, cluster_key,
}
use kube_cost.Server.Session.Resume.{resume}
use kube_cost.Server.Session.Streams
use kube_cost.Server.Session.Exclusive
use kube_cost.Server.Session.Exclusive.{exclusive}
use kube_cost.Inventory
use kube_cost.Inventory.{print, fingerprint, validate}
use kube_cost.Inventory.Cache.{change_of, exists, commit, new_cache}
use kube_cost.Inventory.Collector.{publish_delta, pod_events, is_delete, has_key}
use kube_cost.Inventory.Mirror.{
  Call, Published, unpublished, last_told, cache_mirrors, publish_delta_again, HexIsNonempty,
}
use kube_cost.Inventory.Mirror
use kube_cost.Inventory.Pods.{has_deletion, pod_events_complete}
use kube_cost.Repository.Values.{Library}
use kube_cost.Repository.Mapped.{identity_required}
use kube_cost.Repository.Inserts.{persist, rejected}
use kube_cost.Repository.Arity.{IsRectangular, inserts_of, persist-IsRectangular}
use kube_cost.Repository.Accepted.{IsStorable, persist-accepts, handle_batch-IsStorable}
use kube_cost.Tests.Data.{codec, seen, batch_of, config, hello, frame, idle, queued}

abbrev library : Library
library = record { trim_space = λ s. s; time_valid = λ t. true; uuid = λ s. s }

abbrev seen_batch : ObservationBatch
seen_batch = batch_of 1 2 (seen 1 ∷ seen 2 ∷ [])

persist-IsRectangular_example :
    All IsRectangular (inserts_of (persist library (λ i. true) (queued 1 ∷ [])))
persist-IsRectangular_example = persist-IsRectangular library (λ i. true) (queued 1 ∷ [])

queued-IsStorable : IsStorable (queued 1)
unfolding Checks.validate_payload
queued-IsStorable = record {
  tenant = λ e. cc;
  cluster = λ e. cc;
  complete = ((λ e. cc, refl), ((λ e. cc, refl), tt));
  numbered = (omega arith, (omega arith, tt));
}

persist-accepts_example : persist library (λ i. true) (queued 1 ∷ []) ≢ rejected identity_required
persist-accepts_example =
    persist-accepts library (λ i. true) (queued 1 ∷ []) identity_required (queued-IsStorable, tt)

hello-accepted : validate_hello hello ≡ none
unfolding validate_hello
hello-accepted = refl

seen_batch-accepted : validate_batch codec config seen_batch ≡ none
unfolding validate_batch Checks.validate_observations Checks.validate_observation Checks.bytes_equal
    Checks.batch_checksum
seen_batch-accepted = refl

abbrev one_queued : Queue
one_queued = record { items = queued 1 ∷ []; capacity = 4; in_flight = 0; ready = true }

both_queued : length (handle_batch codec (frame seen_batch) 1 one_queued).queue.items ≡ 2
unfolding handle_batch try_enqueue
both_queued = ground (arith, seen_batch-accepted)

handle_batch-IsStorable_example :
    All IsStorable (handle_batch codec (frame seen_batch) 1 one_queued).queue.items
handle_batch-IsStorable_example =
    handle_batch-IsStorable codec (frame seen_batch) 1 one_queued hello-accepted (omega arith)
      (queued-IsStorable, tt)

abbrev fresh : Server
fresh = record { clusters = []; active = [] }

fresh-acquired : (acquire (some 0) "c" "s" fresh).0 ≡ acquired 0
unfolding acquire get
fresh-acquired = refl

resume_example :
    let calls : List (Frame × Queue) = (frame seen_batch, idle) ∷ [] in
    let s' = release "c" "s" (on_batches codec "c" calls (acquire (some 0) "c" "s" fresh).1) in
    (acquire none "c" "r" s').0 ≡ acquired (serve codec calls 0)
resume_example =
    resume codec (some 0) none "c" "s" "r" ((frame seen_batch, idle) ∷ []) fresh fresh-acquired

abbrev supported : AgentHello
supported = record hello { supported_protocol_versions = record { major = 1; minor = 0 } ∷ [] }

abbrev outside : String → Outside
outside session = record {
  authenticated = true;
  stored = some 0;
  session_id = session;
  hello_sent = true;
}

-- Two agents of one cluster: the second is turned away, until the stream of the first has ended.
abbrev first_events : List Streams.Event
first_events =
    Streams.connects (outside "r") (some (agent_hello supported))
    ∷ Streams.connects (outside "s") (some (agent_hello supported))
    ∷ []

abbrev events : List Streams.Event
events =
    first_events
    ++ Streams.ends 0 ∷ Streams.connects (outside "u") (some (agent_hello supported)) ∷ []

abbrev stream_of : String → Streams.Stream
stream_of session = record { hello = supported; session_id = session }

turned_away :
    ((Streams.run codec config Streams.start first_events).streams ≡ stream_of "r" ∷ [])
    × ((Streams.run codec config Streams.start events).streams ≡ stream_of "u" ∷ [])
unfolding Streams.run Streams.step connect acquire release cluster_key get put remove validate_hello
    Checks.supports_protocol
turned_away = (refl, refl)

-- Neither another tenant nor another cluster of the same tenant is turned away.
abbrev others : List Streams.Event
others =
    Streams.connects (outside "r") (some (agent_hello supported))
    ∷ Streams.connects (outside "s") (some (agent_hello (record supported { cluster_id = "d" })))
    ∷ Streams.connects (outside "u") (some (agent_hello (record supported { tenant_id = "o" })))
    ∷ []

others_open : length (Streams.run codec config Streams.start others).streams ≡ 3
unfolding Streams.run Streams.step connect acquire release cluster_key get put remove validate_hello
    Checks.supports_protocol
others_open = refl

exclusive_example :
    let w = Streams.run codec config Streams.start events in
    (count (Exclusive.is_of "t" "c") w.streams ≤ 1)
    × All
        (λ (st : Streams.Stream). get w.server.active (Streams.key_of st) ≡ some st.session_id)
        w.streams
exclusive_example = exclusive codec config events "t" "c"

abbrev event : Inventory.Event
event = record { key = "k"; observation = some (seen 0) }

abbrev calls : List Call
calls =
    record { operation = upsert; event = event; published = true }
    ∷ record { operation = upsert; event = event; published = true }
    ∷ record { operation = delete; event = event; published = false }
    ∷ []

id_not_empty : ◌≢◌ {A = String} "id" ""
id_not_empty e = cc

id-nonempty : HexIsNonempty codec
unfolding fingerprint
id-nonempty o p e = ground (arith, e, id_not_empty)

cache_mirrors_example :
    let w = Mirror.run codec unpublished calls in get w.cache "k" ≡ last_told codec w.log "k"
cache_mirrors_example = cache_mirrors codec calls "k" id-nonempty

event-published : (publish_delta codec upsert event true new_cache).ok ≡ true
unfolding publish_delta change_of commit validate fingerprint is_delete get exists
event-published = refl

abbrev container : ContainerInventory
container = record {
  inventory_record = none;
  pod_uid = "p";
  namespace = "n";
  pod_name = "p";
  container_name = "c";
  container_id = "";
  image = "";
  image_id = "";
  requests = none;
  limits = none;
  restart_count = pos 0;
  init_container = false;
  started_at = none;
  finished_at = none;
  namespace_uid = "";
  workload_kind = "";
  workload_uid = "";
}

abbrev container_event : Inventory.Event
container_event = record {
  key = "container/p/c";
  observation = some (record (seen 0) { payload = some (container_inventory container) });
}

pod_events_complete_example :
    (has_key [] "container/p/c" ≡ true)
    ⊎ (has_deletion
          (pod_events upsert "p" event [] (("p", ("container/p/c", container_event) ∷ []) ∷ []))
          "container/p/c"
        ≡ true)
unfolding get
pod_events_complete_example =
    pod_events_complete "p" "container/p/c" event []
      (("p", ("container/p/c", container_event) ∷ []) ∷ []) {e = container_event} refl refl
      (record {
        observed = record (seen 0) { payload = some (container_inventory container) };
        container = container;
        observation = refl;
        payload = refl;
      })
