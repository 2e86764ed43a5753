-- ===== src/Server/Session.antt =====
-- services/ingestion/server/server.go: `Connect` up to its loop, `acquire`, `release` and
-- `persisted`: one stream at a time for each cluster. A cluster is named by its key, the tenant ID
-- and the cluster ID.
pub mod Resume
pub mod Streams
pub mod Exclusive
use kube_cost.Prelude.{
  ℕ, ◌+◌, ◌≡◌, ◌≢◌, refl, sym, ap, subst, ◌∙◌, arith, String, Bool, true, false, not, Option, none,
  some, List, [], ◌∷◌, str_eq, eq_iff, if◌then◌else◌, Option-cases, inl, inr,
}
use kube_cost.Prelude.Dict.{get, put, remove, get-put, get-remove, dict_laws}
use kube_cost.Wire.{
  AgentHello, AgentFrame, agent_hello, batch, heartbeat, empty, ServerFrame, hello, ServerHello,
  Codec,
}
use kube_cost.Queue.{Queue}
use kube_cost.Server.Config.{Config}
use kube_cost.Server.Checks.{HelloError, validate_hello, supports_protocol}
use kube_cost.Server.Batch.{Frame, handle_batch}
use kube_cost.Server.Journal.{serve}
use Prim.Native.String.{◌++◌ as append}

pub record ClusterState : Type 0 where
  pub persisted_through : ℕ
  pub loaded : Bool

pub record Server : Type 0 where
  pub clusters : List (String × ClusterState)
  pub active : List (String × String)

pub data Acquisition : Type 0 where
  acquired : ℕ → Acquisition
  taken load_failed : Acquisition

-- `s.clusters[clusterKey]`, or a new state.
abbrev state_of : Server → String → ClusterState
state_of s key = elim (get s.clusters key) [
  | none ↦ record { persisted_through = 0; loaded = false }
  | some c ↦ c
]

-- The state under its own mutex, with the result of `checkpoints.Load` (none is an error).
load_state : ClusterState → Option ℕ → Option ClusterState
load_state c stored = if c.loaded then some c else elim stored [
  | none ↦ none
  | some p ↦ some (record { persisted_through = p; loaded = true })
]

acquire_loaded : String → String → Server → Option ClusterState → Acquisition × Server
acquire_loaded key session s none =
    (load_failed, record s { clusters = put s.clusters key (state_of s key) })
acquire_loaded key session s (some c) = (
  acquired c.persisted_through,
  record s { clusters = put s.clusters key c; active = put s.active key session },
)

unfoldable pub acquire : Option ℕ → String → String → Server → Acquisition × Server
unfolding load_state acquire_loaded
acquire stored key session s = elim (get s.active key) [
  | some other ↦ (taken, s)
  | none ↦ acquire_loaded key session s (load_state (state_of s key) stored)
]

unfoldable pub release : String → String → Server → Server
release key session s = elim (get s.active key) [
  | none ↦ s
  | some owner ↦ if str_eq owner session then record s { active = remove s.active key } else s
]

unfoldable pub persisted : String → Server → ℕ
persisted key s = elim (get s.clusters key) [ none ↦ 0 | some c ↦ c.persisted_through ]

-- One batch frame of the stream of a cluster: `handleBatch` on the cluster's watermark.
unfoldable pub on_batch : Codec → String → Frame × Queue → Server → Server
on_batch codec key (f, q) s =
    let c = state_of s key in
    record s {
      clusters = put s.clusters key (record c {
        persisted_through = (handle_batch codec f c.persisted_through q).persisted_through;
      });
    }

unfoldable pub on_batches : Codec → String → List (Frame × Queue) → Server → Server
on_batches codec key [] s = s
on_batches codec key (c ∷ cs) s = on_batches codec key cs (on_batch codec key c s)

-- How `Connect` ends before its loop, or that it is in the loop.
pub data Opening : Type 0 where
  receive_failed hello_required unauthenticated unsupported : Opening
  bad_hello : HelloError → Opening
  unavailable already_exists send_failed : Opening
  opened : ServerHello → Opening

unfoldable pub server_hello : String → ℕ → Config → ServerHello
server_hello session_id persisted config = record {
  session_id = session_id;
  selected_protocol_version = some (record { major = 1; minor = 0 });
  accepted_through_sequence = persisted;
  max_batch_records = config.max_batch_records;
  max_batch_bytes = config.max_batch_bytes;
  heartbeat_interval = config.heartbeat_interval;
}

-- What `Connect` finds outside: the authenticator, the checkpoint store, the new UUID, the send.
pub record Outside : Type 0 where
  pub authenticated : Bool
  pub stored : Option ℕ
  pub session_id : String
  pub hello_sent : Bool

-- The key of `hello`'s cluster: two hellos of one tenant and cluster have the same.
unfoldable pub cluster_key : String → String → String
cluster_key tenant_id cluster_id = append tenant_id (append "\0" cluster_id)

greet : Config → Outside → String → Acquisition × Server → Opening × Server
unfolding server_hello
greet config out key (load_failed, s) = (unavailable, s)
greet config out key (taken, s) = (already_exists, s)
greet config out key (acquired p, s) =
    if out.hello_sent
    then (opened (server_hello out.session_id p config), s)
    else (send_failed, release key out.session_id s)

check_hello : Config → Outside → AgentHello → Option HelloError → Server → Opening × Server
unfolding greet
check_hello config out h (some e) s = (bad_hello e, s)
check_hello config out h none s =
    if not out.authenticated
    then (unauthenticated, s)
    else if not (supports_protocol h.supported_protocol_versions)
    then (unsupported, s)
    else (let key = cluster_key h.tenant_id h.cluster_id in
        greet config out key (acquire out.stored key out.session_id s))

unfoldable pub connect : Config → Outside → Option AgentFrame → Server → Opening × Server
unfolding check_hello
connect config out none s = (receive_failed, s)
connect config out (some (agent_hello h)) s = check_hello config out h (validate_hello h) s
connect config out (some _) s = (hello_required, s)
