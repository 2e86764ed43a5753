-- ===== src/Tests/Stores.antt =====
-- The policy store, the checkpoint files and the handshake at concrete inputs.
use kube_cost.Prelude.{
  ℕ, ◌≡◌, ◌≢◌, ◌↔◌, ◌⊎◌, refl, arith, true, false, String, Option, str_eq, if◌then◌else◌, none,
  some, List, [], ◌∷◌, eq_iff,
}
use kube_cost.Prelude.Dict.{get, put}
use kube_cost.Wire.{ServerHello, hello}
use kube_cost.Buffer.{Buffer, acknowledge}
use kube_cost.Client.{handshake}
use kube_cost.Client.Restart.{handshake_drops}
use kube_cost.Server.Checkpoint.{
  Disk, Files, CheckpointFile, IsSound, save, load, loaded, save_atomic,
}
use kube_cost.Server.Checkpoint
use kube_cost.Policy
use kube_cost.Policy.{
  PolicyVersion, PolicyFamilyState, find, new_store, create_version, activate_version, deactivate,
  policy_time, draft, active, Status, activated,
}
use kube_cost.Policy.Calls.{Call, Creation, creates, activates, step, run, one_active_version}
use kube_cost.Tests.Data.{seen, holding}

fresh_id : ◌≢◌ {A = String} "f" ""
fresh_id e = cc

abbrev creation : String → Creation
creation v = record {
  fresh = "f";
  fresh_named = fresh_id;
  tenant = "t";
  family = "f";
  created_by = "u";
  request = record { version = v; description = ""; effective_start = ""; rules = [] };
  now = 1;
}

abbrev calls : List Call
calls =
    creates (creation "a")
    ∷ creates (creation "b")
    ∷ activates "t" "f" "a" "u" 2
    ∷ activates "t" "f" "b" "u" 3
    ∷ []

abbrev version : String → Status → Policy.PolicyVersion
version v status = record {
  tenant_id = "t";
  family = "f";
  version = v;
  description = "";
  status = status;
  effective_start = 1;
  rules = [];
  created_by = "u";
  created_at = 1;
  activated_by = "u";
  activated_at = some 2;
}

abbrev family : PolicyFamilyState
family = record {
  active_version = "b";
  versions =
      ("a", version "a" Policy.inactive)
      ∷ ("b", record (version "b" active) { activated_at = some 3 })
      ∷ [];
}

found : find (run (λ s. none) new_store calls) "t" "f" ≡ some family
unfolding run step create_version activate_version deactivate policy_time get put activated
found = refl

version_a : get family.versions "a" ≡ some (version "a" Policy.inactive)
unfolding get
version_a = refl

one_active_version_example : (Policy.inactive ≡ active) ↔ ("a" ≡ family.active_version)
one_active_version_example =
    one_active_version (λ s. none) calls "t" "f" "a" {state = family}
      {p = version "a" Policy.inactive} found version_a

-- The bytes are the number alone, of one cluster; the temporary file has no name.
abbrev bytes_of : CheckpointFile → Option (List ℕ)
bytes_of file =
    if str_eq file.tenant_id "t"
    then (if str_eq file.cluster_id "c" then some (file.persisted_through ∷ []) else none)
    else none

abbrev file_of : List ℕ → Option CheckpointFile
file_of (n ∷ []) = some (record { tenant_id = "t"; cluster_id = "c"; persisted_through = n })
file_of _ = none

abbrev disk : Disk
disk = record {
  path = λ tenant cluster. if str_eq cluster "c" then "c.json" else "d.json";
  temp = λ path. "";
  marshal = bytes_of;
  unmarshal = file_of;
}

no_name_c : ◌≢◌ {A = String} "" "c.json"
no_name_c e = cc

no_name_d : ◌≢◌ {A = String} "" "d.json"
no_name_d e = cc

disk-IsSound : IsSound disk
disk-IsSound = record {
  decodes =
      λ file bytes e. ground (arith, e, eq_iff file.tenant_id "t", eq_iff file.cluster_id "c");
  apart = λ tenant cluster path e. ground (arith, e, no_name_c, no_name_d);
}

two_files : disk.path "t" "c" ≢ disk.path "t" "d"
two_files e = let x : false ≡ true = (eq_iff "c.json" "d.json").1 e in cc

abbrev os_calls : Checkpoint.Calls
os_calls = record {
  alive = true;
  directory_made = true;
  written = true;
  partial = [];
  renamed = true;
}

save_atomic_example :
    let r = save disk os_calls "t" "c" 7 [] in
    (((r.0 ≡ true) × (load disk true true "t" "c" r.1 ≡ loaded 7))
      ⊎ ((r.0 ≡ false) × (load disk true true "t" "c" r.1 ≡ load disk true true "t" "c" [])))
    × (load disk true true "t" "d" r.1 ≡ load disk true true "t" "d" [])
save_atomic_example = save_atomic disk os_calls "t" "c" "t" "d" 7 [] disk-IsSound two_files

abbrev after_restart : ServerHello
after_restart = record {
  session_id = "s";
  selected_protocol_version = some (record { major = 1; minor = 0 });
  accepted_through_sequence = 20;
  max_batch_records = 500;
  max_batch_bytes = 4096;
  heartbeat_interval = 30;
}

abbrev emptied : Buffer
emptied = record (holding []) { persisted = 20; notify = true }

accepts_hello : handshake (hello after_restart) (holding (seen 1 ∷ seen 2 ∷ [])) ≡ some emptied
unfolding handshake acknowledge
accepts_hello = refl

handshake_drops_example : emptied.entries ≡ []
handshake_drops_example =
    handshake_drops after_restart (holding (seen 1 ∷ seen 2 ∷ [])) {b' = emptied} (omega arith)
      (omega arith) accepts_hello
