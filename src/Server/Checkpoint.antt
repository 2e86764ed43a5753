-- ===== src/Server/Checkpoint.antt =====
-- services/ingestion/server/checkpoint.go: the watermark of a cluster in a file, written beside it
-- and renamed. The files of the disk are a map from paths to bytes.
use kube_cost.Prelude.{
  ℕ, ◌≡◌, ◌≢◌, ◌⊎◌, arith, String, Bool, true, false, not, Option, none, some, List, eq_iff,
  if◌then◌else◌, Option-cases, inl, inr,
}
use kube_cost.Prelude.Dict.{get, put, remove, get-put, get-remove}

pub record CheckpointFile : Type 0 where
  pub tenant_id : String
  pub cluster_id : String
  pub persisted_through : ℕ  -- uint64

-- `path` is that of the tenant's and cluster's file, `temp` adds ".tmp" to it; `marshal` and
-- `unmarshal` are those of encoding/json, none an error.
pub record Disk : Type 0 where
  pub path : String → String → String
  pub temp : String → String
  pub marshal : CheckpointFile → Option (List ℕ)
  pub unmarshal : List ℕ → Option CheckpointFile

abbrev pub Files : Type 0
Files = List (String × List ℕ)

-- Is the context alive, and what the calls of `os` return; `partial` is what a failed write leaves.
pub record Calls : Type 0 where
  pub alive : Bool
  pub directory_made : Bool
  pub written : Bool
  pub partial : List ℕ
  pub renamed : Bool

-- The results of `Load`; `readable` is false for an error other than a missing file.
pub data Loaded : Type 0 where
  loaded : ℕ → Loaded
  ended read_failed decode_failed : Loaded

decode : Disk → List ℕ → Loaded
decode d data_read = elim (d.unmarshal data_read) [
  | none ↦ decode_failed
  | some file ↦ loaded file.persisted_through
]

unfoldable pub load : Disk → Bool → Bool → String → String → Files → Loaded
unfolding decode
load d alive readable tenant cluster files =
    if not alive then ended else elim (get files (d.path tenant cluster)) [
      | none ↦ loaded 0
      | some data_read ↦ if readable then decode d data_read else read_failed
    ]

store : Disk → Calls → String → Option (List ℕ) → Files → Bool × Files
store d c path none files = (false, files)
store d c path (some bytes) files =
    if not c.written
    then (false, put files (d.temp path) c.partial)
    else if c.renamed
    then (true, put (remove files (d.temp path)) path bytes)
    else (false, put files (d.temp path) bytes)

-- The result is false for an error.
unfoldable pub save : Disk → Calls → String → String → ℕ → Files → Bool × Files
unfolding store
save d c tenant cluster sequence files =
    if not c.alive
    then (false, files)
    else if not c.directory_made
    then (false, files)
    else store d c (d.path tenant cluster)
        (d.marshal
          (record { tenant_id = tenant; cluster_id = cluster; persisted_through = sequence }))
        files

-- What encoding/json decodes from its own encoding, and that a temporary file is no checkpoint.
pub record IsSound (d : Disk) : Type 0 where
  pub decodes :
      (file : CheckpointFile) (bytes : List ℕ)
      → d.marshal file ≡ some bytes
      → d.unmarshal bytes ≡ some file
  pub apart : (tenant cluster path : String) → d.temp path ≢ d.path tenant cluster

-- A `Save` replaces a checkpoint whole or not at all: it succeeds and `Load` finds the saved
-- number, or it fails, at whatever step, and `Load` finds what it found before. For a cluster whose
-- file has another path, `Load` finds what it found before. (JSON decodes its own encoding, and no
-- temporary file is a checkpoint's.)
pub save_atomic :
    (d : Disk) (c : Calls) (tenant cluster tenant' cluster' : String) (sequence : ℕ) (files : Files)
    → IsSound d
    → d.path tenant cluster ≢ d.path tenant' cluster'
    → let r = save d c tenant cluster sequence files in
      (((r.0 ≡ true) × (load d true true tenant cluster r.1 ≡ loaded sequence))
        ⊎ ((r.0 ≡ false)
            × (load d true true tenant cluster r.1 ≡ load d true true tenant cluster files)))
      × (load d true true tenant' cluster' r.1 ≡ load d true true tenant' cluster' files)
unfolding save load
save_atomic d c tenant cluster tenant' cluster' sequence files sound other =
    let path = d.path tenant cluster in
    let path' = d.path tenant' cluster' in
    let temp = d.temp path in
    let file : CheckpointFile = record {
      tenant_id = tenant;
      cluster_id = cluster;
      persisted_through = sequence;
    } in
    elim (Option-cases (d.marshal file)) [
      | inl e ↦ ground (arith, e)
      | inr (bytes, e) ↦ ground (
        arith,
        e,
        sound.decodes file bytes e,
        sound.apart tenant cluster path,
        sound.apart tenant' cluster' path,
        eq_iff temp path,
        eq_iff temp path',
        eq_iff path path,
        eq_iff path path',
        get-put files temp path c.partial,
        get-put files temp path' c.partial,
        get-put files temp path bytes,
        get-put files temp path' bytes,
        get-put (remove files temp) path path bytes,
        get-put (remove files temp) path path' bytes,
        get-remove files temp path,
        get-remove files temp path',
      )
    ]
