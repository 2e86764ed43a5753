-- ===== src/Workflow/Overlap.antt =====
-- services/workflow/repository.go: commands on one recommendation that overlap. `ApplyCommand` reads
-- the newest row and later inserts; other calls may come between the two, and each is a step here.
use kube_cost.Prelude.{
  true, List, [], ◌∷◌, ◌++◌, ◌≡◌, ◌≢◌, ◌<◌, refl, ap, ◌∙◌, arith, leb, if◌then◌else◌, map, All, sym,
  append-nil, append_assoc,
}
use kube_cost.Workflow.{
  Recommendation, WorkflowCommand, row, done, error, Result, Calls, transition_allowed, updated,
  done_with, apply_command, version_conflict,
}

-- A call of `ApplyCommand`: its command, and what its inserts and its UUIDs will be.
pub record Client : Type 0 where
  pub command : WorkflowCommand
  pub calls : Calls

-- The newest row, the calls that have read and not yet inserted, with what they have read, and the
-- results of those that have returned, oldest first.
pub record Table : Type 0 where
  pub newest : Recommendation
  pub waiting : List (Client × Recommendation)
  pub results : List Result

abbrev pub table_of : Recommendation → Table
table_of r = record { newest = r; waiting = []; results = [] }

-- A call reads, or the one that has waited longest goes on to its end.
pub data Event : Type 0 where
  reads : Client → Event
  inserts : Event

-- Of two rows of a recommendation the table keeps the one of the later version.
abbrev pub latest : Recommendation → List Recommendation → Recommendation
latest current [] = current
latest current (r ∷ rs) = latest (if leb current.version r.version then r else current) rs

unfoldable pub after_insert : Table → List (Client × Recommendation) → Table
after_insert t [] = t
after_insert t ((c, read) ∷ rest) =
    let o = apply_command (row read) c.command c.calls in
    record {
      newest = latest t.newest o.recommendations;
      waiting = rest;
      results = t.results ++ o.result ∷ [];
    }

unfoldable pub step : Table → Event → Table
unfolding after_insert
step t (reads c) = record t { waiting = t.waiting ++ (c, t.newest) ∷ [] }
step t inserts = after_insert t t.waiting

unfoldable pub run : Table → List Event → Table
run t [] = t
run t (e ∷ es) = run (step t e) es

-- All read before the first inserts; or each reads when the one before it has returned.
abbrev pub all_read : List Client → List Event
all_read [] = []
all_read (c ∷ cs) = reads c ∷ all_read cs

abbrev pub all_insert : List Client → List Event
all_insert [] = []
all_insert (c ∷ cs) = inserts ∷ all_insert cs

abbrev pub overlapping : List Client → List Event
overlapping cs = all_read cs ++ all_insert cs

abbrev pub one_by_one : List Client → List Event
one_by_one [] = []
one_by_one (c ∷ cs) = reads c ∷ inserts ∷ one_by_one cs

-- The command names the version of this row and is allowed from its status, comes later, and both of
-- its inserts succeed.
pub record Rivals (r : Recommendation) (c : Client) : Type 0 where
  pub named : c.command.expected_version ≡ r.version
  pub allowed : transition_allowed r.status c.command.next_status ≡ true
  pub later : r.version < c.command.occurred_at
  pub stored : c.calls.stored ≡ true
  pub recorded : c.calls.recorded ≡ true

abbrev pub success_of : Recommendation → Client → Result
success_of r c = done (done_with r c.command c.calls)

-- The first succeeds, and every other one is told of a conflict.
abbrev pub first_only : Recommendation → List Client → List Result
first_only r [] = []
first_only r (c ∷ cs) = success_of r c ∷ map (λ (d : Client). error version_conflict) cs

module _ (r : Recommendation) (positive : r.version ≢ 0) where
  apply_rival :
      (c : Client) → Rivals r c → (apply_command (row r) c.command c.calls).result ≡ success_of r c
  unfolding apply_command
  apply_rival c h = ground (arith, h)

  apply_rival-rows :
      (c : Client)
      → Rivals r c
      → (apply_command (row r) c.command c.calls).recommendations ≡ updated r c.command ∷ []
  unfolding apply_command
  apply_rival-rows c h = ground (arith, h)

  apply_conflict :
      (x : Recommendation) (c : Client)
      → Rivals r c
      → r.version < x.version
      → let o = apply_command (row x) c.command c.calls in
        (o.result ≡ error version_conflict) × (o.recommendations ≡ [])
  unfolding apply_command
  apply_conflict x c h more = ground (arith, h, positive, more)

run_reads :
    (t : Table) (cs : List Client) (es : List Event)
    → run t (all_read cs ++ es)
      ≡ run (record t { waiting = t.waiting ++ map (λ (c : Client). (c, t.newest)) cs }) es
unfolding run step
run_reads t [] es = ap (λ ws. run (record t { waiting = ws }) es) (sym (append-nil t.waiting))
run_reads t (c ∷ cs) es =
    run_reads (record t { waiting = t.waiting ++ (c, t.newest) ∷ [] }) cs es
    ∙ ap (λ ws. run (record t { waiting = ws }) es)
        (append_assoc t.waiting ((c, t.newest) ∷ []) (map (λ (d : Client). (d, t.newest)) cs))

-- A call that reads and inserts with nobody in between.
passed :
    (x : Recommendation) (c : Client) (results : List Result) {result : Result}
    {rows : List Recommendation}
    → (apply_command (row x) c.command c.calls).result ≡ result
    → (apply_command (row x) c.command c.calls).recommendations ≡ rows
    → step (step (record { newest = x; waiting = []; results = results }) (reads c)) inserts
      ≡ record { newest = latest x rows; waiting = []; results = results ++ result ∷ [] }
unfolding step
passed x c results {result} e g =
    ap
      (λ (o : Result). record {
        newest = latest x (apply_command (row x) c.command c.calls).recommendations;
        waiting = [];
        results = results ++ o ∷ [];
      })
      e
    ∙ ap
        (λ (rows : List Recommendation). record {
          newest = latest x rows;
          waiting = [];
          results = results ++ result ∷ [];
        })
        g

module _ (r : Recommendation) (positive : r.version ≢ 0) where
  -- Whatever the newest row has become, each of those that have read `r` succeeds.
  run_inserts :
      (cs : List Client) (x : Recommendation) (results : List Result)
      → All (Rivals r) cs
      → (run
          (record { newest = x; waiting = map (λ (c : Client). (c, r)) cs; results = results })
          (all_insert cs)).results
        ≡ results ++ map (success_of r) cs
  unfolding run step
  run_inserts [] x results h = sym (append-nil results)
  run_inserts (c ∷ cs) x results (h, hs) =
      run_inserts cs _ _ hs
      ∙ ap (λ (o : Result). (results ++ o ∷ []) ++ map (success_of r) cs)
          (apply_rival r positive c h)
      ∙ append_assoc results (success_of r c ∷ []) (map (success_of r) cs)

  -- Behind a row of a later version each is refused.
  run_conflicts :
      (x : Recommendation) (cs : List Client) (results : List Result)
      → All (Rivals r) cs
      → r.version < x.version
      → (run (record { newest = x; waiting = []; results = results }) (one_by_one cs)).results
        ≡ results ++ map (λ (d : Client). error version_conflict) cs
  unfolding run step
  run_conflicts x [] results h more = sym (append-nil results)
  run_conflicts x (c ∷ cs) results (h, hs) more =
      let (refused, nothing) = apply_conflict r positive x c h more in
      ap (λ t. (run t (one_by_one cs)).results) (passed x c results refused nothing)
      ∙ run_conflicts x cs (results ++ error version_conflict ∷ []) hs more
      ∙ append_assoc results (error version_conflict ∷ []) _

  run_one_by_one :
      (cs : List Client)
      → All (Rivals r) cs
      → (run (table_of r) (one_by_one cs)).results ≡ first_only r cs
  unfolding run step
  run_one_by_one [] h = refl
  run_one_by_one (c ∷ cs) (h, hs) =
      ap (λ t. (run t (one_by_one cs)).results)
        (passed r c [] (apply_rival r positive c h) (apply_rival-rows r positive c h))
      ∙ run_conflicts (latest r (updated r c.command ∷ [])) cs (success_of r c ∷ []) hs
          (ground (arith, h))

-- Any number of commands on one recommendation that name its version, which is not 0, are allowed
-- from its status, have later times and succeed in their inserts: if all of them read the row before
-- the first inserts, each of them succeeds; if each reads after the one before it has returned, the
-- first succeeds, and every other one is refused as a conflict of versions.
pub concurrent_commands :
    (r : Recommendation) (cs : List Client)
    → r.version ≢ 0
    → All (Rivals r) cs
    → ((run (table_of r) (overlapping cs)).results ≡ map (success_of r) cs)
      × ((run (table_of r) (one_by_one cs)).results ≡ first_only r cs)
concurrent_commands r cs positive h = (
  ap (λ t. t.results) (run_reads (table_of r) cs (all_insert cs))
      ∙ run_inserts r positive cs r [] h,
  run_one_by_one r positive cs h,
)
