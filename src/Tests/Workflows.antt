-- ===== src/Tests/Workflows.antt =====
-- The workflow service: one recommendation, and commands on it.
use kube_cost.Prelude.{ℕ, ◌≡◌, ◌≢◌, refl, arith, true, List, [], ◌∷◌, ◌++◌, map}
use kube_cost.Workflow.{
  Recommendation, WorkflowCommand, Calls, Route, execute, reject, approve, transition_allowed,
  apply_command, command_for, CommandRequest,
}
use kube_cost.Workflow.History.{Turn, run, step, run_final, executing_approved}
use kube_cost.Workflow.Overlap
use kube_cost.Workflow.Overlap.{concurrent_commands}

abbrev proposal : Recommendation
proposal = record {
  tenant_id = "";
  recommendation_id = "";
  cluster_id = "";
  namespace_uid = "";
  target_kind = "";
  target_uid = "";
  recommendation_type = "";
  safety_class = "";
  status = "approved";
  analysis_window_start = 1;
  analysis_window_end = 1;
  generated_at = 1;
  expires_at = 1;
  current_configuration = "";
  proposed_configuration = "";
  evidence = "";
  currency = "";
  monthly_gross_savings = "";
  monthly_net_savings = "";
  confidence = "";
  risk_score = "";
  policy_version = "";
  model_version = "";
  computation_version = "";
  version = 5;
}

abbrev request : ℕ → CommandRequest
request version = record { actor_id = "u"; reason = ""; expected_version = version; details = "{}" }

abbrev calls : Calls
calls = record { action_id = "a"; execution_id = "e"; stored = true; recorded = true }

abbrev turn : Route → ℕ → Turn
turn route now = record {
  command = command_for "" "" route (request 0) now;
  route = route;
  routed = refl;
  calls = calls;
}

abbrev running : Recommendation
running = record proposal { status = "executing" }

run_final_example : run running (turn approve 6 ∷ turn reject 7 ∷ []) ≡ running
run_final_example = run_final running (turn approve 6 ∷ turn reject 7 ∷ []) refl

abbrev opened : Recommendation
opened = record proposal { status = "open" }

abbrev turns : List Turn
turns = turn approve 6 ∷ turn execute 7 ∷ []

is_open : opened.status ≢ "executing"
is_open e = cc

executing_approved_example :
    (before : List Turn) × (after : List Turn) × (turns ≡ before ++ after)
    × ((run opened before).status ≡ "approved")
unfolding run step apply_command transition_allowed
executing_approved_example = executing_approved opened turns is_open refl

abbrev rejection : WorkflowCommand
rejection = command_for "" "" reject (request 5) 6

abbrev execution : WorkflowCommand
execution = command_for "" "" execute (request 5) 7

abbrev rivals : List Overlap.Client
rivals =
    record { command = rejection; calls = calls }
    ∷ record { command = execution; calls = calls }
    ∷ []

concurrent_commands_example :
    ((Overlap.run (Overlap.table_of proposal) (Overlap.overlapping rivals)).results
      ≡ map (Overlap.success_of proposal) rivals)
    × ((Overlap.run (Overlap.table_of proposal) (Overlap.one_by_one rivals)).results
        ≡ Overlap.first_only proposal rivals)
unfolding transition_allowed
concurrent_commands_example =
    concurrent_commands proposal rivals (λ e. absurd (omega (arith, e)))
      (
        record {
          named = refl;
          allowed = refl;
          later = omega arith;
          stored = refl;
          recorded = refl;
        },
        (
          record {
            named = refl;
            allowed = refl;
            later = omega arith;
            stored = refl;
            recorded = refl;
          },
          tt,
        ),
      )
