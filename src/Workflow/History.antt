-- ===== src/Workflow/History.antt =====
-- services/workflow/repository.go: what any sequence of commands can do to a recommendation.
use kube_cost.Prelude.{
  String, Bool, true, false, not, ◌&&◌, ◌||◌, List, [], ◌∷◌, ◌++◌, str_eq, eq_iff, ◌==◌, ◌≡◌, ◌≢◌,
  ◌⊎◌, refl, sym, ap, subst, ◌∙◌, arith, Bool-cases, inl, inr,
}
use kube_cost.Workflow.{
  Recommendation, WorkflowCommand, row, Calls, transition_allowed, updated, apply_command, Route,
  approve, reject, suppress, execute, next_status_of,
}

-- A command that comes after all others have ended, by one of the routes.
pub record Turn : Type 0 where
  pub command : WorkflowCommand
  pub route : Route
  pub routed : command.next_status ≡ next_status_of route
  pub calls : Calls

-- The row that the next SELECT finds: the inserted one, which has the later version.
abbrev pub newest : Recommendation → List Recommendation → Recommendation
newest current [] = current
newest current (r ∷ rs) = r

unfoldable pub step : Recommendation → Turn → Recommendation
step current t = newest current (apply_command (row current) t.command t.calls).recommendations

unfoldable pub run : Recommendation → List Turn → Recommendation
run current [] = current
run current (t ∷ ts) = run (step current t) ts

-- A command changes nothing, or makes an allowed transition to the status of its route.
step_cases :
    (r : Recommendation) (t : Turn)
    → (step r t ≡ r)
      ⊎ ((transition_allowed r.status t.command.next_status ≡ true)
          × (step r t ≡ updated r t.command))
unfolding step apply_command
step_cases r t =
    let c = t.command in
    elim (Bool-cases (not (c.expected_version == 0) && not (c.expected_version == r.version))) [
      | inl e ↦ inl (rw e refl)
      | inr e ↦ elim (Bool-cases (transition_allowed r.status c.next_status)) [
        | inl a ↦ elim (Bool-cases t.calls.stored) [
          | inl s ↦ inr (a, rw (e, a, s) refl)
          | inr s ↦ inl (rw (e, a, s) refl)
        ]
        | inr a ↦ inl (rw (e, a) refl)
      ]
    ]

-- The statuses that no route leaves.
abbrev pub is_final : String → Bool
is_final status =
    str_eq status "executing" || str_eq status "rejected" || str_eq status "suppressed"

final_of :
    (status : String)
    → is_final status ≡ true
    → (status ≡ "executing") ⊎ (status ≡ "rejected") ⊎ (status ≡ "suppressed")
final_of status h =
    ground
      (arith, h, eq_iff status "executing", eq_iff status "rejected", eq_iff status "suppressed")

final_refuses :
    (status : String) (route : Route)
    → is_final status ≡ true
    → transition_allowed status (next_status_of route) ≡ false
unfolding transition_allowed
final_refuses status route h = elim (final_of status h) [
  | inl e ↦ rw e (go "executing" route (inl refl))
  | inr (inl e) ↦ rw e (go "rejected" route (inr (inl refl)))
  | inr (inr e) ↦ rw e (go "suppressed" route (inr (inr refl)))
]
  where
    go :
        (s : String) (route : Route)
        → (s ≡ "executing") ⊎ (s ≡ "rejected") ⊎ (s ≡ "suppressed")
        → transition_allowed s (next_status_of route) ≡ false
    go s approve (inl e) = rw e refl
    go s approve (inr (inl e)) = rw e refl
    go s approve (inr (inr e)) = rw e refl
    go s reject (inl e) = rw e refl
    go s reject (inr (inl e)) = rw e refl
    go s reject (inr (inr e)) = rw e refl
    go s suppress (inl e) = rw e refl
    go s suppress (inr (inl e)) = rw e refl
    go s suppress (inr (inr e)) = rw e refl
    go s execute (inl e) = rw e refl
    go s execute (inr (inl e)) = rw e refl
    go s execute (inr (inr e)) = rw e refl

step_final : (r : Recommendation) (t : Turn) → is_final r.status ≡ true → step r t ≡ r
step_final r t h = elim (step_cases r t) [
  | inl same ↦ same
  | inr (allowed, e) ↦
      let refused : transition_allowed r.status t.command.next_status ≡ false =
        rw t.routed (final_refuses r.status t.route h) in
      absurd (ground (arith, allowed, refused))
]

-- Once a recommendation is executing, rejected or suppressed, no sequence of commands by the four
-- routes, one after another, changes it.
pub run_final : (r : Recommendation) (ts : List Turn) → is_final r.status ≡ true → run r ts ≡ r
unfolding run
run_final r [] h = refl
run_final r (t ∷ ts) h = ap (λ x. run x ts) (step_final r t h) ∙ run_final r ts h

step_executing :
    (r : Recommendation) (t : Turn)
    → r.status ≢ "executing"
    → (step r t).status ≡ "executing"
    → r.status ≡ "approved"
unfolding transition_allowed
step_executing r t ne e = elim (step_cases r t) [
  | inl same ↦ absurd (ne (ap (λ x. x.status) (sym same) ∙ e))
  | inr (allowed, u) ↦
      let next : t.command.next_status ≡ "executing" = ap (λ x. x.status) (sym u) ∙ e in
      let from : transition_allowed r.status "executing" ≡ true =
        subst (λ s. transition_allowed r.status s ≡ true) next allowed in
      (eq_iff r.status "approved").0 from
]

-- A recommendation that was not executing and is so after a sequence of commands, one after
-- another, was approved at some point of it.
pub executing_approved :
    (r : Recommendation) (ts : List Turn)
    → r.status ≢ "executing"
    → (run r ts).status ≡ "executing"
    → (before : List Turn) × (after : List Turn) × (ts ≡ before ++ after)
      × ((run r before).status ≡ "approved")
unfolding run
executing_approved r [] ne e = absurd (ne e)
executing_approved r (t ∷ ts) ne e = elim (Bool-cases (str_eq (step r t).status "executing")) [
  | inl x ↦ ([], t ∷ ts, refl, step_executing r t ne ((eq_iff (step r t).status "executing").0 x))
  | inr x ↦
      let still : (step r t).status ≢ "executing" =
        λ y. let z = (eq_iff (step r t).status "executing").1 y in absurd (ground (arith, x, z)) in
      let (before, after, split, approved) = executing_approved (step r t) ts still e in
      (t ∷ before, after, ap (λ l. t ∷ l) split, approved)
]
