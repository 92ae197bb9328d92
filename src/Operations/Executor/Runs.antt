-- ===== src/Operations/Executor/Runs.antt =====
-- internal/operations/executor.go: what a run of a command leaves of the nodes' results.
use atlas_dns.Base.{
  ℕ, suc, ◌+◌, ◌≤◌, ◌≡◌, refl, ◌⊎◌, inl, inr, Bool, true, false, ◌&&◌, some, List, [], ◌∷◌, arith,
  if◌then◌else◌, Bool-cases,
}
use atlas_dns.Base.Act.{ok, Result-cases}
use atlas_dns.Operations.Model.{Operation, NodeResult, ResultStatus, ResolverResult}
use atlas_dns.Operations.Executor.Calls.{Call, Answers}
use atlas_dns.Operations.Executor.Calls
use atlas_dns.Operations.Executor.Node.{
  is_pending, Inputs, Counters, count_resolvers, count_result, ask_node, observe_after, run_node,
}
use atlas_dns.Operations.Executor.Sends.{
  commands, is_command, ask_node_same, ask_node-commands, observe_after_same,
  observe_after-commands, IsFinished,
}
use atlas_dns.Operations.Executor.{run_nodes}

unfoldable pub pending_count : List NodeResult → ℕ
pending_count [] = 0
pending_count (r ∷ rs) = if is_pending r.status then suc (pending_count rs) else pending_count rs

module _ (answers : Answers) where
  run_node_finishes :
      (operation : Operation) (inputs : Inputs) (r : NodeResult) (h : List Call) (q : NodeResult)
      → (run_node answers operation inputs r h).0 ≡ ok q
      → IsFinished r q
  unfolding run_node
  run_node_finishes operation inputs r h q e =
      let running : NodeResult = record r {
        status = ResultStatus.running;
        started_at = some (answers.now h);
      } in
      let told = Calls.update_operational_command_node operation.id running ∷ Calls.clock ∷ h in
      let asked = ask_node answers operation.command inputs running told in
      let completed : ℕ = answers.now asked.1 in
      elim (Result-cases asked.0) [
        | inr (failure, lost) ↦ ground arith
        | inl (answered, got) ↦
            let done : NodeResult = record answered {
              completed_at = some completed;
              status = ResultStatus.succeeded;
            } in
            let seen = observe_after answers operation.command done (Calls.clock ∷ asked.1) in
            let kept = ask_node_same answers operation.command inputs running told answered got in
            elim (Result-cases seen.0) [
              | inr (failure, lost) ↦ ground arith
              | inl (observed, saw) ↦
                  let same =
                    observe_after_same answers operation.command done (Calls.clock ∷ asked.1)
                      observed saw in
                  ground arith
            ]
      ]

  run_node-commands :
      (operation : Operation) (inputs : Inputs) (r : NodeResult) (h : List Call)
      → (commands h ≤ commands (run_node answers operation inputs r h).1)
        × (commands (run_node answers operation inputs r h).1 ≤ suc (commands h))
  unfolding run_node commands is_command
  run_node-commands operation inputs r h = grind (arith, ask_node-commands, observe_after-commands)

-- The results at the end of a run: of each node in its order, and a result that was not pending
-- is as it was.
abbrev pub Settles : List NodeResult → List NodeResult → Type 0
Settles [] [] = Unit
Settles (r ∷ rs) (q ∷ qs) =
    (((is_pending r.status ≡ true) × IsFinished r q) ⊎ ((is_pending r.status ≡ false) × (q ≡ r)))
    × Settles rs qs
Settles _ _ = ⊥

abbrev pub is_success : ResultStatus → Bool
is_success ResultStatus.succeeded = true
is_success _ = false

abbrev pub is_failure : ResultStatus → Bool
is_failure ResultStatus.failed = true
is_failure _ = false

-- How many of the results that were pending have become such.
unfoldable pub tally : (ResultStatus → Bool) → List NodeResult → List NodeResult → ℕ
tally p [] qs = 0
tally p (r ∷ rs) [] = 0
tally p (r ∷ rs) (q ∷ qs) =
    if is_pending r.status && p q.status then suc (tally p rs qs) else tally p rs qs

count_resolvers_same :
    (results : List ResolverResult) (k : Counters)
    → ((count_resolvers results k).succeeded ≡ k.succeeded)
      × ((count_resolvers results k).failed ≡ k.failed)
unfolding count_resolvers
count_resolvers_same [] k = (refl, refl)
count_resolvers_same (r ∷ rs) k = grind (arith, count_resolvers_same rs)

count_result_counts :
    (q : NodeResult) (k : Counters)
    → ((q.status ≡ ResultStatus.succeeded) ⊎ (q.status ≡ ResultStatus.failed))
    → ((count_result q k).succeeded ≡ k.succeeded + (if is_success q.status then 1 else 0))
      × ((count_result q k).failed ≡ k.failed + (if is_failure q.status then 1 else 0))
unfolding count_result
count_result_counts q k e = grind (arith, count_resolvers_same)

module _ (answers : Answers) where
  -- The counters of a run are of the nodes that were pending before it.
  pub run_nodes-Settles :
      (operation : Operation) (inputs : Inputs) (k : Counters) (rs : List NodeResult)
      (h : List Call) (qs : List NodeResult) (k' : Counters)
      → (run_nodes answers operation inputs k rs h).0 ≡ ok (qs, k')
      → Settles rs qs
        × (k'.succeeded ≡ k.succeeded + tally is_success rs qs)
        × (k'.failed ≡ k.failed + tally is_failure rs qs)
  unfolding run_nodes tally
  run_nodes-Settles operation inputs k [] h [] k' e = ground arith
  run_nodes-Settles operation inputs k [] h (q ∷ qs) k' e = ground arith
  run_nodes-Settles operation inputs k (r ∷ rs) h [] k' e = ground arith
  run_nodes-Settles operation inputs k (r ∷ rs) h (q ∷ qs) k' e =
      let asked = Calls.context_error ∷ h in
      let step = run_node answers operation inputs r asked in
      let rest = run_nodes answers operation inputs k rs asked in
      elim (Result-cases (answers.context h)) [
        | inr (failure, lost) ↦ ground arith
        | inl (u, going) ↦ elim (Bool-cases (is_pending r.status)) [
          | inr settled ↦
              let later : rest.0 ≡ ok (qs, k') = ground arith in
              let same : q ≡ r = ground arith in
              let (settles, good, bad) =
                run_nodes-Settles operation inputs k rs asked qs k' later in
              ((inr (settled, same), settles), ground arith, ground arith)
          | inl pending ↦
              let next = run_nodes answers operation inputs (count_result q k) rs step.1 in
              let here : step.0 ≡ ok q = ground arith in
              let later : next.0 ≡ ok (qs, k') = ground arith in
              let (settles, good, bad) =
                run_nodes-Settles operation inputs (count_result q k) rs step.1 qs k' later in
              let ends = run_node_finishes answers operation inputs r asked q here in
              let counts = count_result_counts q k ends.3 in
              ((inl (pending, ends), settles), ground arith, ground arith)
        ]
      ]

  pub run_nodes-commands :
      (operation : Operation) (inputs : Inputs) (k : Counters) (rs : List NodeResult)
      (h : List Call)
      → (commands h ≤ commands (run_nodes answers operation inputs k rs h).1)
        × (commands (run_nodes answers operation inputs k rs h).1 ≤ commands h + pending_count rs)
  unfolding run_nodes pending_count commands is_command
  run_nodes-commands operation inputs k [] h = ground arith
  run_nodes-commands operation inputs k (r ∷ rs) h =
      let asked = Calls.context_error ∷ h in
      let step = run_node answers operation inputs r asked in
      let here = run_node-commands answers operation inputs r asked in
      elim (Result-cases (answers.context h)) [
        | inr (failure, lost) ↦ ground arith
        | inl (u, going) ↦ elim (Bool-cases (is_pending r.status)) [
          | inr settled ↦ grind (arith, run_nodes-commands operation inputs k rs asked)
          | inl pending ↦ elim (Result-cases step.0) [
            | inr (failure, lost) ↦ grind arith
            | inl (q, got) ↦
                grind (arith, run_nodes-commands operation inputs (count_result q k) rs step.1)
          ]
        ]
      ]
