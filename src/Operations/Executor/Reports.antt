-- ===== src/Operations/Executor/Reports.antt =====
-- internal/operations/executor.go: how an operation is reported at its end.
use atlas_dns.Base.{
  ℕ, String, ◌≡◌, refl, ◌⊎◌, inl, inr, Bool, true, false, some, List, [], ◌∷◌, ◌++◌, arith,
  Bool-cases,
}
use atlas_dns.Base.Act.{Result, ok, err, Result-cases, Quiet}
use atlas_dns.Domain.{Failure, MetaValue, number, text}
use atlas_dns.Operations.Model.{Command, Operation, NodeResult, ResultStatus}
use atlas_dns.Operations.Executor.Calls.{Call, Answers}
use atlas_dns.Operations.Executor.Calls
use atlas_dns.Operations.Executor.Node.{
  is_pending, Inputs, Counters, ask_node, send_command, find_request, observe_after, run_node,
  operation_audit, count_result,
}
use atlas_dns.Operations.Executor.Sends.{commands, is_command}
use atlas_dns.Operations.Executor.{
  run_nodes, fail_results, finish, finish_run, final_status, action_status, status_text,
}

-- The operations that were reported at an end, in their order.
unfoldable pub reported : List Call → List Operation
reported [] = []
reported (Calls.finish_operational_command operation event ∷ h) = reported h ++ operation ∷ []
reported (_ ∷ h) = reported h

-- What a result is after it was failed with a code, unless `keep` admits it.
abbrev pub Fails : (ResultStatus → Bool) → String → List NodeResult → List NodeResult → Type 0
Fails keep code [] [] = Unit
Fails keep code (r ∷ rs) (q ∷ qs) =
    (((keep r.status ≡ true) × (q ≡ r))
      ⊎ ((keep r.status ≡ false)
          × (q.node_id ≡ r.node_id)
          × (q.status ≡ ResultStatus.failed)
          × (q.error_code ≡ code)))
    × Fails keep code rs qs
Fails keep code _ _ = ⊥

-- The report of an operation: it with the end's time and its event's id, or none and an error.
abbrev pub Ends : Operation → ℕ → List Call → Result Failure (Unit {0}) × List Call → Type 0
Ends operation at h ran =
    ((reported ran.1 ≡ reported h) × ((e : Failure) × (ran.0 ≡ err e)))
    ⊎ ((reference : String) × (reported ran.1
          ≡ reported h
            ++ (record operation { audit_reference = reference; completed_at = some at }) ∷ []))

module _ (answers : Answers) where
  pub finish-Ends :
      (operation : Operation) (suffix : String) (extra : List (String × MetaValue)) (at : ℕ)
      (h : List Call)
      → Ends operation at h (finish answers operation suffix extra at h)
  unfolding finish operation_audit reported
  finish-Ends operation suffix extra at h = elim (Result-cases (answers.id h)) [
    | inr (e, lost) ↦ inl (ground arith, (e, ground arith))
    | inl (id, got) ↦ inr (id, ground arith)
  ]

  pub finish_run-Ends :
      (operation : Operation) (rs : List NodeResult) (k : Counters) (h : List Call)
      → Ends
          (record operation { node_results = rs; status = final_status k })
          (answers.now h)
          h
          (finish_run answers operation rs k h)
  unfolding finish_run reported
  finish_run-Ends operation rs k h = ground (
    arith,
    finish-Ends (record operation { node_results = rs; status = final_status k })
        (action_status (final_status k))
        (("status", text (status_text (final_status k)))
          ∷ ("succeededCount", number k.succeeded)
          ∷ ("failedCount", number k.failed)
          ∷ ("resolverSucceededCount", number k.resolver_succeeded)
          ∷ ("resolverFailedCount", number k.resolver_failed)
          ∷ [])
        (answers.now h) (Calls.clock ∷ h),
  )

  pub finish_run-commands :
      (operation : Operation) (rs : List NodeResult) (k : Counters)
      → Quiet commands (finish_run answers operation rs k)
  unfolding finish_run finish operation_audit commands is_command
  finish_run-commands operation rs k h = ground arith

  pub finish-commands :
      (operation : Operation) (suffix : String) (extra : List (String × MetaValue)) (at : ℕ)
      → Quiet commands (finish answers operation suffix extra at)
  unfolding finish operation_audit commands is_command
  finish-commands operation suffix extra at h = ground arith

  pub fail_results-Quiet :
      (keep : ResultStatus → Bool) (id code : String) (now : ℕ) (rs : List NodeResult)
      (h : List Call)
      → let after = (fail_results answers keep id code now rs h).1 in
        (reported after ≡ reported h) × (commands after ≡ commands h)
  unfolding fail_results reported commands is_command
  fail_results-Quiet keep id code now [] h = ground arith
  fail_results-Quiet keep id code now (r ∷ rs) h =
      grind (arith, fail_results-Quiet keep id code now rs)

  pub fail_results-Fails :
      (keep : ResultStatus → Bool) (id code : String) (now : ℕ) (rs : List NodeResult)
      (h : List Call) (qs : List NodeResult)
      → (fail_results answers keep id code now rs h).0 ≡ ok qs
      → Fails keep code rs qs
  unfolding fail_results
  fail_results-Fails keep id code now [] h [] e = tt
  fail_results-Fails keep id code now [] h (q ∷ qs) e = ground arith
  fail_results-Fails keep id code now (r ∷ rs) h [] e = ground arith
  fail_results-Fails keep id code now (r ∷ rs) h (q ∷ qs) e =
      let failed : NodeResult = record r {
        status = ResultStatus.failed;
        error_code = code;
        completed_at = some now;
      } in
      let told = Calls.update_operational_command_node id failed ∷ h in
      elim (Bool-cases (keep r.status)) [
        | inl kept ↦
            let rest : (fail_results answers keep id code now rs h).0 ≡ ok qs = ground arith in
            (ground arith, fail_results-Fails keep id code now rs h qs rest)
        | inr unkept ↦
            let rest : (fail_results answers keep id code now rs told).0 ≡ ok qs = ground arith in
            (ground arith, fail_results-Fails keep id code now rs told qs rest)
      ]

  ask_node_unreported :
      (command : Command) (inputs : Inputs) (r : NodeResult)
      → Quiet reported (ask_node answers command inputs r)
  unfolding ask_node find_request send_command reported
  ask_node_unreported command inputs r h = ground arith

  observe_after_unreported :
      (command : Command) (r : NodeResult) → Quiet reported (observe_after answers command r)
  unfolding observe_after reported
  observe_after_unreported command r h = ground arith

  run_node_unreported :
      (operation : Operation) (inputs : Inputs) (r : NodeResult)
      → Quiet reported (run_node answers operation inputs r)
  unfolding run_node reported
  run_node_unreported operation inputs r h =
      grind (arith, ask_node_unreported, observe_after_unreported)

  pub run_nodes_unreported :
      (operation : Operation) (inputs : Inputs) (k : Counters) (rs : List NodeResult)
      → Quiet reported (run_nodes answers operation inputs k rs)
  unfolding run_nodes reported
  run_nodes_unreported operation inputs k [] h = refl
  run_nodes_unreported operation inputs k (r ∷ rs) h =
      let asked = Calls.context_error ∷ h in
      let step = run_node answers operation inputs r asked in
      let quiet = run_node_unreported operation inputs r asked in
      elim (Result-cases (answers.context h)) [
        | inr (failure, lost) ↦ ground arith
        | inl (u, going) ↦ elim (Bool-cases (is_pending r.status)) [
          | inr settled ↦ grind (arith, run_nodes_unreported operation inputs k rs asked)
          | inl pending ↦ elim (Result-cases step.0) [
            | inr (failure, lost) ↦ ground arith
            | inl (q, got) ↦
                grind (arith, run_nodes_unreported operation inputs (count_result q k) rs step.1)
          ]
        ]
      ]
