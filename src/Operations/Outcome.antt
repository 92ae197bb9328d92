-- ===== src/Operations/Outcome.antt =====
-- internal/operations/executor.go: what a run of the executor sends and reports.
use atlas_dns.Base.{
  ℕ, ◌+◌, ◌≤◌, ◌<◌, String, ◌≡◌, refl, ◌⊎◌, inl, inr, Bool, some, List, [], ◌∷◌, ◌++◌, arith,
  ltb→lt, lt→ltb, Option-cases,
}
use atlas_dns.Base.Act.{Result, ok, err, Result-cases}
use atlas_dns.Domain.{Failure, MetaValue, text, internal, kind_text}
use atlas_dns.Operations.Model.{
  Command, Operation, OperationStatus, NodeResult, ResultStatus, UpstreamInput, HostFilterInput,
}
use atlas_dns.Operations.Executor.Calls.{Call, Answers, Run}
use atlas_dns.Operations.Executor.Calls
use atlas_dns.Operations.Executor.Node.{
  Inputs, no_inputs, Counters, no_counts, operation_error_code,
}
use atlas_dns.Operations.Executor.Sends.{commands, is_command}
use atlas_dns.Operations.Executor.Runs.{
  pending_count, Settles, tally, is_success, is_failure, run_nodes-Settles, run_nodes-commands,
}
use atlas_dns.Operations.Executor.Reports.{
  reported, Fails, finish-Ends, finish-commands, finish_run-Ends, finish_run-commands,
  fail_results-Quiet, fail_results-Fails, run_nodes_unreported,
}
use atlas_dns.Operations.Executor.{
  insert_by_position, sort_by_position, final_status, run_nodes, fail_results, finish_failed,
  fail_all, is_settled, decode, run_decoded, run_claimed, run_once,
}

insert_by_position-pending_count :
    (r : NodeResult) (rs : List NodeResult)
    → pending_count (insert_by_position r rs) ≡ pending_count (r ∷ rs)
unfolding insert_by_position pending_count
insert_by_position-pending_count r [] = refl
insert_by_position-pending_count r (q ∷ qs) = grind (arith, insert_by_position-pending_count r qs)

sort_by_position-pending_count :
    (rs : List NodeResult) → pending_count (sort_by_position rs) ≡ pending_count rs
unfolding sort_by_position pending_count
sort_by_position-pending_count [] = refl
sort_by_position-pending_count (r ∷ rs) = grind (
  arith,
  insert_by_position-pending_count r (sort_by_position rs),
  sort_by_position-pending_count rs,
)

-- A status, by how many of the nodes that were to run succeeded and how many failed.
abbrev pub Reflects : ℕ → ℕ → OperationStatus → Type 0
Reflects good bad status =
    ((status ≡ OperationStatus.succeeded) × (bad ≡ 0))
    ⊎ ((status ≡ OperationStatus.failed) × (good ≡ 0) × (0 < bad))
    ⊎ ((status ≡ OperationStatus.partial_success) × (0 < good) × (0 < bad))

final_status-Reflects : (k : Counters) → Reflects k.succeeded k.failed (final_status k)
unfolding final_status
final_status-Reflects k = grind (arith, ltb→lt, lt→ltb)

-- An operation at its end, after all its nodes were settled by a run or none was sent a command.
abbrev pub Ran : Operation → Operation → Type 0
Ran operation final =
    Settles (sort_by_position operation.node_results) final.node_results
    × Reflects (tally is_success (sort_by_position operation.node_results) final.node_results)
        (tally is_failure (sort_by_position operation.node_results) final.node_results) final.status

abbrev pub Failed :
    (ResultStatus → Bool) → String → OperationStatus → Operation → Operation → Type 0
Failed keep code status operation final =
    (final.status ≡ status) × Fails keep code operation.node_results final.node_results

-- One report, of an operation that is as `P` says; or none, and an error.
abbrev pub ReportsOne :
    {A : Type 0}
    → (Operation → Operation → Type 0)
    → Operation
    → List Call
    → Result Failure A × List Call
    → Type 0
ReportsOne P operation h ran =
    ((reported ran.1 ≡ reported h) × ((e : Failure) × (ran.0 ≡ err e)))
    ⊎ ((final : Operation) × (reported ran.1 ≡ reported h ++ final ∷ [])
        × (final.id ≡ operation.id)
        × P operation final)

module _ (answers : Answers) where
  run_decoded-Ran :
      (operation : Operation) (inputs : Inputs) (h : List Call)
      → ReportsOne Ran operation h (run_decoded answers operation inputs h)
  unfolding run_decoded
  run_decoded-Ran operation inputs h =
      let rs = sort_by_position operation.node_results in
      let ran = run_nodes answers operation inputs no_counts rs h in
      let quiet = run_nodes_unreported answers operation inputs no_counts rs h in
      elim (Result-cases ran.0) [
        | inr (e, lost) ↦ inl (ground arith, (e, ground arith))
        | inl ((qs, k), got) ↦
            let (settles, good, bad) =
              run_nodes-Settles answers operation inputs no_counts rs h qs k got in
            let status = final_status k in
            let final : Operation = record operation { node_results = qs; status = status } in
            let reflects : Reflects (tally is_success rs qs) (tally is_failure rs qs) status =
              grind (arith, final_status-Reflects k) in
            elim (finish_run-Ends answers operation qs k ran.1) [
              | inl (none_more, (e, failed)) ↦ inl (ground arith, (e, ground arith))
              | inr (reference, wrote) ↦ inr (
                record final {
                  audit_reference = reference;
                  completed_at = some (answers.now ran.1);
                },
                ground arith,
                refl,
                (settles, reflects),
              )
            ]
      ]

  run_decoded-commands :
      (operation : Operation) (inputs : Inputs) (h : List Call)
      → let after = (run_decoded answers operation inputs h).1 in
        (commands h ≤ commands after)
        × (commands after ≤ commands h + pending_count operation.node_results)
  unfolding run_decoded
  run_decoded-commands operation inputs h =
      let rs = sort_by_position operation.node_results in
      let ran = run_nodes answers operation inputs no_counts rs h in
      let sent = run_nodes-commands answers operation inputs no_counts rs h in
      let same = sort_by_position-pending_count operation.node_results in
      elim (Result-cases ran.0) [
        | inr (e, lost) ↦ ground arith
        | inl ((qs, k), got) ↦ ground (arith, finish_run-commands answers operation qs k ran.1)
      ]

  -- The end of a failure sends no command.
  pub finish_failed-Failed :
      (keep : ResultStatus → Bool) (code : String) (status : OperationStatus)
      (extra : List (String × MetaValue)) (operation : Operation) (h : List Call)
      → let ran = finish_failed answers keep code status extra operation h in
        ReportsOne (Failed keep code status) operation h ran × (commands ran.1 ≡ commands h)
  unfolding finish_failed reported commands is_command
  finish_failed-Failed keep code status extra operation h =
      let told = Calls.clock ∷ h in
      let failing =
        fail_results answers keep operation.id code (answers.now h) operation.node_results told in
      let (unreported, unsent) =
        fail_results-Quiet answers keep operation.id code (answers.now h) operation.node_results
          told in
      elim (Result-cases failing.0) [
        | inr (e, lost) ↦ (inl (ground arith, (e, ground arith)), ground arith)
        | inl (qs, got) ↦
            let fails =
              fail_results-Fails answers keep operation.id code (answers.now h)
                operation.node_results told qs got in
            let final : Operation = record operation { node_results = qs; status = status } in
            (
              elim (finish-Ends answers final "_failed" extra (answers.now h) failing.1) [
                | inl (none_more, (e, failed)) ↦ inl (ground arith, (e, ground arith))
                | inr (reference, wrote) ↦ inr (
                  record final { audit_reference = reference; completed_at = some (answers.now h) },
                  ground arith,
                  refl,
                  (refl, fails),
                )
              ],
              ground
                  (arith, finish-commands answers final "_failed" extra (answers.now h) failing.1),
            )
      ]

  -- The decrypted input is of the command: only the two tests have one to decode.
  abbrev pub IsReadable : Command → List ℕ → Type 0
  IsReadable Command.test_upstream_dns payload =
      (i : UpstreamInput) × (answers.decode_upstream payload ≡ ok i)
  IsReadable Command.test_host_filtering payload =
      (i : HostFilterInput) × (answers.decode_host payload ≡ ok i)
  IsReadable _ payload = Unit

  abbrev pub IsUnreadable : Command → List ℕ → Type 0
  IsUnreadable Command.test_upstream_dns payload =
      (e : Failure) × (answers.decode_upstream payload ≡ err e)
  IsUnreadable Command.test_host_filtering payload =
      (e : Failure) × (answers.decode_host payload ≡ err e)
  IsUnreadable _ payload = ⊥

  decode-cases :
      (command : Command) (payload : List ℕ)
      → ((inputs : Inputs) × (decode answers command payload ≡ ok inputs)
          × IsReadable command payload)
        ⊎ ((e : Failure) × (decode answers command payload ≡ err e) × IsUnreadable command payload)
  unfolding decode
  decode-cases Command.test_upstream_dns payload =
      elim (Result-cases (answers.decode_upstream payload)) [
        | inr (e, bad) ↦ inr (e, ground arith, (e, bad))
        | inl (i, good) ↦ inl (record no_inputs { upstream = i }, ground arith, (i, good))
      ]
  decode-cases Command.test_host_filtering payload =
      elim (Result-cases (answers.decode_host payload)) [
        | inr (e, bad) ↦ inr (e, ground arith, (e, bad))
        | inl (i, good) ↦ inl (record no_inputs { host_filter = i }, ground arith, (i, good))
      ]
  decode-cases Command.clear_dns_cache payload = inl (no_inputs, refl, tt)
  decode-cases Command.clear_query_log payload = inl (no_inputs, refl, tt)
  decode-cases Command.reset_statistics payload = inl (no_inputs, refl, tt)
  decode-cases (Command.other_command name) payload = inl (no_inputs, refl, tt)

  -- The input of a claimed operation was decrypted and decoded, or one of the two failed.
  abbrev pub InputRead : Operation → List Call → Type 0
  InputRead operation at =
      (payload : List ℕ) × (answers.payload at ≡ ok payload) × IsReadable operation.command payload

  abbrev pub InputLost : Operation → List Call → Type 0
  InputLost operation at =
      ((e : Failure) × (answers.payload at ≡ err e))
      ⊎ ((payload : List ℕ) × (answers.payload at ≡ ok payload)
          × IsUnreadable operation.command payload)

  -- What an operation comes to that was claimed at `at`, in a run that began at `h`.
  abbrev pub Comes :
      {A : Type 0} → Operation → List Call → List Call → Result Failure A × List Call → Type 0
  Comes operation at h ran =
      (InputRead operation at
        × ReportsOne Ran operation h ran
        × (commands ran.1 ≤ commands h + pending_count operation.node_results))
      ⊎ (InputLost operation at
          × ReportsOne (Failed is_settled (kind_text internal) OperationStatus.failed) operation h
              ran
          × (commands ran.1 ≡ commands h))

  run_claimed-Comes :
      (operation : Operation) (h : List Call)
      → Comes operation h h (run_claimed answers operation h)
  unfolding run_claimed fail_all operation_error_code reported commands is_command
  run_claimed-Comes operation h =
      let opened = Calls.decrypt_payload operation.id operation.payload ∷ h in
      let extra : List (String × MetaValue) =
        ("status", text "failed") ∷ ("errorCode", text (kind_text internal)) ∷ [] in
      let (failed, unsent) =
        finish_failed-Failed is_settled (kind_text internal) OperationStatus.failed extra operation
          opened in
      elim (Result-cases (answers.payload h)) [
        | inr (e, lost) ↦ inr (inl (e, lost), ground arith, ground arith)
        | inl (payload, got) ↦ elim (decode-cases operation.command payload) [
          | inr (e, garbled, shown) ↦ inr (inr (payload, got, shown), ground arith, ground arith)
          | inl (inputs, read, shown) ↦ inl (
            (payload, got, shown),
            ground (arith, run_decoded-Ran operation inputs opened),
            ground (arith, run_decoded-commands operation inputs opened),
          )
        ]
      ]

  -- What a turn of the executor does. Either no node is sent a command and nothing is reported, or
  -- an operation was claimed. Then it is reported once, unless an error is returned. Either its
  -- input could not be decrypted or decoded; then no node is sent a command and each result that
  -- had not succeeded or failed has failed in the report. Or it was read; then the nodes are sent at most as many commands as there were pending
  -- results, each pending result is succeeded or failed in the report and the others are as they
  -- were, and the reported status is succeeded if none of them failed, failed if all did, else
  -- partial. It holds whatever the collaborators answer.
  pub run_once-Comes :
      (h : List Call)
      → let ran = run_once answers h in
        ((reported ran.1 ≡ reported h) × (commands ran.1 ≡ commands h))
        ⊎ ((operation : Operation) × (answers.claimed (Calls.clock ∷ h) ≡ ok (some operation))
            × Comes operation
                (Calls.claim_operational_command (answers.now h) ∷ Calls.clock ∷ h)
                h
                ran)
  unfolding run_once reported commands is_command
  run_once-Comes h =
      let asked = Calls.claim_operational_command (answers.now h) ∷ Calls.clock ∷ h in
      elim (Result-cases (answers.claimed (Calls.clock ∷ h))) [
        | inr (e, lost) ↦ inl (ground arith, ground arith)
        | inl (claimed, got) ↦ elim (Option-cases claimed) [
          | inl idle ↦ inl (ground arith, ground arith)
          | inr (operation, work) ↦
              let done = run_claimed answers operation asked in
              let same : (run_once answers h).1 ≡ done.1 = elim (Result-cases done.0) [
                | inr (e, lost) ↦ ground arith
                | inl (u, ended) ↦ ground arith
              ] in
              let fails : (e : Failure) → done.0 ≡ err e → (run_once answers h).0 ≡ err e =
                λ e bad. ground arith in
              inr (
                operation,
                ground arith,
                elim (run_claimed-Comes operation asked) [
                  | inl (shown, inl (none_more, (e, bad)), bound) ↦
                      inl (shown, inl (ground arith, (e, fails e bad)), ground arith)
                  | inl (shown, inr (final, wrote, own, ends), bound) ↦
                      inl (shown, inr (final, ground arith, own, ends), ground arith)
                  | inr (shown, inl (none_more, (e, bad)), bound) ↦
                      inr (shown, inl (ground arith, (e, fails e bad)), ground arith)
                  | inr (shown, inr (final, wrote, own, ends), bound) ↦
                      inr (shown, inr (final, ground arith, own, ends), ground arith)
                ],
              )
        ]
      ]
