-- ===== src/Operations/Executor.antt =====
-- internal/operations/executor.go: the executor of operational commands.
--
-- `RunOnce` also answers `true` beside most errors; here an error is the whole answer.
pub mod Calls
pub mod Node
pub mod Reports
pub mod Runs
pub mod Sends
use Calls.{Answers, Run}
use Node.{
  is_pending, operation_error_code, Inputs, no_inputs, Counters, no_counts, count_result,
  read_clock, perform, operation_audit, run_node,
}
use atlas_dns.Base.{
  ℕ, zero, suc, ◌+◌, ◌-◌, ◌*◌, ◌/◌, ◌%◌, ◌^◌, ◌≤◌, ◌<◌, String, ◌≡◌, refl, sym, ap, ◌∙◌, subst, ◌≢◌,
  ◌↔◌, ◌⊎◌, inl, inr, Bool, true, false, not, ◌&&◌, ◌||◌, Option, none, some, List, [], ◌∷◌, ◌++◌,
  map, append-nil, append_assoc, arith, str_eq, eq_iff, ltb, leb, ◌==◌, if◌then◌else◌, ltb→lt,
  lt→ltb, leb→le, le→leb, ==_iff, Bool-cases, Option-cases, str_eq_self, length, take, drop,
  is_empty, all, any, length-append, take-length, length-map, All,
}
use atlas_dns.Base.Act.{Result, ok, err, Act, ◌>>=◌, ◌>>◌, pure, fail, call, attempt}
use atlas_dns.Domain.{Failure, new_error, internal, MetaValue, number, text, flag}
use atlas_dns.Operations.Model.{
  Command, Operation, OperationStatus, NodeResult, ResultStatus, command_audit_prefix,
}
use Prim.Native.String

-- `sort.Slice` by position; the positions of an operation are distinct.
unfoldable pub insert_by_position : NodeResult → List NodeResult → List NodeResult
insert_by_position r [] = r ∷ []
insert_by_position r (q ∷ qs) =
    let rest = insert_by_position r qs in if ltb q.position r.position then q ∷ rest else r ∷ q ∷ qs

unfoldable pub sort_by_position : List NodeResult → List NodeResult
unfolding insert_by_position
sort_by_position [] = []
sort_by_position (r ∷ rs) = insert_by_position r (sort_by_position rs)

unfoldable pub final_status : Counters → OperationStatus
final_status k =
    if ltb 0 k.failed && ltb 0 k.succeeded
    then OperationStatus.partial_success
    else if ltb 0 k.failed
    then OperationStatus.failed
    else OperationStatus.succeeded

-- `actionStatus`
abbrev pub action_status : OperationStatus → String
action_status OperationStatus.partial_success = "_partially_succeeded"
action_status OperationStatus.failed = "_failed"
action_status _ = "_succeeded"

abbrev pub status_text : OperationStatus → String
status_text OperationStatus.partial_success = "partial_success"
status_text OperationStatus.failed = "failed"
status_text _ = "succeeded"

abbrev pub is_settled : ResultStatus → Bool
is_settled ResultStatus.succeeded = true
is_settled ResultStatus.failed = true
is_settled _ = false

abbrev pub is_terminal : ResultStatus → Bool
is_terminal ResultStatus.succeeded = true
is_terminal ResultStatus.failed = true
is_terminal ResultStatus.skipped = true
is_terminal _ = false

module _ (answers : Answers) where
  -- The loop over the nodes, with the results as they are at its end.
  unfoldable pub run_nodes :
      Operation → Inputs → Counters → List NodeResult → Run (List NodeResult × Counters)
  run_nodes operation inputs k [] = pure ([], k)
  run_nodes operation inputs k (result ∷ results) = do
    call Calls.context_error answers.context
    if is_pending result.status
        then (do
          finished ← run_node answers operation inputs result
          rest ← run_nodes operation inputs (count_result finished k) results
          pure (finished ∷ rest.0, rest.1))
        else (do rest ← run_nodes operation inputs k results; pure (result ∷ rest.0, rest.1))

  -- The loop of `failAll`, and that of `RecoverInterrupted` over one operation: a result whose
  -- status `keep` admits stays, any other is failed with the code.
  unfoldable pub fail_results :
      (ResultStatus → Bool) → String → String → ℕ → List NodeResult → Run (List NodeResult)
  fail_results keep id code now [] = pure []
  fail_results keep id code now (result ∷ results) =
      if keep result.status
      then (do rest ← fail_results keep id code now results; pure (result ∷ rest))
      else (do
        let failed : NodeResult = record result {
          status = ResultStatus.failed;
          error_code = code;
          completed_at = some now;
        }
        perform answers (Calls.update_operational_command_node id failed)
        rest ← fail_results keep id code now results
        pure (failed ∷ rest))

  -- The end of an operation: the audit event, and the report with its reference.
  unfoldable pub finish : Operation → String → List (String × MetaValue) → ℕ → Run (Unit {0})
  finish operation suffix extra at = do
    event ←
        operation_audit answers (String.◌++◌ (command_audit_prefix operation.command) suffix)
          operation extra at
    perform answers (
        Calls.finish_operational_command
          (record operation { audit_reference = event.id; completed_at = some at }) event)

  -- What `failAll` and `RecoverInterrupted` do with one operation: its results and its report.
  unfoldable pub finish_failed :
      (ResultStatus → Bool)
      → String
      → OperationStatus
      → List (String × MetaValue)
      → Operation
      → Run (Unit {0})
  finish_failed keep code status extra operation = do
    now ← read_clock answers
    results ← fail_results keep operation.id code now operation.node_results
    finish (record operation { node_results = results; status = status }) "_failed" extra now

  unfoldable pub fail_all : Operation → Failure → Run (Unit {0})
  fail_all operation failure =
      finish_failed is_settled (operation_error_code failure) OperationStatus.failed
        (("status", text "failed") ∷ ("errorCode", text (operation_error_code failure)) ∷ [])
        operation

  -- The decoded input, by the command.
  unfoldable pub decode : Command → List ℕ → Result Failure Inputs
  decode Command.test_upstream_dns payload = elim (answers.decode_upstream payload) [
    | err e ↦ err e
    | ok input ↦ ok (record no_inputs { upstream = input })
  ]
  decode Command.test_host_filtering payload = elim (answers.decode_host payload) [
    | err e ↦ err e
    | ok input ↦ ok (record no_inputs { host_filter = input })
  ]
  decode _ payload = ok no_inputs

  -- The end of `RunOnce`, after the loop.
  unfoldable pub finish_run : Operation → List NodeResult → Counters → Run (Unit {0})
  unfolding finish
  finish_run operation results k = do
    completed ← read_clock answers
    let status : OperationStatus = final_status k
    finish (record operation { node_results = results; status = status }) (action_status status)
        (("status", text (status_text status))
          ∷ ("succeededCount", number k.succeeded)
          ∷ ("failedCount", number k.failed)
          ∷ ("resolverSucceededCount", number k.resolver_succeeded)
          ∷ ("resolverFailedCount", number k.resolver_failed)
          ∷ [])
        completed

  -- `RunOnce` from the decoded input on.
  unfoldable pub run_decoded : Operation → Inputs → Run (Unit {0})
  run_decoded operation inputs = do
    ran ← run_nodes operation inputs no_counts (sort_by_position operation.node_results)
    finish_run operation ran.0 ran.1

  -- `RunOnce` on the claimed operation.
  unfoldable pub run_claimed : Operation → Run (Unit {0})
  run_claimed operation = do
    opened ← attempt (call (Calls.decrypt_payload operation.id operation.payload) answers.payload)
    elim opened [
      | err e ↦
          fail_all operation
            (new_error internal "the operational command input could not be decrypted")
      | ok payload ↦ elim (decode operation.command payload) [
        | err e ↦
            fail_all operation
              (new_error internal "the operational command input could not be decoded")
        | ok inputs ↦ run_decoded operation inputs
      ]
    ]

  -- `RunOnce`: whether there was an operation.
  unfoldable pub run_once : Run Bool
  run_once = do
    now ← read_clock answers
    claimed ← call (Calls.claim_operational_command now) answers.claimed
    elim claimed [ none ↦ pure false | some operation ↦ do run_claimed operation; pure true ]

  unfoldable pub interrupt : Operation → Run (Unit {0})
  interrupt = finish_failed is_terminal "OPERATION_INTERRUPTED" OperationStatus.interrupted (
      ("status", text "interrupted")
      ∷ ("errorCode", text "CONTROLLER_RESTARTED")
      ∷ ("automaticReplay", flag false)
      ∷ [])

  unfoldable pub interrupt_all : List Operation → Run (Unit {0})
  interrupt_all [] = pure tt
  interrupt_all (operation ∷ operations) = do interrupt operation; interrupt_all operations

  unfoldable pub recover_interrupted : Run (Unit {0})
  unfolding interrupt_all interrupt
  recover_interrupted = do
    operations ← call Calls.running_operational_commands answers.running
    interrupt_all operations
