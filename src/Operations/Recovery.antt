-- ===== src/Operations/Recovery.antt =====
-- internal/operations/executor.go: what a start of the executor does with the operations that ran.
use atlas_dns.Base.{
  ◌≡◌, refl, sym, subst, ◌⊎◌, inl, inr, false, List, [], ◌∷◌, ◌++◌, append-nil, append_assoc, arith,
  length,
}
use atlas_dns.Base.Act.{Result, ok, err, Result-cases}
use atlas_dns.Domain.{Failure, text, flag}
use atlas_dns.Operations.Model.{Operation, OperationStatus}
use atlas_dns.Operations.Executor.Calls.{Call, Answers, Run}
use atlas_dns.Operations.Executor.Calls
use atlas_dns.Operations.Executor.Sends.{commands, is_command}
use atlas_dns.Operations.Executor.Reports.{reported}
use atlas_dns.Operations.Executor.{is_terminal, interrupt, interrupt_all, recover_interrupted}
use atlas_dns.Operations.Outcome.{Failed, ReportsOne, finish_failed-Failed}

module _ (answers : Answers) where
  -- All operations that ran when the controller stopped, or the first of them, are reported.
  abbrev pub Interrupts : List Operation → List Operation → Type 0
  Interrupts operations [] = Unit
  Interrupts [] (final ∷ finals) = ⊥
  Interrupts (operation ∷ operations) (final ∷ finals) =
      (final.id ≡ operation.id)
      × Failed is_terminal "OPERATION_INTERRUPTED" OperationStatus.interrupted operation final
      × Interrupts operations finals

  interrupt-Failed :
      (operation : Operation) (h : List Call)
      → ReportsOne
          (Failed is_terminal "OPERATION_INTERRUPTED" OperationStatus.interrupted)
          operation
          h
          (interrupt answers operation h)
        × (commands (interrupt answers operation h).1 ≡ commands h)
  unfolding interrupt
  interrupt-Failed operation h =
      finish_failed-Failed answers is_terminal "OPERATION_INTERRUPTED" OperationStatus.interrupted
        (("status", text "interrupted")
          ∷ ("errorCode", text "CONTROLLER_RESTARTED")
          ∷ ("automaticReplay", flag false)
          ∷ [])
        operation h

  abbrev pub Interrupted :
      List Operation → List Call → Result Failure (Unit {0}) × List Call → Type 0
  Interrupted operations h ran =
      (commands ran.1 ≡ commands h)
      × ((finals : List Operation) × (reported ran.1 ≡ reported h ++ finals)
          × Interrupts operations finals
          × (ran.0 ≡ ok tt → length finals ≡ length operations))

  interrupt_all-Interrupted :
      (operations : List Operation) (h : List Call)
      → Interrupted operations h (interrupt_all answers operations h)
  unfolding interrupt_all
  interrupt_all-Interrupted [] h = (refl, ([], sym (append-nil (reported h)), tt, λ e. refl))
  interrupt_all-Interrupted (operation ∷ operations) h =
      let step = interrupt answers operation h in
      let (ends, unsent) = interrupt-Failed operation h in
      let (later_unsent, (finals, wrote, fit, all_of)) =
        interrupt_all-Interrupted operations step.1 in
      elim ends [
        | inl (none_more, (e, lost)) ↦
            (ground arith, ([], ground (arith, append-nil (reported h)), tt, λ good. ground arith))
        | inr (final, told, own, failed) ↦ elim (Result-cases step.0) [
          | inr (e, lost) ↦
              (ground arith, (final ∷ [], ground arith, (own, failed, tt), λ good. ground arith))
          | inl (u, fine) ↦ (
            ground arith,
            (
              final ∷ finals,
              ground (arith, append_assoc (reported h) (final ∷ []) finals),
              (own, failed, fit),
              λ good. ground arith,
            ),
          )
        ]
      ]

  -- After a restart no node is sent a command again. The operations that were running are reported
  -- as interrupted, in their order, each with every result that had not succeeded, failed or been
  -- skipped now failed: all of them, unless an error is returned, and else a first part of them.
  pub recover_interrupted-Interrupted :
      (h : List Call)
      → let ran = recover_interrupted answers h in
        ((commands ran.1 ≡ commands h)
          × (reported ran.1 ≡ reported h)
          × ((e : Failure) × (answers.running h ≡ err e) × (ran.0 ≡ err e)))
        ⊎ ((operations : List Operation) × (answers.running h ≡ ok operations)
            × Interrupted operations h ran)
  unfolding recover_interrupted reported commands is_command
  recover_interrupted-Interrupted h =
      let asked = Calls.running_operational_commands ∷ h in
      elim (Result-cases (answers.running h)) [
        | inr (e, lost) ↦ inl (ground arith, ground arith, (e, ground arith, ground arith))
        | inl (operations, got) ↦
            let same : recover_interrupted answers h ≡ interrupt_all answers operations asked =
              ground arith in
            inr (
              operations,
              ground arith,
              subst (λ ran. Interrupted operations h ran) (sym same)
                  (interrupt_all-Interrupted operations asked),
            )
      ]
