-- ===== src/Operations/Executor/Sends.antt =====
-- internal/operations/executor.go: the commands that are sent, and to what effect on a result.
use atlas_dns.Base.{
  ℕ, suc, ◌≤◌, ◌≡◌, ◌⊎◌, inl, inr, Bool, true, false, List, [], ◌∷◌, arith, if◌then◌else◌,
}
use atlas_dns.Base.Act.{Result-cases, ok}
use atlas_dns.Domain.{NodeProbeRequest}
use atlas_dns.Operations.Model.{Command, NodeResult, ResultStatus}
use atlas_dns.Operations.Executor.Calls.{Call, Answers}
use atlas_dns.Operations.Executor.Calls
use atlas_dns.Operations.Executor.Node.{ask_node, Inputs, find_request, send_command, observe_after}

-- The calls that reach a node with a command.
unfoldable pub is_command : Call → Bool
is_command (Calls.test_upstream_dns request input) = true
is_command (Calls.test_host_filtering request input) = true
is_command (Calls.clear_dns_cache request) = true
is_command (Calls.clear_query_log request) = true
is_command (Calls.reset_statistics request) = true
is_command _ = false

unfoldable pub commands : List Call → ℕ
commands [] = 0
commands (x ∷ xs) = if is_command x then suc (commands xs) else commands xs

-- What one pending result became.
abbrev pub IsFinished : NodeResult → NodeResult → Type 0
IsFinished r q =
    (q.id ≡ r.id)
    × (q.node_id ≡ r.node_id)
    × (q.position ≡ r.position)
    × ((q.status ≡ ResultStatus.succeeded) ⊎ (q.status ≡ ResultStatus.failed))

module _ (answers : Answers) where
  pub send_command_same :
      (command : Command) (inputs : Inputs) (request : NodeProbeRequest) (r : NodeResult)
      (h : List Call) (q : NodeResult)
      → (send_command answers command inputs request r h).0 ≡ ok q
      → (q.id ≡ r.id) × (q.node_id ≡ r.node_id) × (q.position ≡ r.position)
  unfolding send_command
  send_command_same command inputs request r h q e = ground arith

  pub send_command-commands :
      (command : Command) (inputs : Inputs) (request : NodeProbeRequest) (r : NodeResult)
      (h : List Call)
      → (commands h ≤ commands (send_command answers command inputs request r h).1)
        × (commands (send_command answers command inputs request r h).1 ≤ suc (commands h))
  unfolding send_command commands is_command
  send_command-commands command inputs request r h = ground arith

  pub observe_after_same :
      (command : Command) (r : NodeResult) (h : List Call) (q : NodeResult)
      → (observe_after answers command r h).0 ≡ ok q
      → (q.id ≡ r.id) × (q.node_id ≡ r.node_id) × (q.position ≡ r.position) × (q.status ≡ r.status)
  unfolding observe_after
  observe_after_same command r h q e = ground arith

  pub observe_after-commands :
      (command : Command) (r : NodeResult) (h : List Call)
      → commands (observe_after answers command r h).1 ≡ commands h
  unfolding observe_after commands is_command
  observe_after-commands command r h = ground arith

  pub find_request-commands :
      (r : NodeResult) (h : List Call) → commands (find_request answers r h).1 ≡ commands h
  unfolding find_request commands is_command
  find_request-commands r h = ground arith

  pub ask_node_same :
      (command : Command) (inputs : Inputs) (r : NodeResult) (h : List Call) (q : NodeResult)
      → (ask_node answers command inputs r h).0 ≡ ok q
      → (q.id ≡ r.id) × (q.node_id ≡ r.node_id) × (q.position ≡ r.position)
  unfolding ask_node
  ask_node_same command inputs r h q e =
      let found = find_request answers r h in
      elim (Result-cases found.0) [
        | inr (failure, lost) ↦ ground arith
        | inl (request, got) ↦ send_command_same command inputs request r found.1 q (ground arith)
      ]

  pub ask_node-commands :
      (command : Command) (inputs : Inputs) (r : NodeResult) (h : List Call)
      → (commands h ≤ commands (ask_node answers command inputs r h).1)
        × (commands (ask_node answers command inputs r h).1 ≤ suc (commands h))
  unfolding ask_node
  ask_node-commands command inputs r h =
      let found = find_request answers r h in
      let quiet = find_request-commands r h in
      elim (Result-cases found.0) [
        | inr (failure, lost) ↦ ground arith
        | inl (request, got) ↦ grind (arith, send_command-commands command inputs request r found.1)
      ]
