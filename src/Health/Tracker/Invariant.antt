-- ===== src/Health/Tracker/Invariant.antt =====
-- What holds of every worker between two calls of the tracker.
use atlas_dns.Base.{
  ℕ, ◌≤◌, ◌<◌, String, ◌≡◌, refl, ◌↔◌, ◌⊎◌, inl, inr, Bool, true, false, none, List, [], ◌∷◌, arith,
  str_eq, eq_iff, if◌then◌else◌, Bool-cases, Option-cases,
}
use atlas_dns.Base.Map.{Entries-insert, lookup, Entries, Entries-lookup}
use atlas_dns.Health.Model.{healthy, degraded, failed, paused, unknown}
use atlas_dns.Health.Tracker.{
  failure, success, start, pause, finish, new_tracker, register, WorkerState, Tracker, new_worker,
  get_or_zero, paused_item, started_item, succeeded_item, failed_item,
}

-- The states that the tracker can set, as the failures and the error code allow them.
pub record IsConsistent (key : String) (item : WorkerState) : Type 0 where
  pub named : item.worker.name ≡ key
  pub timed : (item.worker.running ≡ false) ↔ (item.started_at ≡ none)
  pub live : item.worker.running ≡ true → item.worker.state ≡ healthy
  pub failed_thrice : item.worker.state ≡ failed → 3 ≤ item.worker.consecutive_failures
  pub degraded_few :
      item.worker.state ≡ degraded
      → (0 < item.worker.consecutive_failures) × (item.worker.consecutive_failures < 3)
  pub paused_clean : item.worker.state ≡ paused → item.worker.consecutive_failures ≡ 0
  pub coded : (item.worker.error_code ≡ "") ↔ (item.worker.consecutive_failures ≡ 0)
  pub known :
      (item.worker.state ≡ healthy)
      ⊎ (item.worker.state ≡ degraded)
      ⊎ (item.worker.state ≡ failed)
      ⊎ (item.worker.state ≡ paused)
      ⊎ (item.worker.state ≡ unknown)

-- The zero `workerState`, but for its name.
pub record IsUsable (item : WorkerState) : Type 0 where
  pub coded : (item.worker.error_code ≡ "") ↔ (item.worker.consecutive_failures ≡ 0)

abbrev pub IsSound : Tracker → Type 0
IsSound t = Entries IsConsistent t.workers

lookup-IsUsable :
    (t : Tracker) (name : String) → IsSound t → IsUsable (get_or_zero (lookup name t.workers))
lookup-IsUsable t name h = elim (Option-cases (lookup name t.workers)) [
  | inl missing ↦ rw missing (record { coded = ((λ _. refl), (λ _. refl)) })
  | inr (item, found) ↦
      rw found (record { coded = (Entries-lookup IsConsistent name t.workers h found).coded })
]

new_worker-IsConsistent :
    (name : String) (s : Bool) → IsConsistent name (new_worker name (if s then paused else unknown))
new_worker-IsConsistent name s = ground arith

paused-IsConsistent :
    (name : String) (next : ℕ) (item : WorkerState) → IsConsistent name (paused_item name next item)
paused-IsConsistent name next item = ground arith

started-IsConsistent :
    (name : String) (now next : ℕ) (item : WorkerState)
    → IsUsable item
    → IsConsistent name (started_item name now next item)
started-IsConsistent name now next item u = ground arith

succeeded-IsConsistent :
    (name : String) (now next : ℕ) (item : WorkerState)
    → IsConsistent name (succeeded_item name now next item)
succeeded-IsConsistent name now next item = ground arith

failed-IsConsistent :
    (name code : String) (now next : ℕ) (item : WorkerState)
    → str_eq code "" ≡ false
    → IsConsistent name (failed_item name code now next item)
failed-IsConsistent name code now next item h = ground (arith, eq_iff code "")

-- One method call on the tracker, with the clock's time and the next run's where it takes them.
pub data Op : Type 0 where
  registers : Bool → Op
  pauses : ℕ → Op
  starts : ℕ → ℕ → Op
  succeeds : ℕ → ℕ → Op
  fails : String → ℕ → ℕ → Op

unfoldable pub step : Tracker → String → Op → Tracker
step t name (registers is_paused) = register t name is_paused
step t name (pauses next) = pause t name next
step t name (starts now next) = start t name now next
step t name (succeeds now next) = success t name now next
step t name (fails code now next) = failure t name code now next

unfoldable pub run : Tracker → List (String × Op) → Tracker
run t [] = t
run t ((name, op) ∷ ops) = run (step t name op) ops

finish-IsSound :
    (t : Tracker) (name code : String) (now next : ℕ)
    → IsSound t
    → IsSound (finish t name code now next)
unfolding finish
finish-IsSound t name code now next h =
    let item = get_or_zero (lookup name t.workers) in
    Entries-insert IsConsistent name _ t.workers h (elim (Bool-cases (str_eq code "")) [
      | inl empty ↦ rw empty (succeeded-IsConsistent name now next item)
      | inr coded ↦ rw coded (failed-IsConsistent name code now next item coded)
    ])

step-IsSound : (t : Tracker) (name : String) (op : Op) → IsSound t → IsSound (step t name op)
unfolding step register pause start success failure
step-IsSound t name (registers s) h =
    Entries-insert IsConsistent name _ t.workers h (new_worker-IsConsistent name s)
step-IsSound t name (pauses next) h =
    Entries-insert IsConsistent name _ t.workers h
      (paused-IsConsistent name next (get_or_zero (lookup name t.workers)))
step-IsSound t name (starts now next) h = Entries-insert IsConsistent name _ t.workers h (
    started-IsConsistent name now next (get_or_zero (lookup name t.workers))
      (lookup-IsUsable t name h))
step-IsSound t name (succeeds now next) h = finish-IsSound t name "" now next h
step-IsSound t name (fails code now next) h = finish-IsSound t name code now next h

run-IsSound : (t : Tracker) (ops : List (String × Op)) → IsSound t → IsSound (run t ops)
unfolding run
run-IsSound t [] h = h
run-IsSound t ((name, op) ∷ ops) h = run-IsSound (step t name op) ops (step-IsSound t name op h)

-- After any calls of `Register`, `Pause`, `Start`, `Success` and `Failure` on a new tracker every
-- worker is stored under its own name and is running exactly while a start time is kept; one that
-- runs is healthy, one that is failed has failed at least three times in a row, one that is
-- degraded once or twice, a paused one not at all; it has an error code exactly while it has
-- consecutive failures, and it is healthy, degraded, failed, paused or unknown.
pub run-new-IsSound : (ops : List (String × Op)) → IsSound (run new_tracker ops)
unfolding new_tracker
run-new-IsSound ops = run-IsSound (record { workers = [] }) ops tt
