-- ===== src/Health/Tracker/Streak.antt =====
-- Runs of failures: what a worker's state and counters say of its history.
use atlas_dns.Base.{
  ℕ, suc, ◌+◌, String, ◌≡◌, refl, ap, ◌∙◌, false, Option, some, List, [], ◌∷◌, arith, str_eq, leb,
  if◌then◌else◌, str_eq_self, length, All,
}
use atlas_dns.Base.Map.{lookup, insert, lookup-insert}
use atlas_dns.Health.Model.{State, degraded, failed}
use atlas_dns.Health.Tracker.{
  WorkerState, Tracker, get_or_zero, register, pause, start, finish, success, failure, started_item,
  failed_item,
}
use atlas_dns.Health.Tracker.Invariant.{Op, registers, pauses, starts, succeeds, fails, step}

abbrev pub item_of : Tracker → String → Option WorkerState
item_of t name = lookup name t.workers

-- One run of a worker that ends in failure: `Start` and then `Failure` with a code.
pub record FailedRun : Type 0 where
  pub started : ℕ
  pub ended : ℕ
  pub next : ℕ
  pub code : String

unfoldable pub fail_runs : Tracker → String → List FailedRun → Tracker
fail_runs t name [] = t
fail_runs t name (r ∷ rs) =
    fail_runs (failure (start t name r.started r.next) name r.code r.ended r.next) name rs

fail_run :
    (t : Tracker) (name : String) (r : FailedRun)
    → str_eq r.code "" ≡ false
    → let before = get_or_zero (item_of t name) in
      let after = failure (start t name r.started r.next) name r.code r.ended r.next in
      item_of after name
      ≡ some (failed_item name r.code r.ended r.next (started_item name r.started r.next before))
unfolding failure finish start
fail_run t name r h = ground (
  arith,
  str_eq_self name,
  lookup-insert name name (started_item name r.started r.next (get_or_zero (lookup name t.workers)))
      t.workers,
  lookup-insert name name
      (failed_item name r.code r.ended r.next
        (started_item name r.started r.next (get_or_zero (lookup name t.workers))))
      (insert name (started_item name r.started r.next (get_or_zero (lookup name t.workers)))
        t.workers),
)

-- The state that a number of consecutive failures shows.
abbrev pub state_of : ℕ → State
state_of n = if leb 3 n then failed else degraded

fail_runs_from :
    (rs : List FailedRun) (t : Tracker) (name : String) (item : WorkerState)
    → item_of t name ≡ some item
    → item.worker.state ≡ state_of item.worker.consecutive_failures
    → item.worker.running ≡ false
    → All (λ r. str_eq r.code "" ≡ false) rs
    → (last : WorkerState) × (item_of (fail_runs t name rs) name ≡ some last)
      × (last.worker.consecutive_failures ≡ item.worker.consecutive_failures + length rs)
      × (last.worker.state ≡ state_of last.worker.consecutive_failures)
      × (last.worker.running ≡ false)
unfolding fail_runs
fail_runs_from [] t name item e s q h = (item, e, omega arith, s, q)
fail_runs_from (r ∷ rs) t name item e s q h =
    let after = failure (start t name r.started r.next) name r.code r.ended r.next in
    let next = failed_item name r.code r.ended r.next (started_item name r.started r.next item) in
    let found : item_of after name ≡ some next =
      fail_run t name r h.0
      ∙ ap
          (λ o. some (
            failed_item name r.code r.ended r.next
              (started_item name r.started r.next (get_or_zero o))))
          e in
    let (last, at, count, state, idle) = fail_runs_from rs after name next found refl refl h.1 in
    (last, at, omega arith, state, idle)

-- From a worker without consecutive failures, one or more runs that end in failure with an error
-- code leave it with that many consecutive failures, degraded while they are fewer than three and
-- failed from the third on, and not running.
pub fail_runs_state :
    (t : Tracker) (name : String) (r : FailedRun) (rs : List FailedRun)
    → (get_or_zero (item_of t name)).worker.consecutive_failures ≡ 0
    → All (λ q. str_eq q.code "" ≡ false) (r ∷ rs)
    → (last : WorkerState) × (item_of (fail_runs t name (r ∷ rs)) name ≡ some last)
      × (last.worker.consecutive_failures ≡ suc (length rs))
      × (last.worker.state ≡ (if leb 3 (suc (length rs)) then failed else degraded))
      × (last.worker.running ≡ false)
unfolding fail_runs
fail_runs_state t name r rs z h =
    let next =
      failed_item name r.code r.ended r.next
        (started_item name r.started r.next (get_or_zero (item_of t name))) in
    let (last, at, count, state, idle) =
      fail_runs_from rs _ name next (fail_run t name r h.0) refl refl h.1 in
    let total : last.worker.consecutive_failures ≡ suc (length rs) = omega arith in
    (last, at, total, state ∙ ap state_of total, idle)

-- A call for one worker changes nothing of another.
pub step_other :
    (t : Tracker) (name other : String) (op : Op)
    → str_eq name other ≡ false
    → item_of (step t name op) other ≡ item_of t other
unfolding step register pause start success failure finish
step_other t name other (registers s) h = simp lookup-insert (rw h)
step_other t name other (pauses next) h = simp lookup-insert (rw h)
step_other t name other (starts now next) h = simp lookup-insert (rw h)
step_other t name other (succeeds now next) h = simp lookup-insert (rw h)
step_other t name other (fails code now next) h = simp lookup-insert (rw h)
