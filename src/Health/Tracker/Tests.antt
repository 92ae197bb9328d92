-- ===== src/Health/Tracker/Tests.antt =====
-- Runs of the tracker, and its laws at concrete inputs.
use mathlib.Core.Option
use atlas_dns.Base.{ℕ, ◌+◌, String, ◌≡◌, refl, true, false, some, List, [], ◌∷◌}
use atlas_dns.Base.Map.{lookup, insert}
use atlas_dns.Health.Model.{failed}
use atlas_dns.Health.Tracker.{finish, failure, start, register, WorkerState, new_tracker, snapshot}
use atlas_dns.Health.Tracker.Invariant.{
  step, IsSound, Op, registers, starts, fails, run, run-new-IsSound,
}
use atlas_dns.Health.Tracker.Streak.{FailedRun, item_of, fail_runs, fail_runs_state}
use atlas_dns.Health.Tracker.Snapshot.{find, reported, find-snapshot}

abbrev history : List (String × Op)
history =
    ("poll", registers false)
    ∷ ("backup", registers true)
    ∷ ("poll", starts 5 10)
    ∷ ("poll", fails "TIMEOUT" 6 10)
    ∷ ("poll", starts 2000000 0)
    ∷ []

run-new-IsSound_example : IsSound (run new_tracker history)
run-new-IsSound_example = run-new-IsSound history

find-snapshot_example :
    find "poll" (snapshot (run new_tracker history) 9000000)
    ≡ reported 9000000 (lookup "poll" (run new_tracker history).workers)
find-snapshot_example = find-snapshot history 9000000 "poll"

running_ms :
    Option.map
      (λ w. w.current_duration_ms)
      (find "poll" (snapshot (run new_tracker history) 9000000))
    ≡ some 7
unfolding find snapshot run step new_tracker register start failure finish insert lookup
running_ms = refl

abbrev attempt_at : ℕ → FailedRun
attempt_at t = record { started = t; ended = t + 1; next = t + 10; code = "TIMEOUT" }

fail_runs_state_example :
    (last : WorkerState) × (item_of
        (fail_runs new_tracker "poll" (attempt_at 1 ∷ attempt_at 2 ∷ attempt_at 3 ∷ []))
        "poll"
      ≡ some last)
    × (last.worker.consecutive_failures ≡ 3)
    × (last.worker.state ≡ failed)
    × (last.worker.running ≡ false)
unfolding new_tracker lookup
fail_runs_state_example =
    fail_runs_state new_tracker "poll" (attempt_at 1) (attempt_at 2 ∷ attempt_at 3 ∷ []) refl
      (refl, (refl, (refl, tt)))
