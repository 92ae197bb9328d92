-- ===== src/Health/Model.antt =====
-- internal/operationalhealth/models.go: the states and the record of one background worker.
--
-- An instant is its nanoseconds since the zero `time.Time`, which is 0.
use atlas_dns.Base.{ℕ, ◌%◌, String, Bool, Option}

pub data State : Type 0 where
  healthy degraded stale failed paused unsupported maintenance unknown : State

-- `Worker`. `runs_total` and `failures_total` are uint64; `consecutive_failures` is an int that
-- counts by one from 0, far below its bound.
pub record Worker : Type 0 where
  pub name : String
  pub state : State
  pub running : Bool
  pub last_attempt_at : Option ℕ
  pub last_success_at : Option ℕ
  pub last_failure_at : Option ℕ
  pub consecutive_failures : ℕ
  pub next_scheduled_at : Option ℕ
  pub current_duration_ms : ℕ
  pub error_code : String
  pub runs_total : ℕ
  pub failures_total : ℕ

abbrev pub u64 : ℕ → ℕ
u64 n = n % 18446744073709551616
