-- ===== src/Health/Tracker.antt =====
-- internal/operationalhealth/tracker.go: the process-local state of the background workers.
--
-- The mutex makes each method one step; the time that it reads from the clock is an argument.
-- A Go map read of an absent name gives the zero `workerState`, whose state is the empty string:
-- every method that reads it sets the state, so `unknown` stands for it here.
pub mod Invariant
pub mod Streak
pub mod Snapshot
mod Tests
use Prim.Native.String.{compare}
use Prim.Native.Nat.{Ordering}
use atlas_dns.Base.{
  ℕ, zero, suc, ◌+◌, ◌-◌, ◌*◌, ◌/◌, ◌%◌, ◌^◌, ◌≤◌, ◌<◌, String, ◌≡◌, refl, sym, ap, ◌∙◌, subst, ◌≢◌,
  ◌↔◌, ◌⊎◌, inl, inr, Bool, true, false, not, ◌&&◌, ◌||◌, Option, none, some, List, [], ◌∷◌, ◌++◌,
  map, append-nil, append_assoc, arith, str_eq, eq_iff, ltb, leb, ◌==◌, if◌then◌else◌, ltb→lt,
  lt→ltb, leb→le, le→leb, ==_iff, Bool-cases, Option-cases, str_eq_self, length, take, all, any,
  length-append, take-length, length-map, All,
}
use atlas_dns.Base.Map.{lookup, insert}
use atlas_dns.Health.Model.{State, healthy, degraded, failed, paused, unknown, Worker, u64}

pub record WorkerState : Type 0 where
  pub worker : Worker
  pub open worker use *
  pub started_at : Option ℕ

pub record Tracker : Type 0 where
  pub workers : List (String × WorkerState)

unfoldable pub new_tracker : Tracker
new_tracker = record { workers = [] }

-- `Worker{Name: name, State: state}` with the other fields zero.
abbrev pub new_worker : String → State → WorkerState
new_worker name state = record {
  worker = record {
    name = name;
    state = state;
    running = false;
    last_attempt_at = none;
    last_success_at = none;
    last_failure_at = none;
    consecutive_failures = 0;
    next_scheduled_at = none;
    current_duration_ms = 0;
    error_code = "";
    runs_total = 0;
    failures_total = 0;
  };
  started_at = none;
}

abbrev pub get_or_zero : Option WorkerState → WorkerState
get_or_zero none = new_worker "" unknown
get_or_zero (some item) = item

-- `timePtr`
abbrev pub time_ptr : ℕ → Option ℕ
time_ptr zero = none
time_ptr (suc t) = some (suc t)

unfoldable pub register : Tracker → String → Bool → Tracker
register t name is_paused = record t {
  workers = insert name (new_worker name (if is_paused then paused else unknown)) t.workers;
}

abbrev pub paused_item : String → ℕ → WorkerState → WorkerState
paused_item name next item = record {
  worker = record (item.worker) {
    name = name;
    state = paused;
    running = false;
    next_scheduled_at = time_ptr next;
    error_code = "";
    consecutive_failures = 0;
  };
  started_at = none;
}

unfoldable pub pause : Tracker → String → ℕ → Tracker
pause t name next = record t {
  workers = insert name (paused_item name next (get_or_zero (lookup name t.workers))) t.workers;
}

abbrev pub started_item : String → ℕ → ℕ → WorkerState → WorkerState
started_item name now next item = record {
  worker = record (item.worker) {
    name = name;
    state = healthy;
    running = true;
    last_attempt_at = some now;
    next_scheduled_at = time_ptr next;
    runs_total = u64 (item.worker.runs_total + 1);
  };
  started_at = some now;
}

unfoldable pub start : Tracker → String → ℕ → ℕ → Tracker
start t name now next = record t {
  workers =
      insert name (started_item name now next (get_or_zero (lookup name t.workers))) t.workers;
}

-- The branch of `finish` with an empty code, and the other one.
abbrev pub succeeded_item : String → ℕ → ℕ → WorkerState → WorkerState
succeeded_item name now next item = record {
  worker = record (item.worker) {
    name = name;
    running = false;
    next_scheduled_at = time_ptr next;
    state = healthy;
    last_success_at = some now;
    consecutive_failures = 0;
    error_code = "";
  };
  started_at = none;
}

abbrev pub failed_item : String → String → ℕ → ℕ → WorkerState → WorkerState
failed_item name code now next item = record {
  worker = record (item.worker) {
    name = name;
    running = false;
    next_scheduled_at = time_ptr next;
    consecutive_failures = item.worker.consecutive_failures + 1;
    failures_total = u64 (item.worker.failures_total + 1);
    state = if leb 3 (item.worker.consecutive_failures + 1) then failed else degraded;
    last_failure_at = some now;
    error_code = code;
  };
  started_at = none;
}

unfoldable pub finish : Tracker → String → String → ℕ → ℕ → Tracker
finish t name code now next =
    let item = get_or_zero (lookup name t.workers) in
    record t {
      workers =
          insert name
            (if str_eq code ""
              then succeeded_item name now next item
              else failed_item name code now next item)
            t.workers;
    }

-- `Success` and `Failure`.
unfoldable pub success : Tracker → String → ℕ → ℕ → Tracker
unfolding finish
success t name now next = finish t name "" now next

unfoldable pub failure : Tracker → String → String → ℕ → ℕ → Tracker
unfolding finish
failure t name code now next = finish t name code now next

-- One entry of `Snapshot`: the milliseconds that a running worker has taken. The clock is
-- monotonic, so the difference is not negative.
abbrev pub report : ℕ → WorkerState → Worker
report now item = elim item.started_at [
  | none ↦ item.worker
  | some started ↦ record (item.worker) { current_duration_ms = (now - started) / 1000000 }
]

-- `items[i].Name < items[j].Name`, byte by byte.
abbrev pub str_ltb : String → String → Bool
str_ltb a b = elim (compare a b) [ Ordering.lt ↦ true | _ ↦ false ]

-- `sort.Slice` by name, as an insertion sort: the names of a tracker's workers are distinct, so
-- the order of equal names does not matter.
unfoldable pub insert_by_name : Worker → List Worker → List Worker
insert_by_name w [] = w ∷ []
insert_by_name w (v ∷ vs) =
    let rest = insert_by_name w vs in if str_ltb v.name w.name then v ∷ rest else w ∷ v ∷ vs

unfoldable pub snapshot_items : ℕ → List (String × WorkerState) → List Worker
unfolding insert_by_name
snapshot_items now [] = []
snapshot_items now ((k, item) ∷ m) = insert_by_name (report now item) (snapshot_items now m)

unfoldable pub snapshot : Tracker → ℕ → List Worker
unfolding snapshot_items
snapshot t now = snapshot_items now t.workers
