-- ===== src/Health/Tracker/Snapshot.antt =====
-- The snapshot lists every worker once, with what its record and the clock say.
use atlas_dns.Base.{
  ℕ, String, ◌≡◌, refl, ◌∙◌, subst, inl, inr, Option, none, some, List, [], ◌∷◌, arith, str_eq,
  eq_iff, if◌then◌else◌, Bool-cases,
}
use atlas_dns.Base.Map.{lookup, insert, Entries, lookup-insert}
use atlas_dns.Health.Model.{Worker}
use atlas_dns.Health.Tracker.{
  new_tracker, register, pause, start, success, failure, finish, WorkerState, Tracker, report,
  insert_by_name, snapshot_items, snapshot,
}
use atlas_dns.Health.Tracker.Invariant.{
  IsConsistent, Op, registers, pauses, starts, succeeds, fails, step, run, run-new-IsSound,
}

-- The worker of a name in a snapshot.
unfoldable pub find : String → List Worker → Option Worker
find name [] = none
find name (w ∷ ws) = if str_eq w.name name then some w else find name ws

-- Where the name is new, the place of an insertion does not matter to what is found.
find-insert_by_name :
    (name : String) (w : Worker) (ws : List Worker)
    → find w.name ws ≡ none
    → find name (insert_by_name w ws) ≡ (if str_eq w.name name then some w else find name ws)
unfolding find insert_by_name
find-insert_by_name name w [] h = refl
find-insert_by_name name w (v ∷ vs) h = ground (
  arith,
  eq_iff w.name name,
  eq_iff v.name name,
  eq_iff v.name w.name,
  find-insert_by_name name w vs,
)

-- The names of the map are distinct.
abbrev pub Distinct : List (String × WorkerState) → Type 0
Distinct [] = Unit
Distinct ((k, item) ∷ m) = (lookup k m ≡ none) × Distinct m

abbrev pub reported : ℕ → Option WorkerState → Option Worker
reported now none = none
reported now (some item) = some (report now item)

report-name : (now : ℕ) (item : WorkerState) → (report now item).name ≡ item.worker.name
report-name now item = ground arith

find-snapshot_items :
    (now : ℕ) (m : List (String × WorkerState)) (name : String)
    → Distinct m
    → Entries IsConsistent m
    → find name (snapshot_items now m) ≡ reported now (lookup name m)
unfolding snapshot_items lookup
find-snapshot_items now [] name d c = unfold find in refl
find-snapshot_items now ((k, item) ∷ m) name (new, d) (c, cs) =
    let named : (report now item).name ≡ k = report-name now item ∙ c.named in
    let absent : find (report now item).name (snapshot_items now m) ≡ none =
      rw (named, find-snapshot_items now m k d cs, new) refl in
    rw (find-insert_by_name name (report now item) (snapshot_items now m) absent) (
      rw (named, find-snapshot_items now m name d cs)
        (elim (Bool-cases (str_eq k name)) [ inl same ↦ rw same refl | inr other ↦ rw other refl ]))

Distinct-insert :
    (k : String) (item : WorkerState) (m : List (String × WorkerState))
    → Distinct m
    → Distinct (insert k item m)
unfolding insert lookup
Distinct-insert k item [] d = (refl, tt)
Distinct-insert k item ((j, w) ∷ m) (new, d) = elim (Bool-cases (str_eq j k)) [
  | inl same ↦ rw same (subst (λ i. lookup i m ≡ none) ((eq_iff j k).0 same) new, d)
  | inr other ↦
      rw other (
        ground (arith, lookup-insert k j item m, eq_iff j k, eq_iff k j),
        Distinct-insert k item m d,
      )
]

step-Distinct :
    (t : Tracker) (name : String) (op : Op) → Distinct t.workers → Distinct (step t name op).workers
unfolding step register pause start success failure finish
step-Distinct t name (registers s) d = Distinct-insert name _ t.workers d
step-Distinct t name (pauses next) d = Distinct-insert name _ t.workers d
step-Distinct t name (starts now next) d = Distinct-insert name _ t.workers d
step-Distinct t name (succeeds now next) d = Distinct-insert name _ t.workers d
step-Distinct t name (fails code now next) d = Distinct-insert name _ t.workers d

run-Distinct :
    (t : Tracker) (ops : List (String × Op)) → Distinct t.workers → Distinct (run t ops).workers
unfolding run
run-Distinct t [] d = d
run-Distinct t ((name, op) ∷ ops) d = run-Distinct (step t name op) ops (step-Distinct t name op d)

-- After any calls on a new tracker, the snapshot has a worker of a name exactly if the tracker
-- keeps one, and it is that worker, with the milliseconds since its start while it runs.
pub find-snapshot :
    (ops : List (String × Op)) (now : ℕ) (name : String)
    → find name (snapshot (run new_tracker ops) now)
      ≡ reported now (lookup name (run new_tracker ops).workers)
unfolding snapshot
find-snapshot ops now name =
    find-snapshot_items now (run new_tracker ops).workers name
      (run-Distinct new_tracker ops (unfold new_tracker in tt)) (run-new-IsSound ops)
