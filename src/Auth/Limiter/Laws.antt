-- ===== src/Auth/Limiter/Laws.antt =====
-- What the limiter promises: one key's window, the lockout, its end, and no interference.
use atlas_dns.Base.{
  ℕ, ◌+◌, ◌<◌, ◌≡◌, refl, String, true, false, Option, none, some, List, [], ◌∷◌, arith, ltb,
  length, All, str_eq, str_eq_self,
}
use atlas_dns.Base.Map.{lookup, insert, lookup-insert, lookup-delete}
use atlas_dns.Auth.Limiter.{
  AttemptWindow, LoginLimiter, is_over, current_window, allow, failure, success,
}

-- One method call, with the time at which it reads the clock.
pub data Op : Type 0 where
  allows fails : ℕ → Op
  succeeds : Op

-- Calls on one key.
unfoldable pub step : LoginLimiter → String → Op → LoginLimiter
step l key (allows now) = (allow l key now).1
step l key (fails now) = failure l key now
step l key succeeds = success l key

unfoldable pub run : LoginLimiter → List (String × Op) → LoginLimiter
run l [] = l
run l ((key, op) ∷ ops) = run (step l key op) ops

-- The abstract view of a key: its live window, with a dead one forgotten.
abbrev pub view : LoginLimiter → String → Option AttemptWindow
view l key = lookup key l.windows

pub step_other :
    (l : LoginLimiter) (key other : String) (op : Op)
    → str_eq key other ≡ false
    → (view (step l key op) other ≡ view l other)
      × ((step l key op).limit ≡ l.limit)
      × ((step l key op).duration ≡ l.duration)
unfolding step allow failure success
step_other l key other (allows now) h =
    ground (arith, lookup-insert key other (record { count = 0; start = now }) l.windows)
step_other l key other (fails now) h =
    let w = current_window l.duration now (lookup key l.windows) in
    ground (arith, lookup-insert key other (record w { count = w.count + 1 }) l.windows)
step_other l key other succeeds h = ground (arith, lookup-delete key other l.windows)

pub run_other :
    (l : LoginLimiter) (key : String) (ops : List (String × Op))
    → All (λ c. str_eq c.0 key ≡ false) ops
    → (view (run l ops) key ≡ view l key)
      × ((run l ops).limit ≡ l.limit)
      × ((run l ops).duration ≡ l.duration)
unfolding run
run_other l key [] h = (refl, refl, refl)
run_other l key ((k, op) ∷ ops) h =
    ground (arith, step_other l k key op h.0, run_other (step l k op) key ops h.1)

-- The answer of `Allow` for a key depends only on the calls that were made with that key:
-- whatever is done with other keys in between, in any order, it is what it was before.
pub allow-run_other :
    (l : LoginLimiter) (key : String) (ops : List (String × Op)) (now : ℕ)
    → All (λ c. str_eq c.0 key ≡ false) ops
    → (allow (run l ops) key now).0 ≡ (allow l key now).0
unfolding allow
allow-run_other l key ops now h = ground (arith, run_other l key ops h)

-- The failures that a live window counts.
unfoldable pub fail_all : LoginLimiter → String → List ℕ → LoginLimiter
fail_all l key [] = l
fail_all l key (now ∷ times) = fail_all (failure l key now) key times

pub fail_live :
    (l : LoginLimiter) (key : String) (w : AttemptWindow) (now : ℕ)
    → view l key ≡ some w
    → now < w.start + l.duration
    → (view (failure l key now) key ≡ some (record { count = w.count + 1; start = w.start }))
      × ((failure l key now).limit ≡ l.limit)
      × ((failure l key now).duration ≡ l.duration)
unfolding failure
fail_live l key w now e h =
    let v = current_window l.duration now (lookup key l.windows) in
    ground
      (arith, lookup-insert key key (record v { count = v.count + 1 }) l.windows, str_eq_self key)

-- Failures before the window's end are all counted in it.
pub fail_all_live :
    (times : List ℕ) (l : LoginLimiter) (key : String) (count start end : ℕ)
    → view l key ≡ some (record { count = count; start = start })
    → start + l.duration ≡ end
    → All (λ t. t < end) times
    → (view (fail_all l key times) key
        ≡ some (record { count = count + length times; start = start }))
      × ((fail_all l key times).limit ≡ l.limit)
      × ((fail_all l key times).duration ≡ l.duration)
unfolding fail_all
fail_all_live [] l key count start end e d h = ground arith
fail_all_live (t ∷ times) l key count start end e d h =
    let (seen, same_limit, same_duration) =
      fail_live l key (record { count = count; start = start }) t e (omega arith) in
    ground (
      arith,
      fail_all_live times (failure l key t) key (count + 1) start end seen (omega arith) h.1,
    )

-- A sign-in sequence on one key: `Allow` opens the window where the last one is over, and then
-- failures before the window's end are all counted. In that time `Allow` lets an attempt through
-- exactly while fewer than `limit` failures are counted; it is asked any number of times.
pub lockout :
    (l : LoginLimiter) (key : String) (opened now : ℕ) (times : List ℕ)
    → is_over l.duration opened (view l key) ≡ true
    → All (λ t. t < opened + l.duration) times
    → now < opened + l.duration
    → ((allow l key opened).0 ≡ true)
      × (allow (fail_all (allow l key opened).1 key times) key now
          ≡ (ltb (length times) l.limit, fail_all (allow l key opened).1 key times))
unfolding allow
lockout l key opened now times o h n =
    let fresh : AttemptWindow = record { count = 0; start = opened } in
    let opened_limiter : LoginLimiter = record l { windows = insert key fresh l.windows } in
    ground (
      arith,
      lookup-insert key key fresh l.windows,
      str_eq_self key,
      fail_all_live times opened_limiter key 0 opened (opened + l.duration),
    )

-- After a success the key is as if it had never been used: the next `Allow` answers true.
pub allow-success :
    (l : LoginLimiter) (key : String) (now : ℕ)
    → (view (success l key) key ≡ none) × ((allow (success l key) key now).0 ≡ true)
unfolding allow success
allow-success l key now = ground (arith, lookup-delete key key l.windows, str_eq_self key)
