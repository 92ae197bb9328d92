-- ===== src/Auth/Limiter.antt =====
-- internal/auth/limiter.go: the limiter of failed sign-in attempts.
--
-- A `time.Time` is its nanoseconds since a fixed instant, a `time.Duration` is not negative, and
-- `now.Sub(start) >= d` is `start + d <= now`, which also holds where the clock ran backwards.
-- The mutex makes each method one step. `limit` and `count` are Go `int`s that stay far below
-- 2 ^ 63: `count` grows by one in a call.
pub mod Laws
mod Tests
use atlas_dns.Base.{
  ℕ, ◌+◌, String, Bool, true, not, ◌||◌, Option, none, some, List, [], ◌∷◌, ltb, leb, if◌then◌else◌,
}
use atlas_dns.Base.Map.{lookup, insert, delete}

pub record AttemptWindow : Type 0 where
  pub count : ℕ
  pub start : ℕ

pub record LoginLimiter : Type 0 where
  pub windows : List (String × AttemptWindow)
  pub limit : ℕ
  pub duration : ℕ

unfoldable pub new_login_limiter : ℕ → ℕ → LoginLimiter
new_login_limiter limit duration = record { windows = []; limit = limit; duration = duration }

-- `!exists || now.Sub(window.start) >= l.duration`
abbrev pub is_over : ℕ → ℕ → Option AttemptWindow → Bool
is_over duration now none = true
is_over duration now (some w) = leb (w.start + duration) now

abbrev pub count_of : Option AttemptWindow → ℕ
count_of none = 0
count_of (some w) = w.count

-- `Allow`: the answer, and the limiter after it.
unfoldable pub allow : LoginLimiter → String → ℕ → Bool × LoginLimiter
allow l key now =
    let window = lookup key l.windows in
    if is_over l.duration now window
    then (true, record l { windows = insert key (record { count = 0; start = now }) l.windows })
    else (ltb (count_of window) l.limit, l)

-- `window` of `Failure` before the count grows.
abbrev pub current_window : ℕ → ℕ → Option AttemptWindow → AttemptWindow
current_window duration now none = record { count = 0; start = now }
current_window duration now (some w) =
    if leb (w.start + duration) now then record { count = 0; start = now } else w

unfoldable pub failure : LoginLimiter → String → ℕ → LoginLimiter
failure l key now =
    let window = current_window l.duration now (lookup key l.windows) in
    record l { windows = insert key (record window { count = window.count + 1 }) l.windows }

unfoldable pub success : LoginLimiter → String → LoginLimiter
success l key = record l { windows = delete key l.windows }
