-- ===== src/Auth/Lockout.antt =====
-- internal/auth/service.go: how many passwords a key can try.
use atlas_dns.Base.{
  ℕ, suc, ◌+◌, ◌-◌, ◌≤◌, ◌<◌, String, ◌≡◌, sym, ap, ◌∙◌, subst, ◌⊎◌, inl, inr, true, false, none,
  some, List, [], ◌∷◌, arith, ltb, Bool-cases, str_eq_self, All,
}
use atlas_dns.Base.Act.{ok, Result-cases}
use atlas_dns.Auth.Limiter.{LoginLimiter, allow, failure, AttemptWindow, is_over}
use atlas_dns.Auth.Limiter.Laws.{view, fail_live}
use atlas_dns.Base.Map.{lookup-insert}
use atlas_dns.Auth.Platform.{Platform}
use atlas_dns.Auth.Password.{verify_password}
use atlas_dns.Auth.Calls.{Call, Answers, Config, Run, World, audit_event, allow_login, fail_login}
use atlas_dns.Auth.Calls
use atlas_dns.Auth.Sessions.{record_failure}
use atlas_dns.Auth.Service.{
  login, login_email, login_key, verify_login, refuse_limited, refuse_credentials, admitted,
  hash_to_verify,
}

-- How often a user was looked up to verify a password.
unfoldable pub lookups : List Call → ℕ
lookups [] = 0
lookups (Call.user_by_email _ ∷ h) = suc (lookups h)
lookups (_ ∷ h) = lookups h

-- In a live window `Allow` changes nothing.
allow_live :
    (l : LoginLimiter) (key : String) (w : AttemptWindow) (now : ℕ)
    → view l key ≡ some w
    → now < w.start + l.duration
    → ((allow l key now).0 ≡ ltb w.count l.limit) × ((allow l key now).1 ≡ l)
unfolding allow
allow_live l key w now e h = (ground arith, ground arith)

-- A window that is over gives way to a new one.
allow_over :
    (l : LoginLimiter) (key : String) (now : ℕ)
    → is_over l.duration now (view l key) ≡ true
    → ((allow l key now).0 ≡ true)
      × (view (allow l key now).1 key ≡ some (record { count = 0; start = now }))
      × ((allow l key now).1.limit ≡ l.limit)
      × ((allow l key now).1.duration ≡ l.duration)
unfolding allow
allow_over l key now o =
    ground
      (arith, lookup-insert key key (record { count = 0; start = now }) l.windows, str_eq_self key)

-- One guess at a password.
pub record Guess : Type 0 where
  pub email : String
  pub password : String
  pub request : String
  pub user_agent : String

module _ (p : Platform) (answers : Answers) (config : Config) where
  record_failure-lookups :
      (request source_ip email outcome : String) (w : World)
      → let after = (record_failure p answers request source_ip email outcome w).1 in
        (lookups after.calls ≡ lookups w.calls) × (after.limiter ≡ w.limiter)
  unfolding record_failure audit_event lookups
  record_failure-lookups request source_ip email outcome w = (ground arith, ground arith)

  -- A sign-in with a wrong password: the limiter it leaves, and how often a user was looked up.
  pub login-limiter :
      (email password request source_ip user_agent : String) (w : World)
      → ((h : List Call)
          → verify_password p
              (hash_to_verify config (answers.by_email (login_email p email) h))
              password
            ≡ ok false)
      → let after = (login p answers config email password request source_ip user_agent w).1 in
        let key = login_key p source_ip (login_email p email) in
        let r = allow w.limiter key (answers.now w.calls) in
        ((r.0 ≡ false) × (lookups after.calls ≡ lookups w.calls) × (after.limiter ≡ r.1))
        ⊎ ((r.0 ≡ true)
            × (lookups after.calls ≡ suc (lookups w.calls))
            × ((at : List Call) × (after.limiter ≡ failure r.1 key (answers.now at))))
  unfolding login verify_login refuse_limited refuse_credentials allow_login fail_login lookups
  login-limiter email password request source_ip user_agent w wrong =
      let clean = login_email p email in
      let key = login_key p source_ip clean in
      let r = allow w.limiter key (answers.now w.calls) in
      let next = (allow_login answers key w).1 in
      let found = answers.by_email clean next.calls in
      let looked = Calls.user_by_email clean ∷ next.calls in
      let missed = wrong next.calls in
      let failed = (fail_login answers key (record next { calls = looked })).1 in
      elim (Bool-cases r.0) [
        | inr shut ↦
            let quiet = record_failure-lookups request source_ip clean "rate_limited" next in
            inl (shut, ground arith, ground arith)
        | inl wide ↦
            let quiet =
              record_failure-lookups request source_ip clean "invalid_credentials" failed in
            let no_one : admitted found false ≡ none = elim (Result-cases found) [
              | inr (e, lost) ↦ ground arith
              | inl (u, known) ↦ ground arith
            ] in
            inr (wide, ground arith, (looked, ground arith))
      ]

  -- Sign-ins from one source, one after the other, whatever each of them answers.
  unfoldable pub guess : String → List Guess → World → World
  guess source_ip [] w = w
  guess source_ip (g ∷ gs) w =
      guess source_ip gs
        (login p answers config g.email g.password g.request source_ip g.user_agent w).1

  -- A wrong password for the key, whoever is found.
  abbrev pub IsWrong : String → String → Guess → Type 0
  IsWrong source_ip key g =
      (login_key p source_ip (login_email p g.email) ≡ key)
      × ((h : List Call)
          → verify_password p (hash_to_verify config (answers.by_email (login_email p g.email) h))
              g.password
            ≡ ok false)

  -- What is left of a window after one wrong password.
  abbrev pub Counts : World → World → String → ℕ → ℕ → Type 0
  Counts w after key count start =
      (after.limiter.limit ≡ w.limiter.limit)
      × (after.limiter.duration ≡ w.limiter.duration)
      × (((w.limiter.limit ≤ count)
            × (lookups after.calls ≡ lookups w.calls)
            × (view after.limiter key ≡ some (record { count = count; start = start })))
          ⊎ ((count < w.limiter.limit)
              × (lookups after.calls ≡ suc (lookups w.calls))
              × (view after.limiter key ≡ some (record { count = count + 1; start = start }))))

  abbrev after_guess : String → Guess → World → World
  after_guess source_ip g w =
      (login p answers config g.email g.password g.request source_ip g.user_agent w).1

  login-Counts :
      (source_ip key : String) (g : Guess) (w : World) (count start end : ℕ)
      → IsWrong source_ip key g
      → view w.limiter key ≡ some (record { count = count; start = start })
      → start + w.limiter.duration ≡ end
      → ((h : List Call) → answers.now h < end)
      → Counts w (after_guess source_ip g w) key count start
  login-Counts source_ip key g w count start end (same, wrong) seen ends early =
      let key' = login_key p source_ip (login_email p g.email) in
      let window : AttemptWindow = record { count = count; start = start } in
      let seen' : view w.limiter key' ≡ some window =
        subst (λ k. view w.limiter k ≡ some window) (sym same) seen in
      let allowed =
        allow_live w.limiter key' window (answers.now w.calls) seen'
          (ground (arith, early w.calls)) in
      subst (λ k. Counts w (after_guess source_ip g w) k count start) same
        (elim (login-limiter g.email g.password g.request source_ip g.user_agent w wrong) [
          | inl (shut, quiet, left) ↦
              let kept : (after_guess source_ip g w).limiter ≡ w.limiter = left ∙ allowed.1 in
              (
                ap (λ l. l.limit) kept,
                ap (λ l. l.duration) kept,
                inl (ground arith, quiet, ap (λ l. view l key') kept ∙ seen'),
              )
          | inr (wide, looked, (at, left)) ↦
              let kept : (after_guess source_ip g w).limiter
                  ≡ failure w.limiter key' (answers.now at) =
                left ∙ ap (λ l. failure l key' (answers.now at)) allowed.1 in
              let counted =
                fail_live w.limiter key' window (answers.now at) seen' (ground (arith, early at)) in
              (
                ap (λ l. l.limit) kept ∙ counted.1,
                ap (λ l. l.duration) kept ∙ counted.2,
                inr (ground arith, looked, ap (λ l. view l key') kept ∙ counted.0),
              )
        ])

  guess-live :
      (source_ip key : String) (gs : List Guess) (w : World) (count start end : ℕ)
      → All (IsWrong source_ip key) gs
      → view w.limiter key ≡ some (record { count = count; start = start })
      → start + w.limiter.duration ≡ end
      → ((h : List Call) → answers.now h < end)
      → lookups (guess source_ip gs w).calls ≤ lookups w.calls + (w.limiter.limit - count)
  unfolding guess
  guess-live source_ip key [] w count start end wrong seen ends early = omega arith
  guess-live source_ip key (g ∷ gs) w count start end wrong seen ends early =
      let next = after_guess source_ip g w in
      let (limit, duration, counted) =
        login-Counts source_ip key g w count start end wrong.0 seen ends early in
      elim counted [
        | inl (full, looked, left) ↦
            let later =
              guess-live source_ip key gs next count start end wrong.1 left (ground arith) early in
            ground arith
        | inr (free, looked, left) ↦
            let later =
              guess-live source_ip key gs next (count + 1) start end wrong.1 left (ground arith)
                early in
            ground arith
      ]

  -- In one window a source can try at most `limit` wrong passwords for an address: however many
  -- sign-ins are made with wrong passwords for the key, starting where its last window is over and
  -- ending before the new one is, a user is looked up at most `limit` times, if it is not 0.
  pub guess-lookups :
      (source_ip key : String) (gs : List Guess) (w : World)
      → All (IsWrong source_ip key) gs
      → is_over w.limiter.duration (answers.now w.calls) (view w.limiter key) ≡ true
      → 1 ≤ w.limiter.limit
      → ((h : List Call) → answers.now h < answers.now w.calls + w.limiter.duration)
      → lookups (guess source_ip gs w).calls ≤ lookups w.calls + w.limiter.limit
  unfolding guess
  guess-lookups source_ip key [] w wrong over least early = omega arith
  guess-lookups source_ip key (g ∷ gs) w wrong over least early =
      let start = answers.now w.calls in
      let end = start + w.limiter.duration in
      let next = after_guess source_ip g w in
      let key' = login_key p source_ip (login_email p g.email) in
      let opened = allow_over w.limiter key' start (
        subst (λ k. is_over w.limiter.duration start (view w.limiter k) ≡ true) (sym wrong.0.0)
          over) in
      elim (login-limiter g.email g.password g.request source_ip g.user_agent w wrong.0.1) [
        | inl (shut, quiet, left) ↦ absurd (ground arith)
        | inr (wide, looked, (at, left)) ↦
            let fresh : LoginLimiter = (allow w.limiter key' start).1 in
            let counted =
              fail_live fresh key' (record { count = 0; start = start }) (answers.now at) opened.1
                (ground (arith, early at)) in
            let seen : view next.limiter key ≡ some (record { count = 1; start = start }) =
              subst (λ k. view next.limiter k ≡ some (record { count = 1; start = start }))
                wrong.0.0 (ap (λ l. view l key') left ∙ counted.0) in
            let limit : next.limiter.limit ≡ w.limiter.limit =
              ap (λ l. l.limit) left ∙ counted.1 ∙ opened.2 in
            let duration : next.limiter.duration ≡ w.limiter.duration =
              ap (λ l. l.duration) left ∙ counted.2 ∙ opened.3 in
            let later =
              guess-live source_ip key gs next 1 start end wrong.1 seen (ground arith) early in
            ground arith
      ]
