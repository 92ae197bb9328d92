-- ===== src/Auth/Limiter/Tests.antt =====
-- Runs of the limiter, and its laws at concrete inputs.
use atlas_dns.Base.{◌≡◌, refl, true, false, none, [], ◌∷◌, arith}
use atlas_dns.Auth.Limiter.{LoginLimiter, new_login_limiter, allow, failure, success}
use atlas_dns.Auth.Limiter.Laws.{
  allows, fails, succeeds, run, view, fail_all, allow-run_other, lockout, allow-success,
}
use atlas_dns.Base.Map.{lookup, insert}

abbrev fresh : LoginLimiter
unfolding new_login_limiter
fresh = new_login_limiter 2 900

abbrev used : LoginLimiter
used = record fresh { windows = ("a", record { count = 2; start = 10 }) ∷ [] }

locked_run : (allow (fail_all (allow fresh "a" 0).1 "a" (1 ∷ 2 ∷ [])) "a" 3).0 ≡ false
unfolding allow fail_all failure lookup insert new_login_limiter
locked_run = refl

allow-run_other_example :
    (allow (run used (("b", fails 11) ∷ ("c", succeeds) ∷ ("b", allows 12) ∷ [])) "a" 20).0
    ≡ (allow used "a" 20).0
allow-run_other_example =
    allow-run_other used "a" (("b", fails 11) ∷ ("c", succeeds) ∷ ("b", allows 12) ∷ []) 20
      (refl, (refl, (refl, tt)))

lockout_example :
    ((allow fresh "a" 0).0 ≡ true)
    × (allow (fail_all (allow fresh "a" 0).1 "a" (1 ∷ 2 ∷ [])) "a" 3
        ≡ (false, fail_all (allow fresh "a" 0).1 "a" (1 ∷ 2 ∷ [])))
unfolding lookup new_login_limiter
lockout_example = lockout fresh "a" 0 3 (1 ∷ 2 ∷ []) refl (omega arith) (omega arith)

allow-success_example :
    (view (success used "a") "a" ≡ none) × ((allow (success used "a") "a" 20).0 ≡ true)
allow-success_example = allow-success used "a" 20
