-- ===== src/Tests/Limiting.antt =====
-- The rate limiter on concrete requests.
use tangle.Common.{
  ℕ, ◌-◌, ◌≡◌, refl, some, List, [], ◌∷◌, BTreeMap, get, insert, retain, nat_ord, arith,
}
use tangle.Runtime.RateLimits.{
  TangleRateLimitRule, TangleRateLimitEntry, allowed, rejected, record_hit, current_entry,
  reset_if_expired, hit, is_allowed, retain_active,
}
use tangle.Runtime.RateLimits.Window.{count_allowed, count_requests, min, allowed_in_window}
use tangle.Runtime.RateLimits.Retention.{record_all, retain_active_unseen}

limiting : Unit {0}
unfolding record_hit current_entry reset_if_expired hit is_allowed count_allowed count_requests
    record_all get insert retain
limiting = tt

abbrev rule : TangleRateLimitRule
rule = record { window_seconds = 10; max_hits = 2 }

abbrev entries : BTreeMap ℕ TangleRateLimitEntry
entries = (1, record { reset_at = 20; hits = 1 }) ∷ (2, record { reset_at = 5; hits = 2 }) ∷ []

abbrev requests : List (ℕ × ℕ)
requests = (1, 12) ∷ (2, 13) ∷ (1, 14) ∷ (1, 19) ∷ []

limit_tests :
    (record_all (λ key. rule) requests entries
      ≡ allowed 0 20 ∷ allowed 1 23 ∷ rejected 20 ∷ rejected 20 ∷ [])
    × (count_allowed (λ key. rule) 1 requests entries ≡ 1)
    × (retain_active 10 entries ≡ (1, record { reset_at = 20; hits = 1 }) ∷ [])
unfolding limiting
limit_tests = (refl, refl, refl)

there_is : get 1 entries ≡ some (record { reset_at = 20; hits = 1 })
unfolding limiting
there_is = refl

allowed_in_window_example :
    count_allowed (λ key. rule) 1 requests entries ≡ min (count_requests 1 requests) (2 - 1)
allowed_in_window_example =
    allowed_in_window (λ key. rule) 1 requests entries (record { reset_at = 20; hits = 1 })
      (omega arith) there_is
      (λ e. omega arith, (λ e. omega arith, (λ e. omega arith, (λ e. omega arith, tt))))

retain_active_unseen_example :
    record_all (λ key. rule) requests (retain_active 10 entries)
    ≡ record_all (λ key. rule) requests entries
retain_active_unseen_example =
    retain_active_unseen (λ key. rule) 10 requests entries ((refl, tt), (tt, tt))
      (omega arith, (omega arith, (omega arith, (omega arith, tt))))
