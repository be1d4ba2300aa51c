-- ===== src/Runtime/RateLimits.antt =====
-- crates/tangle_runtime/src/rate_limits.rs: the limiter, a map of windows behind a lock. The keys are
-- any ordered type: the source derives the order of its enumeration of keys.
pub mod Window
pub mod Retention
use tangle.Common.{
  ℕ, ◌+◌, ◌-◌, Bool, true, false, Option, none, some, List, [], ◌∷◌, Result, ok, err, Ord, BTreeMap,
  get, insert, retain, ltb, leb, if◌then◌else◌, ◌==◌,
}
use tangle.Protocol.{UnixTimestamp, saturating_add, u64_max}
use tangle.Runtime.Errors.{BaseRelayError, invalid}

pub record TangleRateLimitRule : Type 0 where
  pub window_seconds : ℕ
  pub max_hits : ℕ

unfoldable pub new_rule : ℕ → ℕ → Result BaseRelayError TangleRateLimitRule
new_rule window_seconds max_hits =
    if window_seconds == 0
    then err invalid
    else if max_hits == 0
    then err invalid
    else ok (record { window_seconds = window_seconds; max_hits = max_hits })

pub data TangleRateLimitDecision : Type 0 where
  allowed : (remaining : ℕ) (reset_at : UnixTimestamp) → TangleRateLimitDecision
  rejected : (reset_at : UnixTimestamp) → TangleRateLimitDecision

unfoldable pub is_allowed : TangleRateLimitDecision → Bool
is_allowed (allowed _ _) = true
is_allowed (rejected _) = false

pub record TangleRateLimitEntry : Type 0 where
  pub reset_at : UnixTimestamp
  pub hits : ℕ

abbrev pub reset_time : TangleRateLimitRule → UnixTimestamp → UnixTimestamp
reset_time rule now = saturating_add u64_max now rule.window_seconds

abbrev pub new_entry : TangleRateLimitRule → UnixTimestamp → TangleRateLimitEntry
new_entry rule now = record { reset_at = reset_time rule now; hits = 0 }

unfoldable pub reset_if_expired :
    TangleRateLimitRule → UnixTimestamp → TangleRateLimitEntry → TangleRateLimitEntry
reset_if_expired rule now entry = if leb entry.reset_at now then new_entry rule now else entry

-- `and_modify(..).or_insert_with(..)`.
unfoldable pub current_entry :
    TangleRateLimitRule → UnixTimestamp → Option TangleRateLimitEntry → TangleRateLimitEntry
unfolding reset_if_expired
current_entry rule now none = new_entry rule now
current_entry rule now (some entry) = reset_if_expired rule now entry

unfoldable pub hit :
    TangleRateLimitRule → TangleRateLimitEntry → TangleRateLimitEntry × TangleRateLimitDecision
hit rule entry = if leb rule.max_hits entry.hits then (entry, rejected entry.reset_at) else (
  record entry { hits = saturating_add u64_max entry.hits 1 },
  allowed (rule.max_hits - saturating_add u64_max entry.hits 1) entry.reset_at,
)

module _ {K : Type 0} ⦃o : Ord K⦄ where
  unfoldable pub record_hit :
      K
      → TangleRateLimitRule
      → UnixTimestamp
      → BTreeMap K TangleRateLimitEntry
      → BTreeMap K TangleRateLimitEntry × TangleRateLimitDecision
  unfolding current_entry hit
  record_hit key rule now entries =
      let (entry, decision) = hit rule (current_entry rule now (get key entries)) in
      (insert key entry entries, decision)

  unfoldable pub hits_of : K → BTreeMap K TangleRateLimitEntry → ℕ
  hits_of key entries = elim (get key entries) [ none ↦ 0 | some entry ↦ entry.hits ]

  abbrev pub retain_active :
      UnixTimestamp → BTreeMap K TangleRateLimitEntry → BTreeMap K TangleRateLimitEntry
  retain_active now entries = retain (λ key entry. ltb now entry.reset_at) entries
