-- ===== src/Runtime/RateLimits/Window.antt =====
-- How many requests of a key the limiter lets through before its window ends.
use tangle.Common.{
  ℕ, suc, ◌-◌, ◌≤◌, ◌<◌, ◌≡◌, refl, sym, ◌∙◌, inl, inr, false, some, List, [], ◌∷◌, Ord, BTreeMap,
  get, ltb, leb, if◌then◌else◌, arith, eqb, eqb_iff, eqb_self, get-insert, Bool-cases, All,
}
use tangle.Protocol.{UnixTimestamp, u64_max}
use tangle.Runtime.RateLimits.{
  TangleRateLimitRule, TangleRateLimitEntry, is_allowed, reset_if_expired, current_entry, hit,
  record_hit,
}

-- The entry of a key after a request in its window.
abbrev used : TangleRateLimitRule → TangleRateLimitEntry → TangleRateLimitEntry
used rule entry = record entry {
  hits = if leb rule.max_hits entry.hits then entry.hits else suc entry.hits;
}

abbrev pub min : ℕ → ℕ → ℕ
min a b = if leb a b then a else b

module _ {K : Type 0} ⦃o : Ord K⦄ where
  -- Requests of any keys, each with its time, one after another.
  unfoldable pub count_allowed :
      (K → TangleRateLimitRule) → K → List (K × UnixTimestamp) → BTreeMap K TangleRateLimitEntry → ℕ
  unfolding record_hit is_allowed
  count_allowed rules key [] entries = 0
  count_allowed rules key ((other, now) ∷ requests) entries =
      let (next, decision) = record_hit other (rules other) now entries in
      let rest = count_allowed rules key requests next in
      if eqb key other then (if is_allowed decision then suc rest else rest) else rest

  unfoldable pub count_requests : K → List (K × UnixTimestamp) → ℕ
  count_requests key [] = 0
  count_requests key ((other, now) ∷ requests) =
      let rest = count_requests key requests in if eqb key other then suc rest else rest

  abbrev pub Before : K → UnixTimestamp → K × UnixTimestamp → Type 0
  Before key reset (other, now) = key ≡ other → now < reset

  -- What one request does to the entry of a key.
  untouched :
      (rule : TangleRateLimitRule) (key other : K) (now : UnixTimestamp)
      (entries : BTreeMap K TangleRateLimitEntry)
      → eqb key other ≡ false
      → get key (record_hit other rule now entries).0 ≡ get key entries
  unfolding record_hit
  untouched rule key other now entries different = rw (get-insert, different) refl

  counted :
      (rule : TangleRateLimitRule) (key : K) (now : UnixTimestamp)
      (entries : BTreeMap K TangleRateLimitEntry) (entry : TangleRateLimitEntry)
      → rule.max_hits ≤ u64_max
      → get key entries ≡ some entry
      → now < entry.reset_at
      → (get key (record_hit key rule now entries).0 ≡ some (used rule entry))
        × (is_allowed (record_hit key rule now entries).1 ≡ ltb entry.hits rule.max_hits)
  unfolding record_hit current_entry reset_if_expired hit is_allowed
  counted rule key now entries entry bound found early =
      rw (get-insert, eqb_self key, found) (ground arith, ground arith)

  -- Until the window of a key ends, the limiter lets through as many of its requests as the rule has
  -- hits left, and no more, whatever the other keys do in between.
  pub allowed_in_window :
      (rules : K → TangleRateLimitRule) (key : K) (requests : List (K × UnixTimestamp))
      (entries : BTreeMap K TangleRateLimitEntry) (entry : TangleRateLimitEntry)
      → (rules key).max_hits ≤ u64_max
      → get key entries ≡ some entry
      → All (Before key entry.reset_at) requests
      → count_allowed rules key requests entries
        ≡ min (count_requests key requests) ((rules key).max_hits - entry.hits)
  unfolding count_allowed count_requests record_hit current_entry reset_if_expired hit is_allowed
  allowed_in_window rules key [] entries entry bound found before = ground arith
  allowed_in_window rules key ((other, now) ∷ requests) entries entry bound found (b, before) =
      elim (Bool-cases (eqb key other)) [
        | inl same ↦
            let key_of : other ≡ key = sym ((eqb_iff key other).0 same) in
            let (next, passed) =
              counted (rules key) key now entries entry bound found (b (sym key_of)) in
            let later =
              allowed_in_window rules key requests (record_hit key (rules key) now entries).0
                (used (rules key) entry) bound next before in
            rw (key_of, eqb_self key, passed, later) (ground arith)
        | inr different ↦
            let same_entry = untouched (rules other) key other now entries different in
            rw different (
              allowed_in_window rules key requests (record_hit other (rules other) now entries).0
                entry bound (same_entry ∙ found) before)
      ]
