-- ===== src/Runtime/RateLimits/Retention.antt =====
-- A limiter (rate_limits.rs) before and after it drops ended windows.
use tangle.Common.{
  ◌≤◌, ◌≡◌, refl, Option, none, some, List, [], ◌∷◌, Ord, BTreeMap, get, get-retain, kept, IsSorted,
  ltb, if◌then◌else◌, arith, eqb, get-insert, inl, inr, Bool-cases, All,
}
use tangle.Protocol.{UnixTimestamp}
use tangle.Runtime.RateLimits.{
  TangleRateLimitRule, TangleRateLimitDecision, TangleRateLimitEntry, reset_if_expired,
  current_entry, hit, record_hit, retain_active,
}

module _ {K : Type 0} ⦃o : Ord K⦄ where
  -- The decisions on requests one after another.
  unfoldable pub record_all :
      (K → TangleRateLimitRule)
      → List (K × UnixTimestamp)
      → BTreeMap K TangleRateLimitEntry
      → List TangleRateLimitDecision
  record_all rules [] entries = []
  record_all rules ((key, now) ∷ requests) entries =
      let (next, decision) = record_hit key (rules key) now entries in
      decision ∷ record_all rules requests next

  -- From the time on, both limiters see the same windows.
  Agree : UnixTimestamp → BTreeMap K TangleRateLimitEntry → BTreeMap K TangleRateLimitEntry → Type 0
  Agree now m n =
      (key : K) (rule : TangleRateLimitRule) (at : UnixTimestamp)
      → now ≤ at
      → current_entry rule at (get key m) ≡ current_entry rule at (get key n)

  kept_current :
      (now at : UnixTimestamp) (key : K) (rule : TangleRateLimitRule)
      (entry : Option TangleRateLimitEntry)
      → now ≤ at
      → current_entry rule at (kept {K = K} (λ k e. ltb now e.reset_at) key entry)
        ≡ current_entry rule at entry
  unfolding current_entry reset_if_expired
  kept_current now at key rule none le = refl
  kept_current now at key rule (some entry) le = ground arith

  retain_active-Agree :
      (now : UnixTimestamp) (m : BTreeMap K TangleRateLimitEntry)
      → IsSorted m
      → Agree now (retain_active now m) m
  unfolding Agree
  retain_active-Agree now m s key rule at le =
      rw (get-retain key (λ k (e : TangleRateLimitEntry). ltb now e.reset_at) m s)
        (kept_current now at key rule (get key m) le)

  record_hit-Agree :
      (now at : UnixTimestamp) (key : K) (rule : TangleRateLimitRule)
      (m n : BTreeMap K TangleRateLimitEntry)
      → now ≤ at
      → Agree now m n
      → ((record_hit key rule at m).1 ≡ (record_hit key rule at n).1)
        × Agree now (record_hit key rule at m).0 (record_hit key rule at n).0
  unfolding Agree record_hit
  record_hit-Agree now at key rule m n le a = (
    rw (a key rule at le) refl,
    λ other rule' at' le'.
        rw (get-insert, get-insert, a key rule at le) (other_key other rule' at' le'),
  )
    where
      other_key :
          (other : K) (rule' : TangleRateLimitRule) (at' : UnixTimestamp)
          → now ≤ at'
          → current_entry rule' at' (
              if eqb other key
              then some (hit rule (current_entry rule at (get key n))).0
              else get other m)
            ≡ current_entry rule' at' (
                if eqb other key
                then some (hit rule (current_entry rule at (get key n))).0
                else get other n)
      other_key other rule' at' le' = elim (Bool-cases (eqb other key)) [
        | inl e ↦ rw e refl
        | inr e ↦ rw e (a other rule' at' le')
      ]

  record_all-Agree :
      (rules : K → TangleRateLimitRule) (now : UnixTimestamp) (requests : List (K × UnixTimestamp))
      (m n : BTreeMap K TangleRateLimitEntry)
      → Agree now m n
      → All (λ (request : K × UnixTimestamp). now ≤ request.1) requests
      → record_all rules requests m ≡ record_all rules requests n
  unfolding record_all
  record_all-Agree rules now [] m n a later = refl
  record_all-Agree rules now ((key, at) ∷ requests) m n a (le, later) =
      let (decision, next) = record_hit-Agree now at key (rules key) m n le a in
      let rest =
        record_all-Agree rules now requests (record_hit key (rules key) at m).0
          (record_hit key (rules key) at n).0 next later in
      rw (decision, rest) refl

  -- A limiter that dropped the windows which ended by now decides all later requests, of any keys and
  -- under any rules, like one that kept them.
  pub retain_active_unseen :
      (rules : K → TangleRateLimitRule) (now : UnixTimestamp) (requests : List (K × UnixTimestamp))
      (entries : BTreeMap K TangleRateLimitEntry)
      → IsSorted entries
      → All (λ (request : K × UnixTimestamp). now ≤ request.1) requests
      → record_all rules requests (retain_active now entries) ≡ record_all rules requests entries
  retain_active_unseen rules now requests entries s later =
      record_all-Agree rules now requests (retain_active now entries) entries
        (retain_active-Agree now entries s) later
