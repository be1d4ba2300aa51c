-- ===== src/Runtime/ResourceLimits/Interleaved.antt =====
-- Threads that open and release resources in any order (resource_limits.rs).
use tangle.Common.{ℕ, ◌+◌, ◌-◌, ◌≤◌, ◌≡◌, refl, List, [], ◌∷◌, arith}
use tangle.Protocol.{u64_max}
use tangle.Runtime.ResourceLimits.{
  acquired, attempt, fetch_sub, Resources, new_resources, Takes, first, later, Step, load, acquire,
  refuse, retry, release, Reach, start, follow, drop, after_drop, after_release,
}

abbrev pub sum : List ℕ → ℕ
sum [] = 0
sum (x ∷ xs) = x + sum xs

-- The counter is the sum of the permits, and within the limit.
pub record IsCounted (limit : ℕ) (s : Resources) : Type 0 where
  pub counted : s.active ≡ sum s.permits
  pub bounded : s.active ≤ limit

Takes-sum : (amount : ℕ) (xs rest : List ℕ) → Takes amount xs rest → sum xs ≡ amount + sum rest
Takes-sum amount xs rest (first _) = refl
Takes-sum amount xs rest (later x ys zs t) = omega (arith, Takes-sum amount ys zs t)

attempt-acquired :
    (limit amount current counter after : ℕ)
    → attempt limit amount current counter ≡ acquired after
    → (after ≡ counter + amount) × (after ≤ limit)
unfolding attempt
attempt-acquired limit amount current counter after h = ground arith

fetch_sub_exact :
    (counter amount : ℕ)
    → amount ≤ counter
    → counter ≤ u64_max
    → fetch_sub counter amount ≡ counter - amount
fetch_sub_exact counter amount h k = omega arith

after_release-IsCounted :
    (limit amount : ℕ) (s : Resources) (rest : List ℕ)
    → limit ≤ u64_max
    → Takes amount s.permits rest
    → IsCounted limit s
    → (after_release amount s.active ≡ sum rest)
      × (after_release amount s.active ≤ limit)
      × (after_drop amount s.active ≡ after_release amount s.active)
unfolding after_release after_drop
after_release-IsCounted limit amount s rest m k v =
    let total = Takes-sum amount s.permits rest k in
    let exact =
      fetch_sub_exact s.active amount (omega (arith, v.counted)) (omega (arith, v.bounded)) in
    (omega (arith, exact, total, v.counted), omega (arith, exact, v.bounded), refl)

Step-IsCounted :
    (limit : ℕ) (s t : Resources)
    → limit ≤ u64_max
    → Step limit s t
    → IsCounted limit s
    → IsCounted limit t
Step-IsCounted limit s t m (load _ amount c) v = ground arith
Step-IsCounted limit s t m (acquire _ x rest after k e) v =
    ground (arith, attempt-acquired limit x.amount x.current s.active after e)
Step-IsCounted limit s t m (refuse _ x rest e k h) v = ground arith
Step-IsCounted limit s t m (retry _ x rest actual k e) v = ground arith
Step-IsCounted limit s t m (release _ amount rest k) v =
    ground (arith, after_release-IsCounted limit amount s rest m k v)
Step-IsCounted limit s t m (drop _ amount rest k) v =
    ground (arith, after_release-IsCounted limit amount s rest m k v)

-- However threads interleave, the counter of active resources is the sum of the permits that are
-- not released and never above the limit, so that no release wraps around, for a limit of 64 bits.
pub Reach-IsCounted :
    (limit : ℕ) (s : Resources) → limit ≤ u64_max → Reach limit new_resources s → IsCounted limit s
Reach-IsCounted limit s m start = ground arith
Reach-IsCounted limit s m (follow t _ r step) =
    Step-IsCounted limit t s m step (Reach-IsCounted limit t m r)
