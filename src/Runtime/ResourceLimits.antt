-- ===== src/Runtime/ResourceLimits.antt =====
-- crates/tangle_runtime/src/resource_limits.rs: the counters of connections and of subscriptions.
-- A counter is atomic, and any number of threads work on it: a step is one atomic operation of one
-- of them, and a run is any sequence of steps.
pub mod Interleaved
use tangle.Common.{
  ℕ, ◌+◌, ◌-◌, ◌≡◌, ◌==◌, Bool, true, false, List, [], ◌∷◌, Result, ok, err, ltb, if◌then◌else◌,
}
use Prim.Native.Nat.{◌%◌, ◌^◌}
use tangle.Protocol.{u64_max}
use tangle.Runtime.Errors.{BaseRelayError, invalid, restricted}

pub data Attempt : Type 0 where
  refused : BaseRelayError → Attempt
  acquired : (next : ℕ) → Attempt
  retried : (actual : ℕ) → Attempt

-- One pass of the loop of `increment_with_limit`: the checks, then `compare_exchange`.
unfoldable pub attempt : ℕ → ℕ → ℕ → ℕ → Attempt
attempt limit amount current counter =
    if ltb u64_max (current + amount)
    then refused restricted
    else if ltb limit (current + amount)
    then refused restricted
    else if counter == current
    then acquired (current + amount)
    else retried counter

-- `fetch_sub`, which wraps.
abbrev pub fetch_sub : ℕ → ℕ → ℕ
fetch_sub counter amount = (counter + 2 ^ 64 - amount) % 2 ^ 64

-- A permit that is live. `release` consumes it, and its end drops it once more.
pub record Permit : Type 0 where
  pub count : ℕ
  pub released : Bool

unfoldable pub release_inner : Permit × ℕ → Permit × ℕ
release_inner (permit, counter) =
    if permit.released
    then (permit, counter)
    else (record permit { released = true }, fetch_sub counter permit.count)

abbrev pub open_permit : ℕ → Permit
open_permit count = record { count = count; released = false }

unfoldable pub after_drop : ℕ → ℕ → ℕ
unfolding release_inner
after_drop count counter = (release_inner (open_permit count, counter)).1

unfoldable pub after_release : ℕ → ℕ → ℕ
unfolding release_inner
after_release count counter = (release_inner (release_inner (open_permit count, counter))).1

-- The guard of `try_open_subscriptions`; a connection counts 1.
unfoldable pub check_count : ℕ → Result BaseRelayError (Unit {0})
check_count count = if count == 0 then err invalid else ok tt

-- A thread in the loop, with the value that it read last.
pub record Trying : Type 0 where
  pub amount : ℕ
  pub current : ℕ

pub record Resources : Type 0 where
  pub active : ℕ
  pub trying : List Trying
  -- The amounts of the permits that are not released.
  pub permits : List ℕ

abbrev pub new_resources : Resources
new_resources = record { active = 0; trying = []; permits = [] }

-- An item of a list, and the list without it.
pub data Takes {ℓ} {A : Type ℓ} (a : A) : List A → List A → Type ℓ where
  first : (xs : List A) → Takes a (a ∷ xs) xs
  later : (x : A) (xs rest : List A) → Takes a xs rest → Takes a (x ∷ xs) (x ∷ rest)

pub data Step (limit : ℕ) : Resources → Resources → Type 0 where
  load :
      (s : Resources) (amount : ℕ)
      → check_count amount ≡ ok tt
      → Step limit s
          (record s { trying = record { amount = amount; current = s.active } ∷ s.trying })
  acquire :
      (s : Resources) (t : Trying) (rest : List Trying) (next : ℕ)
      → Takes t s.trying rest
      → attempt limit t.amount t.current s.active ≡ acquired next
      → Step limit s (record { active = next; trying = rest; permits = t.amount ∷ s.permits })
  refuse :
      (s : Resources) (t : Trying) (rest : List Trying) (e : BaseRelayError)
      → Takes t s.trying rest
      → attempt limit t.amount t.current s.active ≡ refused e
      → Step limit s (record s { trying = rest })
  retry :
      (s : Resources) (t : Trying) (rest : List Trying) (actual : ℕ)
      → Takes t s.trying rest
      → attempt limit t.amount t.current s.active ≡ retried actual
      → Step limit s (record s { trying = record t { current = actual } ∷ rest })
  release :
      (s : Resources) (amount : ℕ) (rest : List ℕ)
      → Takes amount s.permits rest
      → Step limit s (record s { active = after_release amount s.active; permits = rest })
  drop :
      (s : Resources) (amount : ℕ) (rest : List ℕ)
      → Takes amount s.permits rest
      → Step limit s (record s { active = after_drop amount s.active; permits = rest })

pub data Reach (limit : ℕ) (s : Resources) : Resources → Type 0 where
  start : Reach limit s s
  follow : (t u : Resources) → Reach limit s t → Step limit t u → Reach limit s u
