-- ===== src/Runtime/Store/Scan.antt =====
-- The scan over the stored events (tangle_store_pocket/src/lib.rs).
use tangle.Common.{
  ℕ, zero, suc, ◌+◌, ◌≤◌, ◌<◌, ◌≡◌, ◌≢◌, refl, sym, inl, inr, Option, some, List, [], ◌∷◌, ok, ltb,
  arith, Bool-cases, Option-cases, Result-cases, subst,
}
use Prim.Native.Nat.{◌^◌}
use tangle.Groups.EventView.{PocketEvent}
use tangle.Groups.Projection.{StoreOffset}
use tangle.Runtime.Store.{
  Pocket, PocketStoredEvent, ScanOutcome, out_of_fuel, failed, scanned, push, next_event_offset,
  scan_loop, start_offset, scan_outcome, scan_fuel,
}

push-ne-out_of_fuel :
    (stored : PocketStoredEvent) (outcome : ScanOutcome)
    → outcome ≢ out_of_fuel
    → push stored outcome ≢ out_of_fuel
push-ne-out_of_fuel stored out_of_fuel h e = h refl
push-ne-out_of_fuel stored (failed x) h e = cc e
push-ne-out_of_fuel stored (scanned events) h e = cc e

push-scanned :
    (stored : PocketStoredEvent) (outcome : ScanOutcome) (events : List PocketStoredEvent)
    → push stored outcome ≡ scanned events
    → (rest : List PocketStoredEvent) × (outcome ≡ scanned rest) × (events ≡ stored ∷ rest)
push-scanned stored out_of_fuel events h = absurd (cc h)
push-scanned stored (failed x) events h = absurd (cc h)
push-scanned stored (scanned rest) events h = (rest, refl, ground arith)

-- Each event begins after the one before it, and is the event that is stored there.
abbrev pub Ascends :
    (pocket : Pocket)
    → pocket.Database
    → StoreOffset
    → StoreOffset
    → List PocketStoredEvent
    → Type 0
Ascends pocket database from end [] = Unit
Ascends pocket database from end (stored ∷ events) =
    (from ≤ stored.store_offset)
    × (stored.store_offset < end)
    × (pocket.get_event_by_offset stored.store_offset database ≡ some stored.event)
    × Ascends pocket database (stored.store_offset + 1) end events

Ascends-le :
    (pocket : Pocket) (database : pocket.Database) (low from end : StoreOffset)
    (events : List PocketStoredEvent)
    → low ≤ from
    → Ascends pocket database from end events
    → Ascends pocket database low end events
Ascends-le pocket database low from end [] h a = tt
Ascends-le pocket database low from end (stored ∷ events) h (b, c, e, a) = (omega arith, c, e, a)

-- A map of events is a file in memory, so that an event that is read from it ends below half of the
-- range of its addresses.
module _ (pocket : Pocket) (database : pocket.Database)
    (sized : (event : PocketEvent) → 1 ≤ pocket.event_len event)
    (mapped : (offset : StoreOffset) (event : PocketEvent)
      → pocket.get_event_by_offset offset database ≡ some event
      → offset + pocket.event_len event ≤ 2 ^ 63) where
  next_event_offset-lt :
      (offset next : StoreOffset) (event : PocketEvent)
      → pocket.get_event_by_offset offset database ≡ some event
      → next_event_offset pocket offset event ≡ ok next
      → offset < next
  unfolding next_event_offset
  next_event_offset-lt offset next event found h =
      ground (arith, sized event, mapped offset event found)

  scan_loop_ends :
      (fuel : ℕ) (end offset : StoreOffset)
      → 0 < fuel
      → end < offset + fuel
      → scan_loop pocket fuel end offset database ≢ out_of_fuel
  unfolding scan_loop
  scan_loop_ends zero end offset z h = absurd (omega arith)
  scan_loop_ends (suc fuel) end offset z h = elim (Bool-cases (ltb offset end)) [
    | inr past ↦ rw (scan_loop, past) (λ e. cc e)
    | inl before ↦ elim (Option-cases (pocket.get_event_by_offset offset database)) [
      | inl missing ↦ rw (scan_loop, before, missing) (λ e. cc e)
      | inr (event, found) ↦ elim (Result-cases (next_event_offset pocket offset event)) [
        | inr (x, e) ↦ rw (scan_loop, before, found, e) (λ f. cc f)
        | inl (next, e) ↦
            let further = next_event_offset-lt offset next event found e in
            rw (scan_loop, before, found, e)
              (push-ne-out_of_fuel _ (scan_loop pocket fuel end next database)
                (scan_loop_ends fuel end next (ground arith) (omega arith)))
      ]
    ]
  ]

  scan_loop-Ascends :
      (fuel : ℕ) (end offset : StoreOffset) (events : List PocketStoredEvent)
      → scan_loop pocket fuel end offset database ≡ scanned events
      → Ascends pocket database offset end events
  unfolding scan_loop
  scan_loop-Ascends zero end offset events h = absurd (cc h)
  scan_loop-Ascends (suc fuel) end offset events h = elim (Bool-cases (ltb offset end)) [
    | inr past ↦
        let same : [] ≡ events = ground (arith, rw (scan_loop, past) at h) in
        subst (Ascends pocket database offset end) same tt
    | inl before ↦ elim (Option-cases (pocket.get_event_by_offset offset database)) [
      | inl missing ↦ absurd (cc (rw (scan_loop, before, missing) at h))
      | inr (event, found) ↦ elim (Result-cases (next_event_offset pocket offset event)) [
        | inr (x, e) ↦ absurd (cc (rw (scan_loop, before, found, e) at h))
        | inl (next, e) ↦
            let (rest, f, same) =
              push-scanned (record { store_offset = offset; event = event })
                (scan_loop pocket fuel end next database) events
                (rw (scan_loop, before, found, e) at h) in
            let further = next_event_offset-lt offset next event found e in
            subst (Ascends pocket database offset end) (sym same) (
              omega arith,
              ground arith,
              found,
              Ascends-le pocket database (offset + 1) next end rest (omega arith)
                  (scan_loop-Ascends fuel end next rest f),
            )
      ]
    ]
  ]

  -- The scan over the stored events ends after at most as many passes as the map of events has
  -- bytes, wherever it starts, when every event takes at least one byte and every event that is read
  -- ends at most at 2 ^ 63, so that no offset wraps around.
  pub scan_outcome_ends :
      (last_offset : Option StoreOffset)
      → scan_outcome pocket (scan_fuel pocket database) last_offset database ≢ out_of_fuel
  unfolding scan_outcome scan_fuel
  scan_outcome_ends last_offset = elim (Option-cases (pocket.event_bytes database)) [
    | inl unknown ↦ rw (scan_outcome, unknown) (λ e. cc e)
    | inr (end, e) ↦ elim (Result-cases (start_offset pocket last_offset database)) [
      | inr (x, f) ↦ rw (scan_outcome, e, f) (λ g. cc g)
      | inl (offset, f) ↦
          let budget : scan_fuel pocket database ≡ end + 1 = rw (scan_fuel, e) refl in
          rw budget (
            rw (scan_outcome, e, f)
              (scan_loop_ends (end + 1) end offset (omega arith) (omega arith)))
    ]
  ]

  -- A scan that succeeds lists events in the strict order of their offsets, each with the offset
  -- at which it is stored, when every event takes at least one byte and every event that is read
  -- ends at most at 2 ^ 63, so that no offset wraps around.
  pub scan_outcome-Ascends :
      (fuel : ℕ) (last_offset : Option StoreOffset) (events : List PocketStoredEvent)
      → scan_outcome pocket fuel last_offset database ≡ scanned events
      → (start end : StoreOffset) × (start_offset pocket last_offset database ≡ ok start)
        × (pocket.event_bytes database ≡ some end)
        × Ascends pocket database start end events
  unfolding scan_outcome
  scan_outcome-Ascends fuel last_offset events h =
      elim (Option-cases (pocket.event_bytes database)) [
        | inl unknown ↦ absurd (cc (rw (scan_outcome, unknown) at h))
        | inr (end, e) ↦ elim (Result-cases (start_offset pocket last_offset database)) [
          | inr (x, f) ↦ absurd (cc (rw (scan_outcome, e, f) at h))
          | inl (offset, f) ↦ (
            offset,
            end,
            f,
            e,
            scan_loop-Ascends fuel end offset events (rw (scan_outcome, e, f) at h),
          )
        ]
      ]
