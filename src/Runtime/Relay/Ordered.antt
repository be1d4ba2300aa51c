-- ===== src/Runtime/Relay/Ordered.antt =====
-- The order of the events of a query, and their repetitions (relay/core.rs).
use tangle.Common.{
  ◌≡◌, ◌≢◌, refl, sym, ap, inl, inr, ◌⊎◌, true, List, [], ◌∷◌, sort_by, sort_by-InOrder, In-sort_by,
  InOrder, In, here, there, In-uncons, All, arith, Bool-cases, contains, contains-add, eqb, eqb_iff,
  eqb_self, add, list_ord, nat_ord, pair_ord, reverse_ord, Reverse, BTreeSet,
}
use tangle.Protocol.{EventId}
use tangle.Groups.EventView.{PocketEvent}
use tangle.Runtime.Relay.Queries.{newest_first, dedupe, sort_and_dedupe_query_events}

abbrev pub NoRepeats : List PocketEvent → Type 0
NoRepeats [] = Unit
NoRepeats (x ∷ events) = All (λ (y : PocketEvent). y.id_hex ≢ x.id_hex) events × NoRepeats events

abbrev pub IsNewestFirst : List PocketEvent → Type 0
IsNewestFirst events = InOrder {K = Reverse × EventId} newest_first events

All-dedupe :
    (P : PocketEvent → Type 0) (seen : BTreeSet EventId) (events : List PocketEvent)
    → All P events
    → All P (dedupe seen events)
unfolding dedupe
All-dedupe P seen [] a = tt
All-dedupe P seen (x ∷ events) (p, a) = elim (Bool-cases (contains {K = EventId} x.id_hex seen)) [
  | inl e ↦ rw (dedupe, e) (All-dedupe P seen events a)
  | inr e ↦ rw (dedupe, e) (p, All-dedupe P (add x.id_hex seen) events a)
]

dedupe-IsNewestFirst :
    (seen : BTreeSet EventId) (events : List PocketEvent)
    → IsNewestFirst events
    → IsNewestFirst (dedupe seen events)
unfolding dedupe
dedupe-IsNewestFirst seen [] o = tt
dedupe-IsNewestFirst seen (x ∷ events) (a, o) =
    elim (Bool-cases (contains {K = EventId} x.id_hex seen)) [
      | inl e ↦ rw (dedupe, e) (dedupe-IsNewestFirst seen events o)
      | inr e ↦
          rw (dedupe, e)
            (
              All-dedupe _ (add x.id_hex seen) events a,
              dedupe-IsNewestFirst (add x.id_hex seen) events o,
            )
    ]

-- Nothing that was seen is listed again.
unseen :
    (id : EventId) (seen : BTreeSet EventId) (events : List PocketEvent)
    → contains id seen ≡ true
    → All (λ (y : PocketEvent). y.id_hex ≢ id) (dedupe seen events)
unfolding dedupe
unseen id seen [] h = tt
unseen id seen (x ∷ events) h = elim (Bool-cases (contains {K = EventId} x.id_hex seen)) [
  | inl e ↦ rw (dedupe, e) (unseen id seen events h)
  | inr e ↦
      rw (dedupe, e)
        (
          λ same. absurd (cc (rw same at e, h)),
          unseen id (add x.id_hex seen) events (ground (arith, contains-add x.id_hex id seen)),
        )
]

dedupe-NoRepeats :
    (seen : BTreeSet EventId) (events : List PocketEvent) → NoRepeats (dedupe seen events)
unfolding dedupe
dedupe-NoRepeats seen [] = tt
dedupe-NoRepeats seen (x ∷ events) = elim (Bool-cases (contains {K = EventId} x.id_hex seen)) [
  | inl e ↦ rw (dedupe, e) (dedupe-NoRepeats seen events)
  | inr e ↦
      rw (dedupe, e)
        (
          unseen x.id_hex (add x.id_hex seen) events (
              ground (arith, contains-add x.id_hex x.id_hex seen, eqb_self {A = EventId} x.id_hex)),
          dedupe-NoRepeats (add x.id_hex seen) events,
        )
]

abbrev pub Covered : EventId → List PocketEvent → Type 0
Covered id events = (y : PocketEvent) × In y events × (y.id_hex ≡ id)

dedupe-Covered :
    (event : PocketEvent) (seen : BTreeSet EventId) (events : List PocketEvent)
    → In event events
    → (contains event.id_hex seen ≡ true) ⊎ Covered event.id_hex (dedupe seen events)
unfolding dedupe
dedupe-Covered event seen [] n = elim n [ ]
dedupe-Covered event seen (x ∷ events) n =
    elim (Bool-cases (contains {K = EventId} x.id_hex seen)) [
      | inl e ↦ elim (In-uncons n) [
        | inl same ↦ inl (rw (← same) e)
        | inr later ↦ rw (dedupe, e) (dedupe-Covered event seen events later)
      ]
      | inr e ↦ elim (In-uncons n) [
        | inl same ↦ rw (dedupe, e) (inr (x, here refl, ap (λ (y : PocketEvent). y.id_hex) same))
        | inr later ↦ elim (dedupe-Covered event (add x.id_hex seen) events later) [
          | inr (y, m, f) ↦ rw (dedupe, e) (inr (y, there m, f))
          | inl found ↦ elim (Bool-cases (eqb {A = EventId} event.id_hex x.id_hex)) [
            | inl same ↦
                let id_same : event.id_hex ≡ x.id_hex = (eqb_iff event.id_hex x.id_hex).0 same in
                rw (dedupe, e) (inr (x, here refl, sym id_same))
            | inr other ↦ inl (ground (arith, contains-add x.id_hex event.id_hex seen))
          ]
        ]
      ]
    ]

-- The events of a query are put in the order of their times, the newest first, and of their ids;
-- no id is listed twice, and none is lost.
pub sort_and_dedupe_query_events_lem :
    (events : List PocketEvent)
    → IsNewestFirst (sort_and_dedupe_query_events events)
      × NoRepeats (sort_and_dedupe_query_events events)
      × ((event : PocketEvent)
          → In event events
          → Covered event.id_hex (sort_and_dedupe_query_events events))
unfolding sort_and_dedupe_query_events contains
sort_and_dedupe_query_events_lem events =
    let sorted = sort_by {K = Reverse × EventId} newest_first events in
    (
      dedupe-IsNewestFirst [] sorted (sort_by-InOrder {K = Reverse × EventId} newest_first events),
      dedupe-NoRepeats [] sorted,
      λ event n.
          elim (dedupe-Covered event [] sorted
            ((In-sort_by {K = Reverse × EventId} newest_first event events).1 n)) [
              | inl none_seen ↦ absurd (cc none_seen)
              | inr covered ↦ covered
            ],
    )
