-- ===== src/Tests/Projecting.antt =====
-- The projection on concrete events.
use tangle.Common.{
  ◌≡◌, refl, inl, inr, List, [], ◌∷◌, ok, In, here, there, In-uncons, arith, pair_ord, list_ord,
  nat_ord,
}
use tangle.Groups.Projection.{member_of, tombstone_of, event_deletion_of}
use tangle.Groups.Projection.Rebuild.{
  CanonicalGroupEvent, ProjectionRebuildReport, empty_report, rebuild_loop,
  rebuild_group_projection,
}
use tangle.Groups.Projection.Convergence.{Holds}
use tangle.Groups.Projection.AnyOrder.{
  members_register, tombstones_register, deletions_register, AreDistinct, SameEvents,
  rebuild-IsLatest, rebuild_any_order,
}
use tangle.Tests.{projecting, limits, admitted, expelled, farm, guest, report_of}

abbrev events : List CanonicalGroupEvent
events = expelled ∷ admitted ∷ []

abbrev others : List CanonicalGroupEvent
others = admitted ∷ expelled ∷ admitted ∷ []

abbrev rebuilt : ProjectionRebuildReport
unfolding projecting
rebuilt = report_of (rebuild_group_projection events limits 99)

abbrev applied_one_by_one : ProjectionRebuildReport
unfolding projecting
applied_one_by_one = report_of (rebuild_loop limits empty_report others)

rebuild_ok : rebuild_group_projection events limits 99 ≡ ok rebuilt
unfolding projecting
rebuild_ok = refl

applied_ok : rebuild_loop limits empty_report others ≡ ok applied_one_by_one
unfolding projecting
applied_ok = refl

same_events : SameEvents others events
same_events x = (
  λ m. elim (In-uncons m) [
    | inl e ↦ there (here e)
    | inr n ↦ elim (In-uncons n) [ inl e ↦ here e | inr k ↦ there k ]
  ],
  λ m. elim (In-uncons m) [ inl e ↦ there (here e) | inr n ↦ there (there n) ],
)

distinct_events : AreDistinct events
distinct_events a b i j e = elim (In-uncons i) [
  | inl x ↦ elim (In-uncons j) [
    | inl y ↦ cc
    | inr k ↦ elim (In-uncons k) [ inl y ↦ absurd (ground arith) | inr l ↦ absurd (elim l [ ]) ]
  ]
  | inr k ↦ elim (In-uncons k) [
    | inl x ↦ elim (In-uncons j) [
      | inl y ↦ absurd (ground arith)
      | inr l ↦ elim (In-uncons l) [ inl y ↦ cc | inr n ↦ absurd (elim n [ ]) ]
    ]
    | inr l ↦ absurd (elim l [ ])
  ]
]

rebuild-IsLatest_example :
    Holds (members_register limits) (λ x. In x events) rebuilt.projection
    × Holds (tombstones_register limits) (λ x. In x events) rebuilt.projection
    × Holds (deletions_register limits) (λ x. In x events) rebuilt.projection
rebuild-IsLatest_example = rebuild-IsLatest events limits 99 rebuilt rebuild_ok

rebuild_any_order_example :
    (member_of rebuilt.projection farm guest ≡ member_of applied_one_by_one.projection farm guest)
    × (tombstone_of rebuilt.projection farm ≡ tombstone_of applied_one_by_one.projection farm)
    × (event_deletion_of rebuilt.projection guest
        ≡ event_deletion_of applied_one_by_one.projection guest)
rebuild_any_order_example =
    rebuild_any_order events others limits 99 rebuilt applied_one_by_one same_events distinct_events
      rebuild_ok applied_ok farm guest guest
