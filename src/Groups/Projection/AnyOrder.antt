-- ===== src/Groups/Projection/AnyOrder.antt =====
-- A rebuild against events that were applied in another order.
use tangle.Common.{
  ◌≡◌, refl, ap, sym, ◌∙◌, ◌⊎◌, inl, inr, ◌↔◌, some, ok, List, [], ◌∷◌, In, here, there, In-uncons,
  arith, get, Ord, pair_ord, list_ord, nat_ord, geb, Bool-cases, >>=-eq-ok,
}
use tangle.Protocol.{UnixTimestamp, EventId, PublicKeyHex}
use tangle.Groups.Config.{GroupLimitsConfig}
use tangle.Groups.Ids.{GroupId}
use tangle.Groups.Projection.{
  tuple_ord, GroupProjection, new_projection, MemberState, GroupTombstone, GroupEventDeletion,
  member_of, tombstone_of, event_deletion_of, current_checkpoint,
}
use tangle.Groups.Projection.Rebuild.{
  CanonicalGroupEvent, canonical_tuple, ProjectionRebuildReport, empty_report, rebuild_loop,
  sort_insert, sort_by_tuple, rebuild_group_projection,
}
use tangle.Groups.Projection.Registers.{HoldsLatest-of_iff, HoldsLatest-unique}
use tangle.Groups.Projection.Effects.{members_effect, deletions_effect, tombstones_effect}
use tangle.Groups.Projection.Stamps.{member_stamp, deletion_stamp, tombstone_stamp}
use tangle.Groups.Projection.Updates.{MemberKey, member_update, deletion_update, tombstone_update}
use tangle.Groups.Projection.Convergence.{Register, WroteBy, Holds, loop-Holds}

abbrev pub members_register : (l : GroupLimitsConfig) → Register l MemberKey MemberState
members_register l = record {
  field = λ p. p.members;
  stamp = λ m. m.last_tuple;
  update = member_update l;
  starts_empty = refl;
  unmarked = λ p c at. refl;
  effect = members_effect l;
  stamped = member_stamp l;
}

abbrev pub deletions_register : (l : GroupLimitsConfig) → Register l EventId GroupEventDeletion
deletions_register l = record {
  field = λ p. p.event_deletions;
  stamp = λ m. m.last_tuple;
  update = deletion_update l;
  starts_empty = refl;
  unmarked = λ p c at. refl;
  effect = deletions_effect l;
  stamped = deletion_stamp l;
}

abbrev pub tombstones_register : (l : GroupLimitsConfig) → Register l GroupId GroupTombstone
tombstones_register l = record {
  field = λ p. p.tombstones;
  stamp = λ m. m.last_tuple;
  update = tombstone_update l;
  starts_empty = refl;
  unmarked = λ p c at. refl;
  effect = tombstones_effect l;
  stamped = tombstone_stamp l;
}

-- Sorting keeps the events.
In-sort_insert :
    (a x : CanonicalGroupEvent) (xs : List CanonicalGroupEvent)
    → In a (sort_insert x xs) ↔ In a (x ∷ xs)
unfolding sort_insert
In-sort_insert a x [] = (λ m. m, λ m. m)
In-sort_insert a x (y ∷ ys) =
    let (into, from) = In-sort_insert a x ys in
    elim (Bool-cases (geb (canonical_tuple y) (canonical_tuple x))) [
      | inl e ↦ rw e (λ m. m, λ m. m)
      | inr e ↦ rw e (
        λ m. elim (In-uncons m) [
          | inl same ↦ there (here same)
          | inr rest ↦ elim (In-uncons (into rest)) [
            | inl same ↦ here same
            | inr old ↦ there (there old)
          ]
        ],
        λ m. elim (In-uncons m) [
          | inl same ↦ there (from (here same))
          | inr rest ↦ elim (In-uncons rest) [
            | inl same ↦ here same
            | inr old ↦ there (from (there old))
          ]
        ],
      )
    ]

pub In-sort_by_tuple :
    (a : CanonicalGroupEvent) (xs : List CanonicalGroupEvent) → In a (sort_by_tuple xs) ↔ In a xs
unfolding sort_by_tuple
In-sort_by_tuple a [] = (λ m. m, λ m. m)
In-sort_by_tuple a (x ∷ xs) =
    let (into, from) = In-sort_by_tuple a xs in
    let (split, join) = In-sort_insert a x (sort_by_tuple xs) in
    (
      λ m. elim (In-uncons (split m)) [ inl same ↦ here same | inr old ↦ there (into old) ],
      λ m. elim (In-uncons m) [ inl same ↦ join (here same) | inr old ↦ join (there (from old)) ],
    )

-- Different events have different tuples: their offsets in the store differ.
abbrev pub AreDistinct : List CanonicalGroupEvent → Type 0
AreDistinct events =
    (a b : CanonicalGroupEvent)
    → In a events
    → In b events
    → canonical_tuple a ≡ canonical_tuple b
    → a ≡ b

abbrev pub SameEvents : List CanonicalGroupEvent → List CanonicalGroupEvent → Type 0
SameEvents xs ys = (x : CanonicalGroupEvent) → In x xs ↔ In x ys

module _ {K V : Type 0} ⦃o : Ord K⦄ {l : GroupLimitsConfig} (r : Register l K V) where
  empty-Holds : Holds r (λ _. ⊥) new_projection
  unfolding get
  empty-Holds =
      rw r.starts_empty (record { held = λ k v e. cc; missing = λ k v e (x, seen, w). seen })

  same-Holds :
      (P Q : CanonicalGroupEvent → Type 0) (p : GroupProjection)
      → ((x : CanonicalGroupEvent) → P x ↔ Q x)
      → Holds r P p
      → Holds r Q p
  same-Holds P Q p same h =
      HoldsLatest-of_iff r.stamp (WroteBy r.update P) (WroteBy r.update Q) (r.field p)
        (λ k v. (λ (x, seen, w). (x, (same x).0 seen, w), λ (x, seen, w). (x, (same x).1 seen, w)))
        h

  applied-Holds :
      (events : List CanonicalGroupEvent) (s : ProjectionRebuildReport)
      → rebuild_loop l empty_report events ≡ ok s
      → Holds r (λ x. In x events) s.projection
  applied-Holds events s e =
      same-Holds (λ x. In x events ⊎ ⊥) (λ x. In x events) s.projection
        (λ x. (λ m. elim m [ inl old ↦ old | inr never ↦ absurd never ], inl))
        (loop-Holds r (λ _. ⊥) events empty_report s e empty-Holds)

  rebuild-Holds :
      (events : List CanonicalGroupEvent) (at : UnixTimestamp) (s : ProjectionRebuildReport)
      → rebuild_group_projection events l at ≡ ok s
      → Holds r (λ x. In x events) s.projection
  unfolding rebuild_group_projection
  rebuild-Holds events at s e =
      let (t, looped, marked) =
        >>=-eq-ok (rebuild_loop l empty_report (sort_by_tuple events)) _ e in
      let same : s.projection
          ≡ record (t.projection) { checkpoint = some (current_checkpoint t.last_offset at) } =
        ground arith in
      same-Holds (λ x. In x (sort_by_tuple events)) (λ x. In x events) s.projection
        (λ x. In-sort_by_tuple x events)
        (rw same (
          rw (r.unmarked t.projection t.last_offset at)
            (applied-Holds (sort_by_tuple events) t looped)))

  lookup_any_order :
      (events others : List CanonicalGroupEvent) (p q : GroupProjection)
      → SameEvents others events
      → AreDistinct events
      → Holds r (λ x. In x events) p
      → Holds r (λ x. In x others) q
      → (k : K) → get k (r.field p) ≡ get k (r.field q)
  lookup_any_order events others p q same distinct a b =
      HoldsLatest-unique r.stamp (WroteBy r.update (λ x. In x events)) (r.field p) (r.field q)
        (λ k v w (x, in_x, wrote_x) (y, in_y, wrote_y) e.
          let one : x ≡ y =
            distinct x y in_x in_y
              (sym (r.stamped x k v wrote_x) ∙ (e ∙ r.stamped y k w wrote_y)) in
          cc (ap r.update one))
        a (same-Holds (λ x. In x others) (λ x. In x events) q same b)

-- A rebuild leaves, for every key of the members, the tombstones and the deletions, the entry of the
-- newest stored event that wrote the key, and no entry where no event wrote one.
pub rebuild-IsLatest :
    (events : List CanonicalGroupEvent) (l : GroupLimitsConfig) (at : UnixTimestamp)
    (r : ProjectionRebuildReport)
    → rebuild_group_projection events l at ≡ ok r
    → Holds (members_register l) (λ x. In x events) r.projection
      × Holds (tombstones_register l) (λ x. In x events) r.projection
      × Holds (deletions_register l) (λ x. In x events) r.projection
rebuild-IsLatest events l at r e = (
  rebuild-Holds (members_register l) events at r e,
  rebuild-Holds (tombstones_register l) events at r e,
  rebuild-Holds (deletions_register l) events at r e,
)

-- Events applied one at a time, in any order and also more than once, leave the members, the
-- tombstones and the deletions that a rebuild of the same events leaves, where different events have
-- different tuples and both runs succeed.
pub rebuild_any_order :
    (events others : List CanonicalGroupEvent) (l : GroupLimitsConfig) (at : UnixTimestamp)
    (r s : ProjectionRebuildReport)
    → SameEvents others events
    → AreDistinct events
    → rebuild_group_projection events l at ≡ ok r
    → rebuild_loop l empty_report others ≡ ok s
    → (g : GroupId) (pubkey : PublicKeyHex) (id : EventId)
    → (member_of r.projection g pubkey ≡ member_of s.projection g pubkey)
      × (tombstone_of r.projection g ≡ tombstone_of s.projection g)
      × (event_deletion_of r.projection id ≡ event_deletion_of s.projection id)
rebuild_any_order events others l at r s same distinct e f g pubkey id = (
  agree (members_register l) (g, pubkey),
  agree (tombstones_register l) g,
  agree (deletions_register l) id,
)
  where
    agree :
        {K V : Type 0} ⦃o : Ord K⦄ (m : Register l K V) (k : K)
        → get k (m.field r.projection) ≡ get k (m.field s.projection)
    agree m =
        lookup_any_order m events others r.projection s.projection same distinct
          (rebuild-Holds m events at r e) (applied-Holds m others s f)
