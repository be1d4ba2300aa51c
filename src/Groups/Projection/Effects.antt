-- ===== src/Groups/Projection/Effects.antt =====
-- The application of an event (projection.rs) against its updates.
use tangle.Common.{
  ◌≡◌, ◌⊎◌, inl, inr, none, some, ok, arith, pair_ord, list_ord, nat_ord, Result-cases,
}
use tangle.Protocol.{EventId}
use tangle.Groups.Config.{GroupLimitsConfig}
use tangle.Groups.Ids.{GroupId}
use tangle.Groups.EventView.{PocketEvent, event_id}
use tangle.Groups.Classification.{
  GroupEventClass, non_group, normal, moderation, relay_generated_snapshot, classify_group_event,
}
use tangle.Groups.Projection.{
  ProjectionOrderTuple, MemberState, MemberStatus, member, removed, GroupTombstone,
  GroupEventDeletion, GroupProjection, put_member, put_event_deletion,
}
use tangle.Groups.Projection.Apply.{
  ProjectionApplyOutcome, apply_member_status, apply_delete_event, apply_delete_group,
  apply_moderation_event, apply_canonical_event, mark_group_deleted,
}
use tangle.Groups.Projection.Rebuild.{CanonicalGroupEvent}
use tangle.Groups.Projection.Registers.{put_latest, put_update}
use tangle.Groups.Projection.Frame.{
  create_group_frame, edit_metadata_frame, member_status_frame, delete_event_frame,
  delete_group_frame, snapshot_frame,
}
use tangle.Groups.Projection.Updates.{
  to_option, tuple_at, member_entry, deletion_entry, tombstone_entry, moderation_tuple,
  member_written, deletion_written, tombstone_written, member_update, deletion_update,
  tombstone_update,
}

-- The branches write just these entries.
module _ (g : GroupId) (e : PocketEvent) (t : ProjectionOrderTuple) (p q : GroupProjection)
    (o : ProjectionApplyOutcome) where
  member_effect :
      (s : MemberStatus)
      → apply_member_status g e t s p ≡ ok (q, o)
      → q.members
        ≡ put_update
            (λ (m : MemberState). m.last_tuple)
            (to_option (member_entry g e t s))
            p.members
  unfolding apply_member_status put_member member_entry put_latest
  member_effect s h = ground arith

  deletion_effect :
      apply_delete_event g e t p ≡ ok (q, o)
      → q.event_deletions
        ≡ put_update
            (λ (d : GroupEventDeletion). d.last_tuple)
            (to_option (deletion_entry g e t))
            p.event_deletions
  unfolding apply_delete_event put_event_deletion deletion_entry put_latest
  deletion_effect h = ground arith

  tombstone_effect :
      apply_delete_group g e t p ≡ ok (q, o)
      → q.tombstones
        ≡ put_update
            (λ (d : GroupTombstone). d.last_tuple)
            (to_option (tombstone_entry g e t))
            p.tombstones
  unfolding apply_delete_group mark_group_deleted tombstone_entry put_latest
  tombstone_effect h = ground arith

module _ (l : GroupLimitsConfig) (g : GroupId) (e : PocketEvent) (t : ProjectionOrderTuple)
    (p q : GroupProjection) (o : ProjectionApplyOutcome) where
  members_of_moderation :
      apply_moderation_event g e t l p ≡ ok (q, o)
      → q.members ≡ put_update (λ (m : MemberState). m.last_tuple) (member_written g e t) p.members
  unfolding apply_moderation_event member_written
  members_of_moderation h = ground (
    arith,
    create_group_frame g e t l p q o,
    edit_metadata_frame g e t l p q o,
    delete_event_frame g e t l p q o,
    delete_group_frame g e t l p q o,
    member_effect g e t p q o member,
    member_effect g e t p q o removed,
  )

  deletions_of_moderation :
      apply_moderation_event g e t l p ≡ ok (q, o)
      → q.event_deletions
        ≡ put_update
            (λ (m : GroupEventDeletion). m.last_tuple)
            (deletion_written g e t)
            p.event_deletions
  unfolding apply_moderation_event deletion_written
  deletions_of_moderation h = ground (
    arith,
    create_group_frame g e t l p q o,
    edit_metadata_frame g e t l p q o,
    member_status_frame g e t l p q o member,
    member_status_frame g e t l p q o removed,
    delete_group_frame g e t l p q o,
    deletion_effect g e t p q o,
  )

  tombstones_of_moderation :
      apply_moderation_event g e t l p ≡ ok (q, o)
      → q.tombstones
        ≡ put_update (λ (m : GroupTombstone). m.last_tuple) (tombstone_written g e t) p.tombstones
  unfolding apply_moderation_event tombstone_written
  tombstones_of_moderation h = ground (
    arith,
    create_group_frame g e t l p q o,
    edit_metadata_frame g e t l p q o,
    member_status_frame g e t l p q o member,
    member_status_frame g e t l p q o removed,
    delete_event_frame g e t l p q o,
    tombstone_effect g e t p q o,
  )

-- An event is a moderation event with its tuple, or it keeps the three maps.
abbrev Keeps : GroupProjection → GroupProjection → Type 0
Keeps p q =
    (q.members ≡ p.members)
    × (q.tombstones ≡ p.tombstones)
    × (q.event_deletions ≡ p.event_deletions)

module _ (l : GroupLimitsConfig) (item : CanonicalGroupEvent) (p q : GroupProjection)
    (o : ProjectionApplyOutcome) where
  of_class :
      (class : GroupEventClass) (id : EventId)
      → classify_group_event item.event l ≡ ok class
      → event_id item.event ≡ ok id
      → apply_canonical_event item.event item.store_offset l p ≡ ok (q, o)
      → ((g : GroupId) × (t : ProjectionOrderTuple) × (moderation_tuple l item ≡ some (g, t))
          × (apply_moderation_event g item.event t l p ≡ ok (q, o)))
        ⊎ ((moderation_tuple l item ≡ none) × Keeps p q)
  unfolding apply_canonical_event moderation_tuple
  of_class non_group id c i h = inr (ground arith, ground arith)
  of_class (normal g) id c i h = inr (ground arith, ground arith)
  of_class (moderation k g) id c i h =
      inl (g, tuple_at item.event id item.store_offset, ground arith, ground arith)
  of_class (relay_generated_snapshot k g) id c i h = inr (
    ground arith,
    snapshot_frame g item.event (tuple_at item.event id item.store_offset) l p q o k (ground arith),
  )

  module _ (h : apply_canonical_event item.event item.store_offset l p ≡ ok (q, o)) where
    event_cases :
        ((g : GroupId) × (t : ProjectionOrderTuple) × (moderation_tuple l item ≡ some (g, t))
          × (apply_moderation_event g item.event t l p ≡ ok (q, o)))
        ⊎ ((moderation_tuple l item ≡ none) × Keeps p q)
    unfolding apply_canonical_event
    event_cases = elim (Result-cases (classify_group_event item.event l)) [
      | inr (x, c) ↦ absurd (ground arith)
      | inl (class, c) ↦ elim (Result-cases (event_id item.event)) [
        | inr (x, i) ↦ absurd (ground arith)
        | inl (id, i) ↦ of_class class id c i h
      ]
    ]

    pub members_effect :
        q.members ≡ put_update (λ (m : MemberState). m.last_tuple) (member_update l item) p.members
    unfolding member_update
    members_effect = elim event_cases [
      | inl (g, t, c, m) ↦ rw (c, put_update) (members_of_moderation l g item.event t p q o m)
      | inr (c, keeps) ↦ rw (c, put_update) keeps.0
    ]

    pub deletions_effect :
        q.event_deletions
        ≡ put_update
            (λ (m : GroupEventDeletion). m.last_tuple)
            (deletion_update l item)
            p.event_deletions
    unfolding deletion_update
    deletions_effect = elim event_cases [
      | inl (g, t, c, m) ↦ rw (c, put_update) (deletions_of_moderation l g item.event t p q o m)
      | inr (c, keeps) ↦ rw (c, put_update) keeps.2
    ]

    pub tombstones_effect :
        q.tombstones
        ≡ put_update (λ (m : GroupTombstone). m.last_tuple) (tombstone_update l item) p.tombstones
    unfolding tombstone_update
    tombstones_effect = elim event_cases [
      | inl (g, t, c, m) ↦ rw (c, put_update) (tombstones_of_moderation l g item.event t p q o m)
      | inr (c, keeps) ↦ rw (c, put_update) keeps.1
    ]
