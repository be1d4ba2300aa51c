-- ===== src/Groups/Projection/Frame.antt =====
-- What each event leaves alone in the projection.
use tangle.Common.{◌≡◌, ok, arith}
use tangle.Protocol.{Kind}
use tangle.Groups.Config.{GroupLimitsConfig}
use tangle.Groups.Ids.{GroupId}
use tangle.Groups.EventView.{PocketEvent}
use tangle.Groups.Projection.{
  ProjectionOrderTuple, MemberStatus, GroupProjection, put_group, put_member, put_event_deletion,
}
use tangle.Groups.Projection.Apply.{
  ProjectionApplyOutcome, apply_member_status, apply_create_group, apply_edit_metadata,
  apply_delete_event, apply_delete_group, apply_metadata_snapshot, apply_other_snapshot,
  apply_snapshot_event, mark_group_deleted,
}

-- The four maps that a group event may change, and which of them it keeps.
module _ (g : GroupId) (e : PocketEvent) (t : ProjectionOrderTuple) (l : GroupLimitsConfig)
    (p q : GroupProjection) (o : ProjectionApplyOutcome) where
  pub create_group_frame :
      apply_create_group g e t l p ≡ ok (q, o)
      → (q.members ≡ p.members)
        × (q.tombstones ≡ p.tombstones)
        × (q.event_deletions ≡ p.event_deletions)
  unfolding apply_create_group put_group
  create_group_frame h = ground arith

  pub edit_metadata_frame :
      apply_edit_metadata g e t l p ≡ ok (q, o)
      → (q.members ≡ p.members)
        × (q.tombstones ≡ p.tombstones)
        × (q.event_deletions ≡ p.event_deletions)
  unfolding apply_edit_metadata
  edit_metadata_frame h = ground arith

  pub member_status_frame :
      (s : MemberStatus)
      → apply_member_status g e t s p ≡ ok (q, o)
      → (q.groups ≡ p.groups)
        × (q.tombstones ≡ p.tombstones)
        × (q.event_deletions ≡ p.event_deletions)
  unfolding apply_member_status put_member
  member_status_frame s h = ground arith

  pub delete_event_frame :
      apply_delete_event g e t p ≡ ok (q, o)
      → (q.groups ≡ p.groups) × (q.members ≡ p.members) × (q.tombstones ≡ p.tombstones)
  unfolding apply_delete_event put_event_deletion
  delete_event_frame h = ground arith

  pub delete_group_frame :
      apply_delete_group g e t p ≡ ok (q, o)
      → (q.members ≡ p.members) × (q.event_deletions ≡ p.event_deletions)
  unfolding apply_delete_group mark_group_deleted
  delete_group_frame h = ground arith

  pub snapshot_frame :
      (k : Kind)
      → apply_snapshot_event g k e t l p ≡ ok (q, o)
      → (q.members ≡ p.members)
        × (q.tombstones ≡ p.tombstones)
        × (q.event_deletions ≡ p.event_deletions)
  unfolding apply_snapshot_event apply_metadata_snapshot apply_other_snapshot put_group
  snapshot_frame k h = ground arith
