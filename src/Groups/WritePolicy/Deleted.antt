-- ===== src/Groups/WritePolicy/Deleted.antt =====
-- Writing to a group that has a tombstone (policy.rs).
use tangle.Common.{ℕ, ◌≡◌, ◌≢◌, some, ok, List, arith}
use tangle.Groups.Config.{GroupLimitsConfig, GroupPolicyConfig}
use tangle.Groups.Ids.{GroupId}
use tangle.Groups.EventView.{PocketEvent}
use tangle.Groups.Classification.{
  GroupEventClass, non_group, normal, moderation, relay_generated_snapshot, class_group_id,
}
use tangle.Groups.Projection.{GroupTombstone, tombstone_of}
use tangle.Groups.Projection.Rebuild.{CanonicalGroupEvent, ProjectionRebuildReport, rebuild_loop}
use tangle.Groups.Projection.Deletion.{loop-Buries}
use tangle.Groups.WriteGate.{GroupAuthContext}
use tangle.Groups.Authority.{GroupAuthority}
use tangle.Groups.WritePolicy.{
  GroupWritePolicy, accept, require_active_group, check_create_group, check_normal_event,
  check_moderation_event, check_event,
}

module _ (w : GroupWritePolicy) (g : GroupId) (t : GroupTombstone)
    (buried : tombstone_of w.projection g ≡ some t) (event : PocketEvent) where
  normal-ne-accept : check_normal_event w event g ≢ ok accept
  unfolding check_normal_event require_active_group
  normal-ne-accept h = ground arith

  moderation-ne-accept : (kind : ℕ) → check_moderation_event w event kind g ≢ ok accept
  unfolding check_moderation_event check_create_group require_active_group
  moderation-ne-accept kind h = ground arith

  pub buried-ne-accept :
      (class : GroupEventClass) (auth : GroupAuthContext)
      → class_group_id class ≡ some g
      → check_event w event class auth ≢ ok accept
  unfolding check_event class_group_id
  buried-ne-accept non_group auth c h = cc
  buried-ne-accept (normal g') auth c h = ground (arith, normal-ne-accept)
  buried-ne-accept (moderation kind g') auth c h = ground (arith, moderation-ne-accept kind)
  buried-ne-accept (relay_generated_snapshot kind g') auth c h = ground arith

-- Once a projection holds a tombstone of a group, no event of the group is accepted after any further
-- events, whoever sends it: neither content, nor a moderation event, nor a second creation.
pub deleted_is_final :
    (l : GroupLimitsConfig) (items : List CanonicalGroupEvent) (from to : ProjectionRebuildReport)
    (g : GroupId) (t : GroupTombstone)
    → tombstone_of from.projection g ≡ some t
    → rebuild_loop l from items ≡ ok to
    → (authority : GroupAuthority) (policy : GroupPolicyConfig) (event : PocketEvent)
      (class : GroupEventClass) (auth : GroupAuthContext)
    → class_group_id class ≡ some g
    → check_event
        (record { projection = to.projection; authority = authority; policy = policy })
        event
        class
        auth
      ≢ ok accept
deleted_is_final l items from to g t buried e authority policy event class auth c =
    let (u, found, newer) = loop-Buries l items from to e g t buried in
    buried-ne-accept (record { projection = to.projection; authority = authority; policy = policy })
      g u found event class auth c
