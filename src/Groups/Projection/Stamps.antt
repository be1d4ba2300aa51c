-- ===== src/Groups/Projection/Stamps.antt =====
-- The tuples that the entries of the projection carry.
use tangle.Common.{
  ◌≡◌, inl, inr, Option, some, arith, pair_ord, list_ord, nat_ord, ◌∙◌, Option-cases,
}
use tangle.Protocol.{EventId, new_event_id, require_lowercase_hex}
use tangle.Groups.Config.{GroupLimitsConfig}
use tangle.Groups.Ids.{GroupId}
use tangle.Groups.EventView.{PocketEvent, event_id}
use tangle.Groups.Projection.{ProjectionOrderTuple, MemberState, GroupTombstone, GroupEventDeletion}
use tangle.Groups.Projection.Rebuild.{CanonicalGroupEvent, canonical_tuple}
use tangle.Groups.Projection.Updates.{
  MemberKey, member_entry, deletion_entry, tombstone_entry, moderation_tuple, member_written,
  deletion_written, tombstone_written, if_moderation, member_update, deletion_update,
  tombstone_update,
}

-- The stamp of an entry is the tuple of its event.
module _ (l : GroupLimitsConfig) (item : CanonicalGroupEvent) where
  tuple_stamp :
      (g : GroupId) (t : ProjectionOrderTuple)
      → moderation_tuple l item ≡ some (g, t)
      → t ≡ canonical_tuple item
  unfolding moderation_tuple event_id new_event_id require_lowercase_hex
  tuple_stamp g t h = ground arith

  written_stamp :
      {A : Type 0} (stamp : A → ProjectionOrderTuple)
      (f : GroupId → PocketEvent → ProjectionOrderTuple → Option A) (a : A)
      → ((g : GroupId) (t : ProjectionOrderTuple) → f g item.event t ≡ some a → stamp a ≡ t)
      → if_moderation f item.event (moderation_tuple l item) ≡ some a
      → stamp a ≡ canonical_tuple item
  written_stamp stamp f a keeps h = elim (Option-cases (moderation_tuple l item)) [
    | inl e ↦ cc (rw (e, if_moderation) at h)
    | inr ((g, t), e) ↦ keeps g t (rw (e, if_moderation) at h) ∙ tuple_stamp g t e
  ]

  pub member_stamp :
      (k : MemberKey) (m : MemberState)
      → member_update l item ≡ some (k, m)
      → m.last_tuple ≡ canonical_tuple item
  unfolding member_update member_written member_entry
  member_stamp k m =
      written_stamp (λ (a : MemberKey × MemberState). a.1.last_tuple) member_written (k, m)
        λ g t h. ground arith

  pub deletion_stamp :
      (k : EventId) (m : GroupEventDeletion)
      → deletion_update l item ≡ some (k, m)
      → m.last_tuple ≡ canonical_tuple item
  unfolding deletion_update deletion_written deletion_entry
  deletion_stamp k m =
      written_stamp (λ (a : EventId × GroupEventDeletion). a.1.last_tuple) deletion_written (k, m)
        λ g t h. ground arith

  pub tombstone_stamp :
      (k : GroupId) (m : GroupTombstone)
      → tombstone_update l item ≡ some (k, m)
      → m.last_tuple ≡ canonical_tuple item
  unfolding tombstone_update tombstone_written tombstone_entry
  tombstone_stamp k m =
      written_stamp (λ (a : GroupId × GroupTombstone). a.1.last_tuple) tombstone_written (k, m)
        λ g t h. ground arith
