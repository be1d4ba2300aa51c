-- ===== src/Groups/Projection/Failing.antt =====
-- A rebuild (projection.rs) over an event that cannot be applied.
use tangle.Common.{
  ◌≡◌, ◌≢◌, inl, inr, List, [], ◌∷◌, ok, err, arith, In, In-uncons, >>=-eq-ok, Result-cases,
}
use tangle.Protocol.{UnixTimestamp, Kind}
use tangle.Groups.Errors.{GroupError}
use tangle.Groups.Config.{GroupLimitsConfig}
use tangle.Groups.Ids.{GroupId}
use tangle.Groups.Kinds.{create_group}
use tangle.Groups.Classification.{moderation, classify_group_event}
use tangle.Groups.Metadata.{parse_group_metadata}
use tangle.Groups.Projection.{GroupProjection}
use tangle.Groups.Projection.Apply.{
  ProjectionApplyOutcome, apply_create_group, apply_moderation_event, apply_canonical_event,
}
use tangle.Groups.Projection.Rebuild.{
  CanonicalGroupEvent, ProjectionRebuildReport, empty_report, rebuild_step, rebuild_loop,
  sort_by_tuple, rebuild_group_projection,
}
use tangle.Groups.Projection.AnyOrder.{In-sort_by_tuple}

-- The event creates a group, and its metadata is malformed.
pub record IsMalformedCreation (l : GroupLimitsConfig) (item : CanonicalGroupEvent) : Type 0 where
  pub kind : Kind
  pub group_id : GroupId
  pub reason : GroupError
  pub class : classify_group_event item.event l ≡ ok (moderation kind group_id)
  pub creates : item.event.kind_u32 ≡ create_group
  pub malformed : parse_group_metadata item.event l ≡ err reason

module _ (l : GroupLimitsConfig) (item : CanonicalGroupEvent) (m : IsMalformedCreation l item) where
  creation-ne-ok :
      (p : GroupProjection) (result : GroupProjection × ProjectionApplyOutcome)
      → apply_canonical_event item.event item.store_offset l p ≢ ok result
  unfolding apply_canonical_event apply_moderation_event apply_create_group
  creation-ne-ok p result h = ground (arith, m.class, m.creates, m.malformed)

  loop-ne-ok :
      (items : List CanonicalGroupEvent) (s r : ProjectionRebuildReport)
      → In item items
      → rebuild_loop l s items ≢ ok r
  unfolding rebuild_loop rebuild_step
  loop-ne-ok [] s r i h = elim i [ ]
  loop-ne-ok (first ∷ items) s r i h =
      let (next, step, rest) = >>=-eq-ok (rebuild_step l s first) _ h in
      let (result, applied, counted) =
        >>=-eq-ok (apply_canonical_event first.event first.store_offset l s.projection) _ step in
      elim (In-uncons i) [
        | inl same ↦ creation-ne-ok s.projection result (rw same at applied)
        | inr later ↦ loop-ne-ok items next r later rest
      ]

  -- One stored creation of a group whose metadata is malformed makes the rebuild of all groups fail,
  -- whatever else is stored.
  pub malformed_creation_stops_rebuild :
      (events : List CanonicalGroupEvent) (at : UnixTimestamp)
      → In item events
      → (e : GroupError) × (rebuild_group_projection events l at ≡ err e)
  unfolding rebuild_group_projection
  malformed_creation_stops_rebuild events at i =
      elim (Result-cases (rebuild_loop l empty_report (sort_by_tuple events))) [
        | inr (e, failed) ↦ (e, ground arith)
        | inl (r, looped) ↦ absurd (
            loop-ne-ok (sort_by_tuple events) empty_report r ((In-sort_by_tuple item events).1 i)
              looped)
      ]
