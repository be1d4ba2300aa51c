-- ===== src/Runtime/GroupService/Completes.antt =====
-- What a write that is answered with success has done (groups.rs).
use tangle.Common.{◌≡◌, Bool, Option, List, ◌∷◌, ok, All, nat_ord, list_ord, option_ord, pair_ord}
use tangle.Groups.EventView.{PocketEvent}
use tangle.Groups.Ids.{GroupId}
use tangle.Groups.Classification.{GroupEventClass}
use tangle.Groups.Projection.{StoreOffset, GroupProjection}
use tangle.Groups.Projection.Apply.{ProjectionApplyOutcome, apply_canonical_event}
use tangle.Groups.Outbox.{key_ord, GroupOutboxRecord}
use tangle.Runtime.Store.{Pocket, PocketSyncPolicy, store_event}
use tangle.Runtime.GroupService.{membership_admin_snapshot_state, plan_group_outbox_records}
use tangle.Runtime.GroupService.State.{GroupService, ServiceState}
use tangle.Runtime.GroupService.Planning.{IsSettled}

module _ (pocket : Pocket) (sync_policy : PocketSyncPolicy) (service : GroupService) where
  module _ (event : PocketEvent) (class : GroupEventClass) (group_id : GroupId) where
    -- The source event is applied to the projection, and of the records that are then planned each
    -- is settled.
    abbrev pub IsFollowed :
        StoreOffset → List StoreOffset → ServiceState pocket → ServiceState pocket → Type 0
    IsFollowed offset later s t =
        (projection : GroupProjection) × (outcome : ProjectionApplyOutcome) × (apply_canonical_event
            event offset service.limits s.projection
          ≡ ok (projection, outcome))
        × (before_state : Option Bool) × (membership_admin_snapshot_state s.projection event class
            ≡ ok before_state)
        × (records : List GroupOutboxRecord) × (plan_group_outbox_records service.signer.encodes
              event class projection service.authority service.member_snapshot_cap before_state
            ≡ ok records)
        × All (IsSettled pocket sync_policy service event group_id projection t.outbox later)
            records

    -- The source event is stored at the first offset, with what follows.
    abbrev pub IsComplete : ServiceState pocket → ServiceState pocket → List StoreOffset → Type 0
    IsComplete s t offsets =
        (first : StoreOffset) × (later : List StoreOffset) × (offsets ≡ first ∷ later)
        × ((store_event pocket sync_policy event s.database).0 ≡ ok first)
        × IsFollowed first later s t
