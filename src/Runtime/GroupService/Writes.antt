-- ===== src/Runtime/GroupService/Writes.antt =====
-- crates/tangle_runtime/src/groups.rs: the writing of an event that a client sent.
use tangle.Common.{
  ◌==◌, Bool, not, Option, none, some, is_none_or, List, [], ◌∷◌, Result, ok, err, ok_or, codes,
  eqb, list_ord, nat_ord, option_ord, if◌then◌else◌,
}
use tangle.Common.Effects.{Effect, ◌>>=◌, ◌>>◌, pure, lift}
use tangle.Protocol.{EventId, new_event_id}
use tangle.Groups.Errors.{GroupError, invalid, internal, malformed_target_tag, missing_target_tag}
use tangle.Groups.Ids.{GroupId}
use tangle.Groups.Kinds.{delete_event}
use tangle.Groups.EventView.{PocketEvent, GroupEventTag, first_value, indexed_pair, visit_tags}
use tangle.Groups.Classification.{
  GroupEventClass, non_group, normal, moderation, relay_generated_snapshot, class_group_id,
  classify_group_event,
}
use tangle.Groups.WriteGate.{GroupAuthContext}
use tangle.Groups.WritePolicy.{GroupWritePolicy, GroupWriteDecision, check_event}
use tangle.Groups.Projection.{StoreOffset}
use tangle.Groups.Outbox.{GroupOutbox, GroupOutboxRecord, merge_idempotent}
use tangle.Runtime.Errors.{BaseRelayError, error, from_group}
use tangle.Runtime.Store.{Pocket, PocketSyncPolicy, event_by_id, store_event}
use tangle.Runtime.GroupService.{membership_admin_snapshot_state, plan_group_outbox_records}
use tangle.Runtime.GroupService.State.{
  GroupService, ServiceState, M, on_store, apply_event, persist_group_projection,
  persist_outbox_record, materialize_outbox_for_group,
}

pub data GroupEventWrite : Type 0 where
  stored_write : List StoreOffset → GroupEventWrite
  duplicate_write : GroupEventWrite

pub data GroupEventWriteError : Type 0 where
  rejected : GroupError → GroupEventWriteError
  storage : BaseRelayError → GroupEventWriteError

-- The last tag of the name counts.
abbrev event_id_visitor : Option EventId → GroupEventTag → Result GroupError (Option EventId)
event_id_visitor found tag =
    if is_none_or (first_value tag) (λ tag_name. not (eqb tag_name (codes "e")))
    then ok found
    else elim (indexed_pair tag) [
      | none ↦ err (invalid malformed_target_tag)
      | some (_, value) ↦ elim (new_event_id value) [
        | err e ↦ err (invalid malformed_target_tag)
        | ok id ↦ ok (some id)
      ]
    ]

abbrev required_target : Result GroupError (Option EventId) → Result GroupError EventId
required_target (err e) = err e
required_target (ok found) = ok_or found (invalid missing_target_tag)

unfoldable pub delete_target_event_id : PocketEvent → Result GroupError EventId
delete_target_event_id event = required_target (visit_tags event none event_id_visitor)

abbrev then_check :
    Result GroupError GroupWriteDecision
    → Result GroupError (Unit {0})
    → Result GroupError (Unit {0})
then_check (err e) later = err e
then_check (ok decision) later = later

-- `None` for the loop is that its fuel ran out.
abbrev pub offsets_or_none : Option (List StoreOffset) → List StoreOffset
offsets_or_none none = []
offsets_or_none (some offsets) = offsets

module _ (pocket : Pocket) (sync_policy : PocketSyncPolicy) (service : GroupService) where
  open service use {signer, authority, policy, limits, member_snapshot_cap}

  abbrev target_in_group :
      GroupId → Result GroupError GroupEventClass → Result GroupError (Unit {0})
  target_in_group group_id (err e) = err e
  target_in_group group_id (ok class) =
      if eqb (class_group_id class) (some group_id)
      then ok tt
      else err (invalid malformed_target_tag)

  abbrev check_target :
      GroupId → Result BaseRelayError (Option PocketEvent) → Result GroupError (Unit {0})
  check_target group_id (err e) = err internal
  check_target group_id (ok none) = err (invalid malformed_target_tag)
  check_target group_id (ok (some target)) =
      target_in_group group_id (classify_group_event target limits)

  unfoldable pub check_delete_event_target :
      PocketEvent → GroupId → ServiceState pocket → Result GroupError (Unit {0})
  check_delete_event_target event group_id s = elim (delete_target_event_id event) [
    | err e ↦ err e
    | ok target ↦ check_target group_id (event_by_id pocket target s.database).0
  ]

  unfoldable pub check_runtime_write_constraints :
      PocketEvent → GroupEventClass → ServiceState pocket → Result GroupError (Unit {0})
  unfolding check_delete_event_target
  check_runtime_write_constraints event (moderation kind group_id) s =
      if kind == delete_event then check_delete_event_target event group_id s else ok tt
  check_runtime_write_constraints event non_group s = ok tt
  check_runtime_write_constraints event (normal group_id) s = ok tt
  check_runtime_write_constraints event (relay_generated_snapshot kind group_id) s = ok tt

  abbrev pub write_policy : ServiceState pocket → GroupWritePolicy
  write_policy s = record { projection = s.projection; authority = authority; policy = policy }

  -- `check_event` of the service.
  unfoldable pub check_write :
      PocketEvent
      → GroupEventClass
      → GroupAuthContext
      → ServiceState pocket
      → Result GroupError (Unit {0})
  unfolding check_runtime_write_constraints
  check_write event class auth s =
      then_check (check_event (write_policy s) event class auth)
        (check_runtime_write_constraints event class s)

  abbrev merged :
      ServiceState pocket
      → Result GroupError (GroupOutbox × Bool)
      → Result BaseRelayError Bool × ServiceState pocket
  merged s (err e) = (err error, s)
  merged s (ok (outbox, inserted)) = (ok inserted, record s { outbox = outbox })

  unfoldable pub merge_record : GroupOutboxRecord → M pocket Bool
  merge_record r s = merged s (merge_idempotent r s.outbox)

  unfoldable pub merge_records : List GroupOutboxRecord → M pocket (Unit {0})
  unfolding merge_record
  merge_records [] = pure tt
  merge_records (r ∷ records) = do
    inserted ← merge_record r
    if inserted then on_store pocket (persist_outbox_record pocket sync_policy r) else pure tt
    merge_records records

  abbrev pub persist_group : Option GroupId → M pocket (Unit {0})
  persist_group none s = (ok tt, s)
  persist_group (some group_id) s =
      on_store pocket (persist_group_projection pocket sync_policy s.projection group_id) s

  abbrev pub materialize_group : Option GroupId → M pocket (List StoreOffset)
  materialize_group none = pure []
  materialize_group (some group_id) = do
    offsets ← materialize_outbox_for_group pocket sync_policy service group_id
    pure (offsets_or_none offsets)

  unfoldable pub after_source_event_stored :
      PocketEvent → GroupEventClass → StoreOffset → M pocket (List StoreOffset)
  unfolding merge_records
  after_source_event_stored event class store_offset = do
    before_state ←
        λ s. lift (from_group (membership_admin_snapshot_state s.projection event class)) s
    apply_event pocket limits event store_offset
    persist_group (class_group_id class)
    records ← λ s.
        lift
          (from_group (
            plan_group_outbox_records signer.encodes event class s.projection authority
              member_snapshot_cap before_state))
          s
    merge_records records
    materialize_group (class_group_id class)

  unfoldable pub write_new_event : PocketEvent → GroupEventClass → M pocket GroupEventWrite
  unfolding after_source_event_stored
  write_new_event event class = do
    offset ← on_store pocket (store_event pocket sync_policy event)
    later ← after_source_event_stored event class offset
    pure (stored_write (offset ∷ later))

  abbrev pub storage_error :
      Result BaseRelayError GroupEventWrite × ServiceState pocket
      → Result GroupEventWriteError GroupEventWrite × ServiceState pocket
  storage_error (ok write, s) = (ok write, s)
  storage_error (err e, s) = (err (storage e), s)

  abbrev pub write_unless_stored :
      PocketEvent
      → GroupEventClass
      → Result BaseRelayError (Option PocketEvent)
      → Effect (ServiceState pocket) GroupEventWriteError GroupEventWrite
  write_unless_stored event class (err e) s = (err (storage e), s)
  write_unless_stored event class (ok (some stored)) s = (ok duplicate_write, s)
  write_unless_stored event class (ok none) s = storage_error (write_new_event event class s)

  unfoldable pub store_group_pocket_event :
      PocketEvent
      → GroupEventClass
      → GroupAuthContext
      → Effect (ServiceState pocket) GroupEventWriteError GroupEventWrite
  unfolding check_write write_new_event
  store_group_pocket_event event class auth s = elim (check_write event class auth s) [
    | err e ↦ (err (rejected e), s)
    | ok done ↦ write_unless_stored event class (event_by_id pocket event.id_hex s.database).0 s
  ]
