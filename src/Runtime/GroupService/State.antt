-- ===== src/Runtime/GroupService/State.antt =====
-- crates/tangle_runtime/src/groups.rs: the outbox and the projection in memory with the store below
-- them, and the events that the relay generates.
use tangle.Common.{
  ℕ, zero, suc, ◌+◌, Bool, true, false, Option, none, some, is_some, List, [], ◌∷◌, ◌++◌, Result,
  ok, err, Text, codes, eqb, any, take, length, list_ord, nat_ord, if◌then◌else◌,
}
use tangle.Common.Effects.{Effect, ◌>>=◌, ◌>>◌, pure, fail, lift}
use tangle.Protocol.{EventId, new_event_id}
use tangle.Groups.Errors.{map_err}
use tangle.Groups.Config.{GroupLimitsConfig, GroupPolicyConfig}
use tangle.Groups.Ids.{GroupId}
use tangle.Groups.EventView.{PocketEvent}
use tangle.Groups.Authority.{GroupAuthority}
use tangle.Groups.Projection.{
  StoreOffset, GroupProjection, GroupState, GroupTombstone, group_of, tombstone_of,
}
use tangle.Groups.Projection.Apply.{Applied, apply_canonical_event}
use tangle.Groups.Outbox.{
  GroupOutboxEffect, metadata_snapshot, admin_list_snapshot, member_list_snapshot,
  role_list_snapshot, state_39004_snapshot, join_accepted, leave_accepted, GroupOutboxRecord,
  GroupOutbox, update, mark_stored, mark_skipped, mark_failed, replay_plan, replay_plan_for_group,
}
use tangle.Groups.Signing.{RelaySigner, sign_payload_pocket}
use tangle.Groups.StorageKeys.{
  group_current_key, member_current_key, role_current_key, tombstone_key, event_deletion_key,
  storage_key,
}
use tangle.Runtime.Errors.{BaseRelayError, error, prefix_str, from_group}
use tangle.Runtime.Store.{
  Pocket, PocketSyncPolicy, PocketStoredEvent, Op, group_projection, group_outbox, ExtraValue,
  group_value, member_value, role_value, tombstone_value, deletion_value, outbox_value, store_event,
  event_by_id, scan_events, put_extra_record,
}

pub record GroupService : Type 0 where
  pub signer : RelaySigner
  pub authority : GroupAuthority
  pub policy : GroupPolicyConfig
  pub limits : GroupLimitsConfig
  pub member_snapshot_cap : ℕ
  pub outbox_replay_batch_cap : ℕ

-- The fields that change, and the store.
pub record ServiceState (pocket : Pocket) : Type 0 where
  pub projection : GroupProjection
  pub outbox : GroupOutbox
  pub database : pocket.Database

module _ (pocket : Pocket) where
  abbrev pub M : Type 0 → Type 0
  M A = Effect (ServiceState pocket) BaseRelayError A

  abbrev with_database :
      {A : Type 0}
      → ServiceState pocket
      → Result BaseRelayError A × pocket.Database
      → Result BaseRelayError A × ServiceState pocket
  with_database s (result, database) = (result, record s { database = database })

  abbrev pub on_store : {A : Type 0} → Op pocket A → M A
  on_store op s = with_database s (op s.database)

  abbrev applied_to :
      ServiceState pocket → Applied → Result BaseRelayError (Unit {0}) × ServiceState pocket
  applied_to s (err e) = (err error, s)
  applied_to s (ok (projection, outcome)) = (ok tt, record s { projection = projection })

  unfoldable pub apply_event : GroupLimitsConfig → PocketEvent → StoreOffset → M (Unit {0})
  apply_event limits event offset s =
      applied_to s (apply_canonical_event event offset limits s.projection)

  abbrev has_id : Text → List PocketStoredEvent → Bool
  has_id id events = any (λ (stored : PocketStoredEvent). eqb stored.event.id_hex id) events

  unfoldable pub generated_event_already_stored : Text → Op pocket Bool
  generated_event_already_stored id = do
    found ← event_by_id pocket id
    if is_some found then pure true else (do events ← scan_events pocket; pure (has_id id events))

abbrev pub is_unsupported : GroupOutboxEffect → Bool
is_unsupported metadata_snapshot = false
is_unsupported admin_list_snapshot = false
is_unsupported member_list_snapshot = false
is_unsupported role_list_snapshot = true
is_unsupported state_39004_snapshot = true
is_unsupported join_accepted = false
is_unsupported leave_accepted = false

abbrev pub push_offset : Option StoreOffset → List StoreOffset → List StoreOffset
push_offset none offsets = offsets
push_offset (some offset) offsets = offset ∷ offsets

abbrev pub append_offsets : List StoreOffset → Option (List StoreOffset) → Option (List StoreOffset)
append_offsets offsets none = none
append_offsets offsets (some rest) = some (offsets ++ rest)

module _ (pocket : Pocket) (sync_policy : PocketSyncPolicy) where
  -- A `put` for each entry of a map that passes the test.
  unfoldable pub put_entries {ℓ} :
      {E : Type ℓ} → (E → Bool) → (E → Text) → (E → ExtraValue) → List E → Op pocket (Unit {0})
  put_entries chosen key value [] = pure tt
  put_entries chosen key value (entry ∷ entries) = do
    if chosen entry
        then put_extra_record pocket sync_policy group_projection (key entry) (value entry)
        else pure tt
    put_entries chosen key value entries

  abbrev put_optional : Option (Text × ExtraValue) → Op pocket (Unit {0})
  put_optional none = pure tt
  put_optional (some (key, value)) = put_extra_record pocket sync_policy group_projection key value

  abbrev group_entry : GroupId → Option GroupState → Option (Text × ExtraValue)
  group_entry group_id none = none
  group_entry group_id (some group) = some (group_current_key group_id, group_value group)

  abbrev tombstone_entry : GroupId → Option GroupTombstone → Option (Text × ExtraValue)
  tombstone_entry group_id none = none
  tombstone_entry group_id (some tombstone) =
      some (tombstone_key group_id, tombstone_value tombstone)

  unfoldable pub persist_group_projection : GroupProjection → GroupId → Op pocket (Unit {0})
  unfolding put_entries
  persist_group_projection projection group_id = do
    put_optional (group_entry group_id (group_of projection group_id))
    put_entries (λ entry. eqb entry.0.0 group_id) (λ entry. member_current_key group_id entry.0.1)
        (λ entry. member_value entry.1) projection.members
    put_entries (λ entry. eqb entry.0.0 group_id) (λ entry. role_current_key group_id entry.0.1)
        (λ entry. role_value entry.1) projection.roles
    put_optional (tombstone_entry group_id (tombstone_of projection group_id))
    put_entries (λ entry. eqb entry.1.group_id group_id) (λ entry. event_deletion_key entry.0)
        (λ entry. deletion_value entry.1) projection.event_deletions

  unfoldable pub persist_outbox_record : GroupOutboxRecord → Op pocket (Unit {0})
  persist_outbox_record r =
      put_extra_record pocket sync_policy group_outbox (storage_key r.key) (outbox_value r)

  module _ (service : GroupService) where
    open service use {signer, limits, outbox_replay_batch_cap}

    unfoldable pub store_new_event :
        GroupId → PocketEvent → EventId → M pocket (EventId × Option StoreOffset)
    store_new_event group_id generated id = do
      offset ← on_store pocket (store_event pocket sync_policy generated)
      apply_event pocket limits generated offset
      λ s. on_store pocket (persist_group_projection s.projection group_id) s
      pure (id, some offset)

    unfoldable pub store_generated_event :
        GroupOutboxRecord → M pocket (EventId × Option StoreOffset)
    unfolding store_new_event
    store_generated_event r = do
      generated ← lift (from_group (sign_payload_pocket signer r.payload))
      id ← lift (map_err error (new_event_id generated.id_hex))
      already ← on_store pocket (generated_event_already_stored pocket generated.id_hex)
      if already then pure (id, none) else store_new_event r.key.group_id generated id

    -- `outbox.update`, then the record in the table.
    unfoldable pub save_record : GroupOutboxRecord → M pocket (Unit {0})
    save_record r = do
      λ s. (ok tt, record s { outbox = update r s.outbox })
      on_store pocket (persist_outbox_record r)

    -- The match on the outcome.
    unfoldable pub settle :
        GroupOutboxRecord
        → Result BaseRelayError (EventId × Option StoreOffset)
        → M pocket (Option StoreOffset)
    unfolding save_record
    settle r (ok (id, offset)) = do save_record (mark_stored id r); pure offset
    settle r (err e) = do save_record (mark_failed true (prefix_str e) r); fail e

    unfoldable pub materialize_record : GroupOutboxRecord → M pocket (Option StoreOffset)
    unfolding save_record settle store_generated_event
    materialize_record r =
        if is_unsupported r.key.effect
        then (do
          save_record (mark_skipped (codes "generated group effect is not supported") r)
          pure none)
        else λ s. settle r (store_generated_event r s).0 (store_generated_event r s).1

    unfoldable pub materialize_records : List GroupOutboxRecord → M pocket (List StoreOffset)
    unfolding materialize_record
    materialize_records [] = pure []
    materialize_records (r ∷ records) = do
      offset ← materialize_record r
      offsets ← materialize_records records
      pure (push_offset offset offsets)

    -- The loop of `materialize_outbox` and `materialize_outbox_for_group` on fuel; `none` is that
    -- the fuel ran out.
    unfoldable pub materialize_loop :
        ℕ → (GroupOutbox → List GroupOutboxRecord) → M pocket (Option (List StoreOffset))
    unfolding materialize_records
    materialize_loop zero plan s = (ok none, s)
    materialize_loop (suc fuel) plan s = elim (take outbox_replay_batch_cap (plan s.outbox)) [
      | [] ↦ (ok (some []), s)
      | r ∷ records ↦
          (do
            offsets ← materialize_records (r ∷ records)
            rest ← materialize_loop fuel plan
            pure (append_offsets offsets rest))
            s
    ]

    -- Each pass settles a record of the plan, so that its length bounds the passes.
    unfoldable pub materialize_plan :
        (GroupOutbox → List GroupOutboxRecord) → M pocket (Option (List StoreOffset))
    unfolding materialize_loop
    materialize_plan plan s = materialize_loop (length (plan s.outbox) + 1) plan s

    abbrev pub materialize_outbox : M pocket (Option (List StoreOffset))
    materialize_outbox = materialize_plan replay_plan

    abbrev pub materialize_outbox_for_group : GroupId → M pocket (Option (List StoreOffset))
    materialize_outbox_for_group group_id = materialize_plan (replay_plan_for_group group_id)
