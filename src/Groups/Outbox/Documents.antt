-- ===== src/Groups/Outbox/Documents.antt =====
-- The documents of the keys and the ids that they can hold.
use tangle.Common.{◌≡◌, refl, ◌↔◌, ok, arith}
use tangle.Protocol.{new_event_id}
use tangle.Groups.Ids.{max_group_id_bytes, new_group_id}
use tangle.Groups.Ids.Valid.{IsGroupId, new_group_id_with_max_bytes_iff}
use tangle.Groups.Outbox.{
  GroupOutboxEffect, effect_str, effect_from_label, find_effect, metadata_snapshot,
  admin_list_snapshot, member_list_snapshot, role_list_snapshot, state_39004_snapshot,
  join_accepted, leave_accepted, GroupOutboxKey, from_key, into_key, optional_pubkey,
}

pub effect_from_label-effect_str : (e : GroupOutboxEffect) → effect_from_label (effect_str e) ≡ ok e
unfolding effect_from_label find_effect
effect_from_label-effect_str metadata_snapshot = refl
effect_from_label-effect_str admin_list_snapshot = refl
effect_from_label-effect_str member_list_snapshot = refl
effect_from_label-effect_str role_list_snapshot = refl
effect_from_label-effect_str state_39004_snapshot = refl
effect_from_label-effect_str join_accepted = refl
effect_from_label-effect_str leave_accepted = refl

-- A key is read back from its document exactly when its group id keeps the bound of 128 bytes that
-- is fixed for documents; the bound that is configured for the ids of events does not matter.
pub into_key-from_key_iff :
    (k : GroupOutboxKey)
    → new_event_id k.source_event_id ≡ ok k.source_event_id
    → optional_pubkey k.target_pubkey ≡ ok k.target_pubkey
    → (into_key (from_key k) ≡ ok k) ↔ IsGroupId max_group_id_bytes k.group_id
unfolding into_key new_group_id
into_key-from_key_iff k id target =
    let (into, from) = new_group_id_with_max_bytes_iff k.group_id max_group_id_bytes k.group_id in
    (
      λ h. (into (ground (arith, effect_from_label-effect_str k.effect))).1,
      λ i. ground (arith, effect_from_label-effect_str k.effect, from (refl, i)),
    )
