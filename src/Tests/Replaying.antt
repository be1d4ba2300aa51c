-- ===== src/Tests/Replaying.antt =====
-- The outbox on concrete records.
use tangle.Common.{
  ℕ, ◌≡◌, ◌↔◌, refl, sort_by, sorted_insert, true, false, none, some, List, [], ◌∷◌, ok, err, get,
  In, list_ord, nat_ord,
}
use tangle.Common.{pair_ord, option_ord}
use tangle.Protocol.{new_event_id}
use tangle.Groups.Errors.{internal}
use tangle.Groups.Ids.{new_group_id, max_group_id_bytes}
use tangle.Groups.Ids.Valid.{IsGroupId}
use tangle.Groups.Outbox.{
  GroupOutboxKey, key_ord, GroupOutboxRecord, GroupOutboxPayload, GroupOutbox, metadata_snapshot,
  join_accepted, pending_record, mark_stored, merge_idempotent, plan_sort, values,
  replay_plan_matching, find_effect, effect_from_label, from_key, into_key, optional_pubkey,
}
use tangle.Groups.Outbox.Merges.{merge_all, merge_all_keeps}
use tangle.Groups.Outbox.Distinct.{IsWellFormed}
use tangle.Groups.Outbox.Plan.{IsWaiting, InTurn, replay_plan_matching_lem}
use tangle.Groups.Outbox.Documents.{into_key-from_key_iff}
use tangle.Tests.{projecting, sixty_four, guest, farm}

replaying : Unit {0}
unfolding projecting key_ord merge_idempotent sorted_insert sort_by plan_sort replay_plan_matching
    find_effect effect_from_label into_key new_group_id merge_all
replaying = tt

abbrev snapshot_key : GroupOutboxKey
snapshot_key = record {
  source_event_id = sixty_four b'1';
  effect = metadata_snapshot;
  group_id = farm;
  target_pubkey = none;
}

abbrev join_key : GroupOutboxKey
join_key = record snapshot_key { effect = join_accepted; target_pubkey = some guest }

abbrev payload : ℕ → GroupOutboxPayload
payload at = record { generated_kind = 39000; generated_created_at = at; tags = []; content = [] }

abbrev done : GroupOutboxRecord
done = mark_stored (sixty_four b'2') (pending_record snapshot_key (payload 7))

abbrev outbox : GroupOutbox
outbox = (snapshot_key, done) ∷ (join_key, pending_record join_key (payload 5)) ∷ []

abbrev again : List GroupOutboxRecord
again = pending_record snapshot_key (payload 7) ∷ pending_record join_key (payload 9) ∷ []

outbox_tests :
    (merge_idempotent (pending_record snapshot_key (payload 7)) outbox ≡ ok (outbox, false))
    × (merge_idempotent (pending_record join_key (payload 9)) outbox ≡ err internal)
    × (replay_plan_matching (λ r. true) outbox ≡ pending_record join_key (payload 5) ∷ [])
unfolding replaying
outbox_tests = (refl, refl, refl)

there_is : get snapshot_key outbox ≡ some done
unfolding replaying
there_is = refl

merge_all_keeps_example : get snapshot_key (merge_all again outbox) ≡ some done
merge_all_keeps_example = merge_all_keeps again done snapshot_key outbox there_is

abbrev two_waiting : GroupOutbox
two_waiting =
    (snapshot_key, pending_record snapshot_key (payload 7))
    ∷ (join_key, pending_record join_key (payload 5))
    ∷ []

two_waiting-IsWellFormed : IsWellFormed two_waiting
unfolding replaying
two_waiting-IsWellFormed = (((refl, tt), (tt, tt)), (refl, (refl, tt)))

-- The earlier one comes first.
two_waiting_test :
    replay_plan_matching (λ x. true) two_waiting
    ≡ pending_record join_key (payload 5) ∷ pending_record snapshot_key (payload 7) ∷ []
unfolding replaying
two_waiting_test = refl

replay_plan_matching_lem_example :
    ((r : GroupOutboxRecord)
      → In r (replay_plan_matching (λ x. true) two_waiting)
        ↔ (In r (values two_waiting) × IsWaiting r × (true ≡ true)))
    × InTurn (replay_plan_matching (λ x. true) two_waiting)
replay_plan_matching_lem_example =
    replay_plan_matching_lem (λ x. true) two_waiting two_waiting-IsWellFormed

source_ok : new_event_id (sixty_four b'1') ≡ ok (sixty_four b'1')
unfolding replaying
source_ok = refl

target_ok : optional_pubkey (some guest) ≡ ok (some guest)
unfolding replaying
target_ok = refl

into_key-from_key_iff_example :
    (into_key (from_key join_key) ≡ ok join_key) ↔ IsGroupId max_group_id_bytes farm
into_key-from_key_iff_example = into_key-from_key_iff join_key source_ok target_ok
