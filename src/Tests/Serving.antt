-- ===== src/Tests/Serving.antt =====
-- The service of the groups on a store in memory.
use tangle.Common.{
  get, ℕ, zero, suc, ◌<◌, ◌≤◌, ◌+◌, ◌-◌, ◌*◌, ◌≡◌, ◌≢◌, refl, inr, Bool, true, Option, none, some,
  List, [], ◌∷◌, ◌++◌, Result, ok, err, length, get_elem?, eqb, list_ord, nat_ord, ◌==◌,
  if◌then◌else◌, Text, codes, arith, sort_by, sorted_insert, pair_ord, option_ord, extend, add,
}
use Prim.Native.Nat.{◌/◌, ◌^◌}
use tangle.Groups.EventView.{PocketEvent}
use tangle.Groups.Errors.{invalid, group_already_exists}
use tangle.Groups.Projection.{new_projection, StoreOffset}
use tangle.Groups.Classification.{GroupEventClass, moderation}
use tangle.Groups.Outbox.{
  key_ord, GroupOutboxRecord, merge_idempotent, plan_sort, replay_plan_matching, metadata_snapshot,
  pending_record,
}
use tangle.Groups.Signing.{
  RelaySigner, digits, pushed_tags, validate_pocket_tags, metadata_tags, metadata_snapshot_payload,
  add_override_members, snapshot_admins, admin_list_snapshot_payload, current_members,
  member_list_snapshot_payload, membership_payload, sign_payload_pocket,
}
use tangle.Groups.Signing.Snapshot.{encoded}
use tangle.Groups.StorageKeys.{prefixed_key, storage_key}
use tangle.Runtime.Store.{
  Pocket, next_event_offset, scan_loop, start_offset, scan_outcome, scan_fuel, scan_events_after,
  event_by_id, sync_after_write, store_event, put_extra_record, flush_on_write, PocketStoredEvent,
  ScanOutcome, out_of_fuel, failed, scanned,
}
use tangle.Runtime.GroupService.{
  membership_admin_snapshot_state, planned_record, member_snapshot_record, member_snapshot_records,
  metadata_record, plan_moderation, plan_normal, plan_group_outbox_records,
}
use tangle.Runtime.GroupService.State.{
  GroupService, ServiceState, apply_event, generated_event_already_stored, put_entries,
  persist_group_projection, persist_outbox_record, store_new_event, store_generated_event,
  save_record, settle, materialize_record, materialize_records, materialize_loop, materialize_plan,
}
use tangle.Runtime.GroupService.Writes.{
  rejected, GroupEventWrite, GroupEventWriteError, check_write, check_runtime_write_constraints,
  check_delete_event_target, delete_target_event_id, merge_record, merge_records,
  after_source_event_stored, write_new_event, store_group_pocket_event,
}
use tangle.Runtime.Store.Scan.{Ascends, scan_outcome_ends, scan_outcome-Ascends}
use tangle.Groups.Outbox.Distinct.{IsWellFormed}
use tangle.Runtime.GroupService.Drains.{materialize_plan_ends, materialize_plan_drains}
use tangle.Runtime.GroupService.Outcomes.{store_group_pocket_event-asis}
use tangle.Tests.{limits, owner, farm, created, sixty_four}
use tangle.Tests.Writing.{writing, authority, open_join, logged_in}

unfoldable pub serving : Unit {0}
unfolding writing key_ord merge_idempotent sorted_insert sort_by plan_sort replay_plan_matching
    digits pushed_tags validate_pocket_tags metadata_tags metadata_snapshot_payload
    add_override_members snapshot_admins admin_list_snapshot_payload current_members
    member_list_snapshot_payload membership_payload sign_payload_pocket prefixed_key storage_key
    next_event_offset scan_loop start_offset scan_outcome scan_fuel scan_events_after event_by_id
    sync_after_write store_event put_extra_record membership_admin_snapshot_state planned_record
    member_snapshot_record member_snapshot_records metadata_record plan_moderation plan_normal
    plan_group_outbox_records apply_event generated_event_already_stored put_entries
    persist_group_projection persist_outbox_record store_new_event store_generated_event save_record
    settle materialize_record materialize_records materialize_loop materialize_plan check_write
    check_runtime_write_constraints check_delete_event_target delete_target_event_id merge_record
    merge_records after_source_event_stored write_new_event store_group_pocket_event extend add
serving = tt

abbrev pub Events : Type 0
Events = List PocketEvent

abbrev pub find_id : Text → Events → Option PocketEvent
find_id id [] = none
find_id id (event ∷ events) =
    let rest = find_id id events in if eqb event.id_hex id then some event else rest

-- Every event takes eight bytes, and the extra tables keep nothing.
abbrev pub in_memory : Pocket
in_memory = record {
  Database = Events;
  write_event = λ event events. (some (8 + 8 * length events), events ++ event ∷ []);
  flush = λ events. (true, events);
  get_event_by_id = λ id events. some (find_id id events);
  get_event_by_offset = λ offset events. get_elem? events ((offset - 8) / 8);
  event_bytes = λ events. some (8 + 8 * length events);
  event_len = λ event. 8;
  put = λ table key value events. (true, events);
  delete = λ table key events. (true, events);
  get = λ table key events. some none;
  iter = λ table events. some [];
}

abbrev pub signs_all : RelaySigner
signs_all = record {
  public_key = owner;
  encodes = λ tags. true;
  sign = λ kind tags at content. some (record {
    id_hex = sixty_four (if kind == 39000 then b'c' else b'd');
    pubkey_hex = owner;
    kind_u32 = kind;
    created_at = at;
    raw_tags = some (encoded tags);
  });
  verifies = λ event. true;
}

abbrev pub service : GroupService
service = record {
  signer = signs_all;
  authority = authority;
  policy = open_join;
  limits = limits;
  member_snapshot_cap = 10;
  outbox_replay_batch_cap = 1;
}

abbrev pub fresh : ServiceState in_memory
fresh = record { projection = new_projection; outbox = []; database = [] }

abbrev pub creation : GroupEventClass
creation = moderation 9007 farm

abbrev pub after_creation : ServiceState in_memory
unfolding serving
after_creation =
    (store_group_pocket_event in_memory flush_on_write service created.event creation logged_in
      fresh).1

abbrev again : Result GroupEventWriteError GroupEventWrite × ServiceState in_memory
again =
    store_group_pocket_event in_memory flush_on_write service created.event creation logged_in
      after_creation

creation_again : again.0 ≡ err (rejected (invalid group_already_exists))
unfolding serving
creation_again = refl

store_group_pocket_event-asis_example : again.1 ≡ after_creation
store_group_pocket_event-asis_example =
    store_group_pocket_event-asis in_memory flush_on_write service created.event creation logged_in
      after_creation (inr (invalid group_already_exists, creation_again))

abbrev waiting : GroupOutboxRecord
waiting =
    pending_record
      (record {
        source_event_id = sixty_four b'1';
        effect = metadata_snapshot;
        group_id = farm;
        target_pubkey = none;
      })
      (record {
        generated_kind = 39000;
        generated_created_at = 10;
        tags = (codes "d" ∷ farm ∷ []) ∷ [];
        content = [];
      })

abbrev behind : ServiceState in_memory
behind = record fresh { outbox = (waiting.key, waiting) ∷ [] }

abbrev all_records : GroupOutboxRecord → Bool
all_records r = true

abbrev caught_up : ServiceState in_memory
unfolding serving
caught_up =
    (materialize_plan in_memory flush_on_write service (replay_plan_matching all_records) behind).1

catching_up :
    materialize_plan in_memory flush_on_write service (replay_plan_matching all_records) behind
    ≡ (ok (some (8 ∷ [])), caught_up)
unfolding serving
catching_up = refl

materialize_plan_ends_example :
    materialize_plan in_memory flush_on_write service (replay_plan_matching all_records) behind
    ≢ (ok none, caught_up)
materialize_plan_ends_example =
    materialize_plan_ends in_memory flush_on_write service all_records behind caught_up
      ((tt, tt), (refl, tt))

materialize_plan_drains_example :
    IsWellFormed caught_up.outbox × (replay_plan_matching all_records caught_up.outbox ≡ [])
materialize_plan_drains_example =
    materialize_plan_drains in_memory flush_on_write service all_records behind caught_up (8 ∷ [])
      (omega arith) ((tt, tt), (refl, tt)) catching_up

abbrev three : Events
three = after_creation.database

three_events : length three ≡ 3
unfolding serving
three_events = refl

get_elem?-lt :
    (events : Events) (i : ℕ) (event : PocketEvent)
    → get_elem? events i ≡ some event
    → i < length events
get_elem?-lt [] i event h = absurd (cc h)
get_elem?-lt (x ∷ events) zero event h = omega arith
get_elem?-lt (x ∷ events) (suc i) event h = omega (arith, get_elem?-lt events i event h)

three_mapped :
    (offset : StoreOffset) (event : PocketEvent)
    → in_memory.get_event_by_offset offset three ≡ some event
    → offset + in_memory.event_len event ≤ 2 ^ 63
three_mapped offset event found =
    let count : length three ≡ 3 = three_events in
    omega (arith, count, get_elem?-lt three ((offset - 8) / 8) event found)

scan_outcome_ends_example :
    scan_outcome in_memory (scan_fuel in_memory three) (some 8) three ≢ out_of_fuel
scan_outcome_ends_example =
    scan_outcome_ends in_memory three (λ event. omega arith) three_mapped (some 8)

abbrev scanned_events : ScanOutcome → List PocketStoredEvent
scanned_events out_of_fuel = []
scanned_events (failed e) = []
scanned_events (scanned events) = events

abbrev two_later : List PocketStoredEvent
unfolding serving
two_later = scanned_events (scan_outcome in_memory 9 (some 8) three)

scan_runs : scan_outcome in_memory 9 (some 8) three ≡ scanned two_later
unfolding serving
scan_runs = refl

scan_outcome-Ascends_example :
    (start end : StoreOffset) × (start_offset in_memory (some 8) three ≡ ok start)
    × (some (8 + 8 * length three) ≡ some end)
    × Ascends in_memory three start end two_later
scan_outcome-Ascends_example =
    scan_outcome-Ascends in_memory three (λ event. omega arith) three_mapped 9 (some 8) two_later
      scan_runs
