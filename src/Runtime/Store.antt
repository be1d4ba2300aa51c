-- ===== src/Runtime/Store.antt =====
-- crates/tangle_store_pocket/src/lib.rs: the handle of the store. The database is a library, and
-- what the handle calls of it is the record `Pocket`; `none` and `false` are its errors. A value of
-- an extra table is the value whose JSON text the source stores.

pub mod Scan
use tangle.Common.{
  ℕ, zero, suc, ◌+◌, ◌-◌, Bool, true, false, Option, none, some, List, [], ◌∷◌, Result, ok, err,
  ok_or, Text, ltb, leb, ◌==◌, if◌then◌else◌,
}
use tangle.Common.Effects.{Effect, ◌>>=◌, ◌>>◌, pure}
use Prim.Native.Nat.{◌%◌, ◌^◌}
use tangle.Protocol.{u64_max}
use tangle.Groups.EventView.{PocketEvent}
use tangle.Groups.Projection.{
  StoreOffset, GroupState, MemberState, ProjectedRoleDefinition, GroupTombstone, GroupEventDeletion,
  ProjectionCheckpoint,
}
use tangle.Groups.Outbox.{GroupOutboxRecord}
use tangle.Runtime.Errors.{BaseRelayError, error}

pub data ExtraTable : Type 0 where
  group_projection group_outbox group_checkpoint : ExtraTable

pub data ExtraValue : Type 0 where
  group_value : GroupState → ExtraValue
  member_value : MemberState → ExtraValue
  role_value : ProjectedRoleDefinition → ExtraValue
  tombstone_value : GroupTombstone → ExtraValue
  deletion_value : GroupEventDeletion → ExtraValue
  checkpoint_value : ProjectionCheckpoint → ExtraValue
  outbox_value : GroupOutboxRecord → ExtraValue

pub record Pocket : Type 1 where
  pub Database : Type 0
  pub write_event : PocketEvent → Database → Option StoreOffset × Database
  pub flush : Database → Bool × Database
  pub get_event_by_id : Text → Database → Option (Option PocketEvent)
  pub get_event_by_offset : StoreOffset → Database → Option PocketEvent
  pub event_bytes : Database → Option ℕ
  pub event_len : PocketEvent → ℕ
  pub put : ExtraTable → Text → ExtraValue → Database → Bool × Database
  pub delete : ExtraTable → Text → Database → Bool × Database
  pub get : ExtraTable → Text → Database → Option (Option ExtraValue)
  pub iter : ExtraTable → Database → Option (List (Text × ExtraValue))

pub data PocketSyncPolicy : Type 0 where
  flush_on_write flush_on_shutdown : PocketSyncPolicy

pub record PocketStoredEvent : Type 0 where
  pub store_offset : StoreOffset
  pub event : PocketEvent

-- Eight bytes, the size of a `usize`.
abbrev pub event_map_start_offset : StoreOffset
event_map_start_offset = 8

-- The addition is unchecked: it wraps, or stops the program where overflow is checked.
abbrev pub align_event_offset : StoreOffset → StoreOffset
align_event_offset offset = if offset % 8 == 0 then offset else (offset + (8 - offset % 8)) % 2 ^ 64

abbrev answer_of {ℓ} : {A : Type ℓ} → Option A → Result BaseRelayError A
answer_of result = ok_or result error

abbrev from_done : Bool → Result BaseRelayError (Unit {0})
from_done done = if done then ok tt else err error

pub data ScanOutcome : Type 0 where
  out_of_fuel : ScanOutcome
  failed : BaseRelayError → ScanOutcome
  scanned : List PocketStoredEvent → ScanOutcome

abbrev pub push : PocketStoredEvent → ScanOutcome → ScanOutcome
push stored out_of_fuel = out_of_fuel
push stored (failed e) = failed e
push stored (scanned events) = scanned (stored ∷ events)

abbrev pub scan_result : ScanOutcome → Result BaseRelayError (List PocketStoredEvent)
scan_result out_of_fuel = err error
scan_result (failed e) = err e
scan_result (scanned events) = ok events

module _ (pocket : Pocket) where
  abbrev pub Op : Type 0 → Type 0
  Op A = Effect pocket.Database BaseRelayError A

  unfoldable pub next_event_offset : StoreOffset → PocketEvent → Result BaseRelayError StoreOffset
  next_event_offset offset event =
      if leb (offset + pocket.event_len event) u64_max
      then ok (align_event_offset (offset + pocket.event_len event))
      else err error

  -- The `while` loop on fuel.
  unfoldable pub scan_loop : ℕ → StoreOffset → StoreOffset → pocket.Database → ScanOutcome
  unfolding next_event_offset
  scan_loop zero end offset database = out_of_fuel
  scan_loop (suc fuel) end offset database = elim (ltb offset end) [
    | false ↦ scanned []
    | true ↦ elim (pocket.get_event_by_offset offset database) [
      | none ↦ failed error
      | some event ↦ elim (next_event_offset offset event) [
        | err e ↦ failed e
        | ok next ↦
            push (record { store_offset = offset; event = event })
              (scan_loop fuel end next database)
      ]
    ]
  ]

  unfoldable pub start_offset :
      Option StoreOffset → pocket.Database → Result BaseRelayError StoreOffset
  unfolding next_event_offset
  start_offset none database = ok event_map_start_offset
  start_offset (some offset) database = elim (pocket.get_event_by_offset offset database) [
    | none ↦ err error
    | some event ↦ next_event_offset offset event
  ]

  unfoldable pub scan_outcome : ℕ → Option StoreOffset → pocket.Database → ScanOutcome
  unfolding scan_loop start_offset
  scan_outcome fuel last_offset database = elim (pocket.event_bytes database) [
    | none ↦ failed error
    | some end ↦ elim (start_offset last_offset database) [
      | err e ↦ failed e
      | ok offset ↦ scan_loop fuel end offset database
    ]
  ]

  -- An event takes at least one byte of the map, so that its size bounds the passes.
  unfoldable pub scan_fuel : pocket.Database → ℕ
  scan_fuel database = elim (pocket.event_bytes database) [ none ↦ 1 | some end ↦ end + 1 ]

  unfoldable pub scan_events_after : Option StoreOffset → Op (List PocketStoredEvent)
  unfolding scan_outcome scan_fuel
  scan_events_after last_offset database =
      (scan_result (scan_outcome (scan_fuel database) last_offset database), database)

  abbrev pub scan_events : Op (List PocketStoredEvent)
  scan_events = scan_events_after none

  unfoldable pub event_by_id : Text → Op (Option PocketEvent)
  event_by_id id database = (answer_of (pocket.get_event_by_id id database), database)

  unfoldable pub get_extra_record : ExtraTable → Text → Op (Option ExtraValue)
  get_extra_record table key database = (answer_of (pocket.get table key database), database)

  unfoldable pub scan_extra_records : ExtraTable → Op (List (Text × ExtraValue))
  scan_extra_records table database = (answer_of (pocket.iter table database), database)

  module _ (sync_policy : PocketSyncPolicy) where
    abbrev done_or_error :
        Bool × pocket.Database → Result BaseRelayError (Unit {0}) × pocket.Database
    done_or_error (done, database) = (from_done done, database)

    unfoldable pub sync_after_write : Op (Unit {0})
    sync_after_write database = elim sync_policy [
      | flush_on_write ↦ done_or_error (pocket.flush database)
      | flush_on_shutdown ↦ (ok tt, database)
    ]

    abbrev written :
        Option StoreOffset × pocket.Database → Result BaseRelayError StoreOffset × pocket.Database
    written (offset, database) = (answer_of offset, database)

    unfoldable pub store_event : PocketEvent → Op StoreOffset
    unfolding sync_after_write
    store_event event = do
      offset ← λ database. written (pocket.write_event event database)
      sync_after_write
      pure offset

    unfoldable pub put_extra_record : ExtraTable → Text → ExtraValue → Op (Unit {0})
    unfolding sync_after_write
    put_extra_record table key value = do
      λ database. done_or_error (pocket.put table key value database)
      sync_after_write

    unfoldable pub delete_extra_record : ExtraTable → Text → Op (Unit {0})
    unfolding sync_after_write
    delete_extra_record table key = do
      λ database. done_or_error (pocket.delete table key database)
      sync_after_write
