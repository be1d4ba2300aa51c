-- ===== src/Runtime/GroupService/Outcomes.antt =====
-- What a client's write leaves behind, by its answer (groups.rs).
use tangle.Common.{
  ◌<◌, ◌≡◌, ◌≢◌, refl, ap, inl, inr, ◌⊎◌, Bool, true, false, Option, none, some, List, [], ◌∷◌,
  Result, ok, err, arith, Bool-cases, Option-cases, Result-cases, get, list_ord, nat_ord,
  if◌then◌else◌, subst,
}
use tangle.Common.Effects.{Moves, >>=-Moves, >>=-ok, ◌>>=◌, pure}
use tangle.Groups.Errors.{GroupError}
use tangle.Groups.Ids.{GroupId}
use tangle.Groups.EventView.{PocketEvent}
use tangle.Groups.Classification.{GroupEventClass, class_group_id}
use tangle.Groups.WriteGate.{GroupAuthContext}
use tangle.Groups.Projection.{StoreOffset}
use tangle.Groups.Outbox.{
  GroupOutbox, GroupOutboxRecord, GroupOutboxKey, key_ord, merge_idempotent, payload_eq, update,
  replay_plan_for_group,
}
use tangle.Runtime.Errors.{BaseRelayError}
use tangle.Runtime.Store.{Pocket, PocketSyncPolicy, event_by_id, store_event}
use tangle.Runtime.GroupService.State.{
  GroupService, ServiceState, M, on_store, apply_event, persist_outbox_record,
  materialize_outbox_for_group,
}
use tangle.Runtime.GroupService.Settles.{apply_event-SameOutbox}
use tangle.Groups.Outbox.Distinct.{IsWellFormed}
use tangle.Runtime.GroupService.Counts.{update-IsWellFormed}
use tangle.Runtime.GroupService.Drains.{materialize_plan_ends, materialize_plan_drains}
use tangle.Runtime.GroupService.Writes.{
  GroupEventWrite, stored_write, duplicate_write, GroupEventWriteError, rejected, check_write,
  merge_record, merge_records, after_source_event_stored, write_new_event, store_group_pocket_event,
  persist_group, materialize_group, offsets_or_none, storage_error,
}

merge_idempotent-IsWellFormed :
    (r : GroupOutboxRecord) (outbox next : GroupOutbox) (inserted : Bool)
    → IsWellFormed outbox
    → merge_idempotent r outbox ≡ ok (next, inserted)
    → IsWellFormed next
unfolding merge_idempotent
merge_idempotent-IsWellFormed r outbox next inserted w h =
    elim (Option-cases (get {K = GroupOutboxKey} r.key outbox)) [
      | inl new ↦
          let same : update r outbox ≡ next = ground arith in
          rw (← same) (update-IsWellFormed r outbox w)
      | inr (existing, e) ↦ elim (Bool-cases (payload_eq existing.payload r.payload)) [
        | inl same_payload ↦ let same : outbox ≡ next = ground arith in rw (← same) w
        | inr other ↦ absurd (ground arith)
      ]
    ]

module _ (pocket : Pocket) (sync_policy : PocketSyncPolicy) (service : GroupService) where
  abbrev pub KeepsForm : ServiceState pocket → ServiceState pocket → Type 0
  KeepsForm s t = IsWellFormed s.outbox → IsWellFormed t.outbox

  KeepsForm-trans : (s t u : ServiceState pocket) → KeepsForm s t → KeepsForm t u → KeepsForm s u
  KeepsForm-trans s t u a b w = b (a w)

  merge_record-KeepsForm :
      (r : GroupOutboxRecord) → Moves KeepsForm (merge_record pocket sync_policy service r)
  unfolding merge_record
  merge_record-KeepsForm r s w = elim (Result-cases (merge_idempotent r s.outbox)) [
    | inr (x, e) ↦ rw e w
    | inl ((next, inserted), e) ↦ rw e (merge_idempotent-IsWellFormed r s.outbox next inserted w e)
  ]

  pub merge_records-KeepsForm :
      (records : List GroupOutboxRecord)
      → Moves KeepsForm (merge_records pocket sync_policy service records)
  unfolding merge_records
  merge_records-KeepsForm [] s w = w
  merge_records-KeepsForm (r ∷ records) s w =
      >>=-Moves KeepsForm KeepsForm-trans (merge_record pocket sync_policy service r) _
        (merge_record-KeepsForm r)
        (λ inserted.
          elim inserted
            as (λ b. Moves KeepsForm (
              (if b then on_store pocket (persist_outbox_record pocket sync_policy r) else pure tt)
              >>= λ done. merge_records pocket sync_policy service records)) [
                | true ↦
                    >>=-Moves KeepsForm KeepsForm-trans
                      (on_store pocket (persist_outbox_record pocket sync_policy r)) _ (λ s w. w)
                      λ done. merge_records-KeepsForm records
                | false ↦ merge_records-KeepsForm records
              ])
        s w

  persist_group-KeepsForm :
      (group_id : Option GroupId)
      → Moves KeepsForm (persist_group pocket sync_policy service group_id)
  persist_group-KeepsForm none s w = w
  persist_group-KeepsForm (some group_id) s w = w

  abbrev Written : Type 0
  Written = Result GroupEventWriteError GroupEventWrite × ServiceState pocket

  abbrev written_result : Written → Result GroupEventWriteError GroupEventWrite
  written_result (result, s) = result

  storage_error-ok :
      (result : Result BaseRelayError GroupEventWrite × ServiceState pocket)
      (write : GroupEventWrite) (t : ServiceState pocket)
      → storage_error pocket sync_policy service result ≡ (ok write, t)
      → result ≡ (ok write, t)
  storage_error-ok (err e, s) write t h = absurd (cc (ap written_result h))
  storage_error-ok (ok done, s) write t h =
      let same : done ≡ write = ground (arith, ap written_result h) in λ i. (ok (same i), (h i).1)

  module _ (group_id : GroupId) where
    abbrev pub IsDrained : ServiceState pocket → Type 0
    IsDrained t = IsWellFormed t.outbox × (replay_plan_for_group group_id t.outbox ≡ [])

    -- A run that succeeds leaves nothing to generate for the group.
    abbrev pub Ends : {B : Type 0} → M pocket B → Type 0
    Ends {B = B} m =
        (s t : ServiceState pocket) (b : B) → IsWellFormed s.outbox → m s ≡ (ok b, t) → IsDrained t

    then-Ends :
        {A B : Type 0} (m : M pocket A) (next : A → M pocket B)
        → Moves KeepsForm m
        → ((a : A) → Ends (next a))
        → Ends (m >>= next)
    then-Ends m next keeps ends s t b w h =
        let (a, e, h1) = >>=-ok m next s t b h in ends a (m s).1 t b (keeps s w) h1

    Ends-then : {A B : Type 0} (m : M pocket A) (f : A → B) → Ends m → Ends (m >>= λ a. pure (f a))
    Ends-then m f ends s t b w h =
        let (a, e, h1) = >>=-ok m (λ a. pure (f a)) s t b h in
        let same : (m s).1 ≡ t =
          ap (λ (x : Result BaseRelayError _ × ServiceState pocket). x.1) h1 in
        subst IsDrained same (ends s (m s).1 a w (λ i. (e i, (m s).1)))

    materialize-Ends :
        0 < service.outbox_replay_batch_cap
        → Ends (materialize_outbox_for_group pocket sync_policy service group_id)
    materialize-Ends positive s t none w h =
        absurd (materialize_plan_ends pocket sync_policy service _ s t w h)
    materialize-Ends positive s t (some offsets) w h =
        materialize_plan_drains pocket sync_policy service _ s t offsets positive w h

    materialize_group-Ends :
        (found : Option GroupId)
        → found ≡ some group_id
        → 0 < service.outbox_replay_batch_cap
        → Ends (materialize_group pocket sync_policy service found)
    materialize_group-Ends found g positive = rw g (
        Ends-then (materialize_outbox_for_group pocket sync_policy service group_id) offsets_or_none
          (materialize-Ends positive))

    after_stored-Ends :
        (event : PocketEvent) (class : GroupEventClass) (offset : StoreOffset)
        → class_group_id class ≡ some group_id
        → 0 < service.outbox_replay_batch_cap
        → Ends (after_source_event_stored pocket sync_policy service event class offset)
    unfolding after_source_event_stored
    after_stored-Ends event class offset g positive =
        then-Ends _ _ (λ s w. w)
          λ before_state.
            then-Ends (apply_event pocket service.limits event offset) _
              (λ s w.
                subst IsWellFormed (apply_event-SameOutbox pocket service.limits event offset s) w)
              λ applied.
                then-Ends (persist_group pocket sync_policy service (class_group_id class)) _
                  (persist_group-KeepsForm (class_group_id class))
                  λ persisted.
                    then-Ends _ _ (λ s w. w)
                      λ records.
                        then-Ends (merge_records pocket sync_policy service records) _
                          (merge_records-KeepsForm records)
                          λ merged. materialize_group-Ends (class_group_id class) g positive

    pub write_new_event-Ends :
        (event : PocketEvent) (class : GroupEventClass)
        → class_group_id class ≡ some group_id
        → 0 < service.outbox_replay_batch_cap
        → Ends (write_new_event pocket sync_policy service event class)
    unfolding write_new_event
    write_new_event-Ends event class g positive =
        then-Ends (on_store pocket (store_event pocket sync_policy event)) _ (λ s w. w)
          λ offset.
            Ends-then (after_source_event_stored pocket sync_policy service event class offset) _
              (after_stored-Ends event class offset g positive)

  -- A write that answers success passed the checks, and is the write of an event that is not in
  -- the store.
  pub store_group_pocket_event_run :
      (event : PocketEvent) (class : GroupEventClass) (auth : GroupAuthContext)
      (s t : ServiceState pocket) (offsets : List StoreOffset)
      → store_group_pocket_event pocket sync_policy service event class auth s
        ≡ (ok (stored_write offsets), t)
      → (check_write pocket sync_policy service event class auth s ≡ ok tt)
        × ((event_by_id pocket event.id_hex s.database).0 ≡ ok none)
        × (write_new_event pocket sync_policy service event class s
            ≡ (ok (stored_write offsets), t))
  unfolding store_group_pocket_event
  store_group_pocket_event_run event class auth s t offsets h =
      elim (Result-cases (check_write pocket sync_policy service event class auth s)) [
        | inr (e, refused) ↦
            absurd (cc (ap written_result (rw (store_group_pocket_event, refused) at h)))
        | inl (done, accepted) ↦
            elim (Result-cases (event_by_id pocket event.id_hex s.database).0) [
              | inr (e, unread) ↦
                  absurd
                    (cc (ap written_result (rw (store_group_pocket_event, accepted, unread) at h)))
              | inl (some stored, read) ↦
                  absurd
                    (cc (ap written_result (rw (store_group_pocket_event, accepted, read) at h)))
              | inl (none, read) ↦ (
                accepted,
                read,
                storage_error-ok (write_new_event pocket sync_policy service event class s)
                    (stored_write offsets) t (rw (store_group_pocket_event, accepted, read) at h),
              )
            ]
      ]

  abbrev pub LeavesAsIs : Result GroupEventWriteError GroupEventWrite → Type 0
  LeavesAsIs result =
      (result ≡ ok duplicate_write) ⊎ ((e : GroupError) × (result ≡ err (rejected e)))

  write_new_event-stored :
      (event : PocketEvent) (class : GroupEventClass) (s t : ServiceState pocket)
      (write : GroupEventWrite)
      → write_new_event pocket sync_policy service event class s ≡ (ok write, t)
      → write ≢ duplicate_write
  unfolding write_new_event
  write_new_event-stored event class s t write h same =
      let (offset, e1, h1) =
        >>=-ok (on_store pocket (store_event pocket sync_policy event)) _ s t write h in
      let s1 = (on_store pocket (store_event pocket sync_policy event) s).1 in
      let (later, e2, h2) =
        >>=-ok (after_source_event_stored pocket sync_policy service event class offset) _ s1 t
          write h1 in
      let made : ok (stored_write (offset ∷ later)) ≡ ok write =
        ap (λ (x : Result BaseRelayError GroupEventWrite × ServiceState pocket). x.0) h2 in
      absurd (ground (arith, made))

  storage_error-asis :
      (result : Result BaseRelayError GroupEventWrite × ServiceState pocket)
      → LeavesAsIs (storage_error pocket sync_policy service result).0
      → result.0 ≡ ok duplicate_write
  storage_error-asis (err e, s) (inl h) = absurd (cc h)
  storage_error-asis (err e, s) (inr (x, h)) = absurd (ground (arith, h))
  storage_error-asis (ok done, s) (inl h) = ground (arith, h)
  storage_error-asis (ok done, s) (inr (x, h)) = absurd (cc h)

  -- A write that is rejected, and one of an event that the store has already, leave the projection,
  -- the outbox and the store as they were.
  pub store_group_pocket_event-asis :
      (event : PocketEvent) (class : GroupEventClass) (auth : GroupAuthContext)
      (s : ServiceState pocket)
      → LeavesAsIs (store_group_pocket_event pocket sync_policy service event class auth s).0
      → (store_group_pocket_event pocket sync_policy service event class auth s).1 ≡ s
  unfolding store_group_pocket_event
  store_group_pocket_event-asis event class auth s h =
      elim (Result-cases (check_write pocket sync_policy service event class auth s)) [
        | inr (e, refused) ↦ rw (store_group_pocket_event, refused) refl
        | inl (done, accepted) ↦
            elim (Result-cases (event_by_id pocket event.id_hex s.database).0) [
              | inr (e, unread) ↦ rw (store_group_pocket_event, accepted, unread) refl
              | inl (some stored, read) ↦ rw (store_group_pocket_event, accepted, read) refl
              | inl (none, read) ↦
                  let result = write_new_event pocket sync_policy service event class s in
                  let same =
                    storage_error-asis result
                      (rw (store_group_pocket_event, accepted, read) at h) in
                  absurd (
                    write_new_event-stored event class s result.1 duplicate_write
                      (λ i. (same i, result.1)) refl)
            ]
      ]
