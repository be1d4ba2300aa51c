-- ===== src/Runtime/GroupService/Settles.antt =====
-- What generating an event does to the outbox (groups.rs).
use tangle.Common.{
  ◌≡◌, ◌∙◌, refl, sym, ap, inl, inr, true, false, Option, none, Result, ok, err, if◌then◌else◌,
  Bool-cases, Result-cases, codes,
}
use tangle.Common.Effects.{Moves, >>=-Moves, >>=-ok, ◌>>=◌, pure, lift}
use tangle.Protocol.{EventId, new_event_id}
use tangle.Groups.Errors.{map_err}
use tangle.Groups.Ids.{GroupId}
use tangle.Groups.EventView.{PocketEvent}
use tangle.Groups.Projection.{StoreOffset}
use tangle.Groups.Projection.Apply.{apply_canonical_event}
use tangle.Groups.Config.{GroupLimitsConfig}
use tangle.Groups.Outbox.{
  GroupOutboxRecord, update, is_retryable, mark_stored, mark_skipped, mark_failed,
}
use tangle.Groups.Signing.{sign_payload_pocket}
use tangle.Runtime.Errors.{BaseRelayError, error, from_group, prefix_str}
use tangle.Runtime.Store.{Pocket, PocketSyncPolicy, Op, store_event}
use tangle.Runtime.GroupService.State.{
  GroupService, ServiceState, M, on_store, apply_event, generated_event_already_stored,
  persist_group_projection, store_new_event, store_generated_event, save_record, settle,
  materialize_record, is_unsupported,
}

module _ (pocket : Pocket) where
  abbrev pub SameOutbox : ServiceState pocket → ServiceState pocket → Type 0
  SameOutbox s t = s.outbox ≡ t.outbox

  SameOutbox-trans :
      (s t u : ServiceState pocket) → SameOutbox s t → SameOutbox t u → SameOutbox s u
  SameOutbox-trans s t u a b = a ∙ b

  on_store-SameOutbox : {A : Type 0} (op : Op pocket A) → Moves SameOutbox (on_store pocket op)
  on_store-SameOutbox op s = refl

  pub apply_event-SameOutbox :
      (limits : GroupLimitsConfig) (event : PocketEvent) (offset : StoreOffset)
      → Moves SameOutbox (apply_event pocket limits event offset)
  unfolding apply_event
  apply_event-SameOutbox limits event offset s =
      elim (Result-cases (apply_canonical_event event offset limits s.projection)) [
        | inl (a, e) ↦ rw e refl
        | inr (x, e) ↦ rw e refl
      ]

  module _ (sync_policy : PocketSyncPolicy) (service : GroupService) where
    store_new_event-SameOutbox :
        (group_id : GroupId) (generated : PocketEvent) (id : EventId)
        → Moves SameOutbox (store_new_event pocket sync_policy service group_id generated id)
    unfolding store_new_event
    store_new_event-SameOutbox group_id generated id =
        >>=-Moves SameOutbox SameOutbox-trans
          (on_store pocket (store_event pocket sync_policy generated)) _
          (on_store-SameOutbox (store_event pocket sync_policy generated))
          λ offset.
            >>=-Moves SameOutbox SameOutbox-trans
              (apply_event pocket service.limits generated offset) _
              (apply_event-SameOutbox service.limits generated offset)
              λ done.
                >>=-Moves SameOutbox SameOutbox-trans
                  (λ s.
                    on_store pocket
                      (persist_group_projection pocket sync_policy s.projection group_id) s)
                  _ (λ s. refl) λ persisted s. refl

    pub store_generated_event-SameOutbox :
        (r : GroupOutboxRecord)
        → Moves SameOutbox (store_generated_event pocket sync_policy service r)
    unfolding store_generated_event
    store_generated_event-SameOutbox r =
        >>=-Moves SameOutbox SameOutbox-trans
          (lift (from_group (sign_payload_pocket service.signer r.payload))) _ (λ s. refl)
          λ generated.
            >>=-Moves SameOutbox SameOutbox-trans
              (lift (map_err error (new_event_id generated.id_hex))) _ (λ s. refl)
              λ id.
                >>=-Moves SameOutbox SameOutbox-trans
                  (on_store pocket (generated_event_already_stored pocket generated.id_hex)) _
                  (on_store-SameOutbox (generated_event_already_stored pocket generated.id_hex))
                  λ already.
                    elim already
                      as (λ b. Moves SameOutbox (
                        if b
                        then pure (id, none)
                        else store_new_event pocket sync_policy service r.key.group_id generated
                            id)) [
                              | true ↦ λ s. refl
                              | false ↦ store_new_event-SameOutbox r.key.group_id generated id
                            ]

    save_record-outbox :
        (r : GroupOutboxRecord) (s : ServiceState pocket)
        → (save_record pocket sync_policy service r s).1.outbox ≡ update r s.outbox
    unfolding save_record
    save_record-outbox r s = refl

    -- The record that replaces the one of the plan.
    abbrev pub Settled : GroupOutboxRecord → ServiceState pocket → ServiceState pocket → Type 0
    Settled r s t =
        (next : GroupOutboxRecord) × (next.key ≡ r.key)
        × (is_retryable next ≡ false)
        × (t.outbox ≡ update next s.outbox)

    pub saved_ok :
        {B : Type 0} (next : GroupOutboxRecord) (rest : M pocket B) (s t : ServiceState pocket)
        (b : B)
        → ((u : ServiceState pocket) → SameOutbox u (rest u).1)
        → (save_record pocket sync_policy service next >>= λ saved. rest) s ≡ (ok b, t)
        → t.outbox ≡ update next s.outbox
    saved_ok next rest s t b same h =
        let (saved, e, f) =
          >>=-ok (save_record pocket sync_policy service next) (λ saved. rest) s t b h in
        let u = (save_record pocket sync_policy service next s).1 in
        sym (ap (λ (x : Result BaseRelayError _ × ServiceState pocket). x.1.outbox) f)
        ∙ sym (same u)
        ∙ save_record-outbox next s

    settle_ok :
        (r : GroupOutboxRecord) (result : Result BaseRelayError (EventId × Option StoreOffset))
        (s t : ServiceState pocket) (offset : Option StoreOffset)
        → settle pocket sync_policy service r result s ≡ (ok offset, t)
        → Settled r s t
    unfolding settle
    settle_ok r (ok (id, stored)) s t offset h = (
      mark_stored id r,
      refl,
      refl,
      saved_ok (mark_stored id r) (pure stored) s t offset (λ u. refl) h,
    )
    settle_ok r (err e) s t offset h =
        let (saved, f, g) =
          >>=-ok (save_record pocket sync_policy service (mark_failed true (prefix_str e) r)) _ s t
            offset h in
        absurd (cc (ap (λ (x : Result BaseRelayError _ × ServiceState pocket). x.0) g))

    pub materialize_record-Settled :
        (r : GroupOutboxRecord) (s t : ServiceState pocket) (offset : Option StoreOffset)
        → materialize_record pocket sync_policy service r s ≡ (ok offset, t)
        → Settled r s t
    unfolding materialize_record
    materialize_record-Settled r s t offset h = elim (Bool-cases (is_unsupported r.key.effect)) [
      | inl unsupported ↦
          let skipped_one = mark_skipped (codes "generated group effect is not supported") r in
          (
            skipped_one,
            refl,
            refl,
            saved_ok skipped_one (pure none) s t offset (λ u. refl)
                (rw (materialize_record, unsupported) at h),
          )
      | inr supported ↦
          let result = (store_generated_event pocket sync_policy service r s) in
          let (next, same_key, settled, e) =
            settle_ok r result.0 result.1 t offset (rw (materialize_record, supported) at h) in
          let before = store_generated_event-SameOutbox r s in
          (next, same_key, settled, e ∙ ap (update next) (sym before))
    ]
