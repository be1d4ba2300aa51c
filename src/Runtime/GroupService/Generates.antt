-- ===== src/Runtime/GroupService/Generates.antt =====
-- What stands behind a record that the relay marks as stored (groups.rs).
use tangle.Common.{
  ◌≡◌, ◌∙◌, refl, sym, ap, inl, inr, ◌⊎◌, Bool, true, false, Option, none, some, List, [], Result,
  ok, err, In, here, arith, nat_ord, list_ord, option_ord, pair_ord, if◌then◌else◌,
}
use tangle.Common.Effects.{>>=-ok, pure, lift}
use tangle.Protocol.{EventId, new_event_id}
use tangle.Groups.Errors.{GroupError, map_err}
use tangle.Groups.EventView.{PocketEvent}
use tangle.Groups.Projection.{StoreOffset}
use tangle.Groups.Outbox.{key_ord, GroupOutboxRecord, update, mark_stored, mark_failed}
use tangle.Groups.Signing.{sign_payload_pocket}
use tangle.Runtime.Errors.{BaseRelayError, error, from_group, prefix_str}
use tangle.Runtime.Store.{Pocket, PocketSyncPolicy, store_event}
use tangle.Runtime.GroupService.State.{
  GroupService, ServiceState, on_store, apply_event, generated_event_already_stored,
  store_new_event, store_generated_event, save_record, settle, materialize_record, push_offset,
  is_unsupported, persist_group_projection,
}
use tangle.Runtime.GroupService.Settles.{saved_ok, store_generated_event-SameOutbox}

pub from_group-eq-ok :
    {A : Type 0} (result : Result GroupError A) {a : A} → from_group result ≡ ok a → result ≡ ok a
from_group-eq-ok (ok x) h = ground arith
from_group-eq-ok (err e) h = absurd (cc h)

pub map_err-eq-ok :
    {E F A : Type 0} (f : F) (result : Result E A) {a : A} → map_err f result ≡ ok a → result ≡ ok a
map_err-eq-ok f (ok x) h = ground arith
map_err-eq-ok f (err e) h = absurd (cc h)

module _ (pocket : Pocket) (sync_policy : PocketSyncPolicy) (service : GroupService) where
  -- The event of a record was signed under the id, and then either the store had it already, or it
  -- was stored at one of the offsets.
  abbrev pub WasGenerated : GroupOutboxRecord → EventId → List StoreOffset → Type 0
  WasGenerated r id offsets =
      (generated : PocketEvent) × (sign_payload_pocket service.signer r.payload ≡ ok generated)
      × (new_event_id generated.id_hex ≡ ok id)
      × (u : ServiceState pocket) × (((generated_event_already_stored pocket generated.id_hex
              u.database).0
            ≡ ok true)
          ⊎ ((offset : StoreOffset) × In offset offsets
              × ((store_event pocket sync_policy generated u.database).0 ≡ ok offset)))

  abbrev Answer : Type 0
  Answer = Result BaseRelayError (EventId × Option StoreOffset) × ServiceState pocket

  abbrev answer_result : Answer → Result BaseRelayError (EventId × Option StoreOffset)
  answer_result (result, s) = result

  store_new_event_ok :
      (r : GroupOutboxRecord) (generated : PocketEvent) (named id : EventId)
      (s t : ServiceState pocket) (offset : Option StoreOffset)
      → store_new_event pocket sync_policy service r.key.group_id generated named s
        ≡ (ok (id, offset), t)
      → (named ≡ id)
        × (at : StoreOffset) × (offset ≡ some at)
        × ((store_event pocket sync_policy generated s.database).0 ≡ ok at)
  unfolding store_new_event
  store_new_event_ok r generated named id s t offset h =
      let (at, e, h1) =
        >>=-ok (on_store pocket (store_event pocket sync_policy generated)) _ s t (id, offset) h in
      let s1 = (on_store pocket (store_event pocket sync_policy generated) s).1 in
      let (applied, e1, h2) =
        >>=-ok (apply_event pocket service.limits generated at) _ s1 t (id, offset) h1 in
      let s2 = (apply_event pocket service.limits generated at s1).1 in
      let (persisted, e2, h3) =
        >>=-ok
          (λ u.
            on_store pocket
              (persist_group_projection pocket sync_policy u.projection r.key.group_id) u)
          _ s2 t (id, offset) h2 in
      let same = ap answer_result h3 in (ground (arith, same), at, ground (arith, same), e)

  store_generated_event_ok :
      (r : GroupOutboxRecord) (id : EventId) (offset : Option StoreOffset)
      (s t : ServiceState pocket)
      → store_generated_event pocket sync_policy service r s ≡ (ok (id, offset), t)
      → WasGenerated r id (push_offset offset [])
  unfolding store_generated_event
  store_generated_event_ok r id offset s t h =
      let (generated, e, h1) =
        >>=-ok (lift (from_group (sign_payload_pocket service.signer r.payload))) _ s t (id, offset)
          h in
      let (named, e1, h2) =
        >>=-ok (lift (map_err error (new_event_id generated.id_hex))) _ s t (id, offset) h1 in
      let (already, e2, h3) =
        >>=-ok (on_store pocket (generated_event_already_stored pocket generated.id_hex)) _ s t
          (id, offset) h2 in
      let s1 = (on_store pocket (generated_event_already_stored pocket generated.id_hex) s).1 in
      by_already generated named already s1 e e1 e2 h3
    where
      by_already :
          (generated : PocketEvent) (named : EventId) (already : Bool) (s1 : ServiceState pocket)
          → from_group (sign_payload_pocket service.signer r.payload) ≡ ok generated
          → map_err error (new_event_id generated.id_hex) ≡ ok named
          → (generated_event_already_stored pocket generated.id_hex s.database).0 ≡ ok already
          → (if already
                then pure (named, none)
                else store_new_event pocket sync_policy service r.key.group_id generated named)
              s1
            ≡ (ok (id, offset), t)
          → WasGenerated r id (push_offset offset [])
      by_already generated named true s1 e e1 e2 h =
          let same : named ≡ id = ground (arith, ap answer_result h) in
          (
            generated,
            from_group-eq-ok (sign_payload_pocket service.signer r.payload) e,
            map_err-eq-ok error (new_event_id generated.id_hex) e1 ∙ ap ok same,
            s,
            inl e2,
          )
      by_already generated named false s1 e e1 e2 h =
          let (same, at, is_at, put) = store_new_event_ok r generated named id s1 t offset h in
          (
            generated,
            from_group-eq-ok (sign_payload_pocket service.signer r.payload) e,
            map_err-eq-ok error (new_event_id generated.id_hex) e1 ∙ ap ok same,
            s1,
            inr (at, rw is_at (here refl), put),
          )

  settle_made :
      (r : GroupOutboxRecord) (result : Result BaseRelayError (EventId × Option StoreOffset))
      (s t : ServiceState pocket) (offset : Option StoreOffset)
      → settle pocket sync_policy service r result s ≡ (ok offset, t)
      → (id : EventId) × (result ≡ ok (id, offset))
        × (t.outbox ≡ update (mark_stored id r) s.outbox)
  unfolding settle
  settle_made r (ok (id, stored)) s t offset h =
      let (saved, e, f) =
        >>=-ok (save_record pocket sync_policy service (mark_stored id r)) _ s t offset h in
      let same : stored ≡ offset = ground (
        arith,
        ap (λ (x : Result BaseRelayError (Option StoreOffset) × ServiceState pocket). x.0) f,
      ) in
      (
        id,
        λ i. ok (id, same i),
        saved_ok pocket sync_policy service (mark_stored id r) (pure stored) s t offset (λ u. refl)
            h,
      )
  settle_made r (err x) s t offset h =
      let (saved, f, g) =
        >>=-ok (save_record pocket sync_policy service (mark_failed true (prefix_str x) r)) _ s t
          offset h in
      absurd (cc (ap (λ (y : Result BaseRelayError _ × ServiceState pocket). y.0) g))

  -- A record of a supported effect is settled by its event.
  pub materialize_record_made :
      (r : GroupOutboxRecord) (s t : ServiceState pocket) (offset : Option StoreOffset)
      → is_unsupported r.key.effect ≡ false
      → materialize_record pocket sync_policy service r s ≡ (ok offset, t)
      → (id : EventId) × WasGenerated r id (push_offset offset [])
        × (t.outbox ≡ update (mark_stored id r) s.outbox)
  unfolding materialize_record
  materialize_record_made r s t offset supported h =
      let result = store_generated_event pocket sync_policy service r s in
      let (id, e, made) =
        settle_made r result.0 result.1 t offset (rw (materialize_record, supported) at h) in
      let before = store_generated_event-SameOutbox pocket sync_policy service r s in
      (
        id,
        store_generated_event_ok r id offset s result.1 (λ i. (e i, result.1)),
        made ∙ ap (update (mark_stored id r)) (sym before),
      )
