-- ===== src/Runtime/Relay/Answers.antt =====
-- What an event that a client sends leaves behind, by the answer to it (relay/core.rs).
use tangle.Common.{
  ◌≡◌, refl, ap, subst, inl, inr, false, Option, none, some, [], Result, ok, err, Bool-cases,
  Result-cases,
}
use tangle.Protocol.{EventId}
use tangle.Groups.EventView.{PocketEvent}
use tangle.Groups.Errors.{GroupError}
use tangle.Groups.Classification.{GroupEventClass}
use tangle.Groups.WriteGate.{GroupAuthContext, is_non_group}
use tangle.Groups.Projection.{StoreOffset}
use tangle.Runtime.Errors.{BaseRelayError}
use tangle.Runtime.Store.{Pocket, PocketSyncPolicy, event_by_id, store_event}
use tangle.Runtime.Relay.{BaseRelayLimits}
use tangle.Runtime.GroupService.State.{GroupService, ServiceState, on_store}
use tangle.Runtime.GroupService.Writes.{
  GroupEventWrite, stored_write, duplicate_write, GroupEventWriteError, rejected, storage,
  store_group_pocket_event,
}
use tangle.Runtime.GroupService.Outcomes.{store_group_pocket_event-asis}
use tangle.Runtime.Relay.Events.{
  BaseRelayEventWrite, EventReads, Screening, screen_fails, screen_rejects, screen_passes,
  pocket_event_id, pocket_event_kind, is_ephemeral, screen_client_event, group_limits_of,
  group_answer, stored_answer, store_plain_event, store_group_event, store_screened,
  handle_pocket_event, Handled,
}

module _ (pocket : Pocket) (sync_policy : PocketSyncPolicy) where
  -- A run that answers without acceptance is one that stored nothing.
  abbrev Untouched : ServiceState pocket → Handled pocket sync_policy → Type 0
  Untouched s (err e, t) = Unit {0}
  Untouched s (ok write, t) = write.reply.accepted ≡ false → (t ≡ s) × (write.stored_offsets ≡ [])

  group_answer-Untouched :
      (id : EventId) (s : ServiceState pocket)
      (result : Result GroupEventWriteError GroupEventWrite × ServiceState pocket)
      → (((e : GroupError) × (result.0 ≡ err (rejected e))) → result.1 ≡ s)
      → Untouched s (group_answer pocket sync_policy id result)
  group_answer-Untouched id s (ok (stored_write offsets), t) h = λ e. absurd (cc e)
  group_answer-Untouched id s (ok duplicate_write, t) h = λ e. absurd (cc e)
  group_answer-Untouched id s (err (rejected x), t) h = λ e. (h (x, refl), refl)
  group_answer-Untouched id s (err (storage x), t) h = tt

  store_group_event-Untouched :
      (groups : Option GroupService) (id : EventId) (event : PocketEvent) (class : GroupEventClass)
      (auth : GroupAuthContext) (s : ServiceState pocket)
      → Untouched s (store_group_event pocket sync_policy groups id event class auth s)
  unfolding store_group_event
  store_group_event-Untouched none id event class auth s = λ e. (refl, refl)
  store_group_event-Untouched (some service) id event class auth s =
      group_answer-Untouched id s
        (store_group_pocket_event pocket sync_policy service event class auth s)
        λ h. store_group_pocket_event-asis pocket sync_policy service event class auth s (inr h)

  stored_answer-Untouched :
      (id : EventId) (s : ServiceState pocket)
      (result : Result BaseRelayError StoreOffset × ServiceState pocket)
      → Untouched s (stored_answer pocket sync_policy id result)
  stored_answer-Untouched id s (err e, t) = tt
  stored_answer-Untouched id s (ok offset, t) = λ e. absurd (cc e)

  store_plain_event-Untouched :
      (id : EventId) (event : PocketEvent) (s : ServiceState pocket)
      → Untouched s (store_plain_event pocket sync_policy id event s)
  unfolding store_plain_event
  store_plain_event-Untouched id event s = elim (Result-cases (pocket_event_kind event)) [
    | inr (e, bad) ↦ rw (store_plain_event, bad) tt
    | inl (kind, good) ↦ elim (Bool-cases (is_ephemeral kind)) [
      | inl passing ↦ rw (store_plain_event, good, passing) (λ e. absurd (cc e))
      | inr kept ↦ elim (Result-cases (event_by_id pocket event.id_hex s.database).0) [
        | inr (e, unread) ↦ rw (store_plain_event, good, kept, unread) tt
        | inl (some stored, read) ↦ rw (store_plain_event, good, kept, read) (λ e. absurd (cc e))
        | inl (none, read) ↦
            rw (store_plain_event, good, kept, read)
              (stored_answer-Untouched id s
                (on_store pocket (store_event pocket sync_policy event) s))
      ]
    ]
  ]

  store_screened-Untouched :
      (groups : Option GroupService) (id : EventId) (event : PocketEvent) (auth : GroupAuthContext)
      (s : ServiceState pocket) (screening : Screening)
      → Untouched s (store_screened pocket sync_policy groups id event auth s screening)
  store_screened-Untouched groups id event auth s (screen_fails e) = tt
  store_screened-Untouched groups id event auth s (screen_rejects message) = λ e. (refl, refl)
  store_screened-Untouched groups id event auth s (screen_passes class) =
      elim (Bool-cases (is_non_group class)) [
        | inl plain ↦ rw plain (store_plain_event-Untouched id event s)
        | inr of_group ↦ rw of_group (store_group_event-Untouched groups id event class auth s)
      ]

  -- An event that is answered as not accepted leaves the projection, the outbox and the store as
  -- they were, and nothing of it is announced as stored.
  pub handle_pocket_event-rejected :
      (reads : EventReads) (limits : BaseRelayLimits) (groups : Option GroupService)
      (event : PocketEvent) (auth : GroupAuthContext) (s t : ServiceState pocket)
      (write : BaseRelayEventWrite)
      → handle_pocket_event pocket sync_policy reads limits groups event auth s ≡ (ok write, t)
      → write.reply.accepted ≡ false
      → (t ≡ s) × (write.stored_offsets ≡ [])
  unfolding handle_pocket_event
  handle_pocket_event-rejected reads limits groups event auth s t write h refused =
      elim (Result-cases (pocket_event_id event)) [
        | inr (e, bad) ↦ absurd (cc (ap first_of (rw (handle_pocket_event, bad) at h)))
        | inl (id, good) ↦
            subst (Untouched s) (rw (handle_pocket_event, good) at h)
              (store_screened-Untouched groups id event auth s (
                screen_client_event reads limits (group_limits_of pocket sync_policy groups) event
                  auth))
              refused
      ]
    where
      first_of : Handled pocket sync_policy → Result BaseRelayError BaseRelayEventWrite
      first_of (result, u) = result
