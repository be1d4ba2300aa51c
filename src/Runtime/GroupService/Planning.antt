-- ===== src/Runtime/GroupService/Planning.antt =====
-- The records that are planned, once the loops have ended (groups.rs).
use tangle.Common.{
  ℕ, ◌≡◌, refl, inl, inr, ◌⊎◌, Bool, true, ◌&&◌, Option, none, some, List, [], ◌∷◌, ok, In, All,
  arith, get, In-get, eqb, eqb_self, nat_ord, list_ord, option_ord, pair_ord, subst, Text,
}
use tangle.Groups.EventView.{PocketEvent}
use tangle.Groups.Ids.{GroupId}
use tangle.Groups.Authority.{GroupAuthority}
use tangle.Groups.Classification.{
  GroupEventClass, non_group, normal, moderation, relay_generated_snapshot, class_group_id,
}
use tangle.Groups.Projection.{StoreOffset, GroupProjection}
use tangle.Protocol.{EventId}
use tangle.Groups.Outbox.{
  GroupOutboxKey, key_ord, GroupOutboxRecord, GroupOutbox, is_retryable, mark_stored,
  replay_plan_for_group,
}
use tangle.Groups.Outbox.Distinct.{IsWellFormed}
use tangle.Groups.Outbox.Plan.{In-replay_plan_matching}
use tangle.Runtime.Store.{Pocket, PocketSyncPolicy}
use tangle.Runtime.GroupService.{plan_group_outbox_records}
use tangle.Runtime.GroupService.State.{GroupService}
use tangle.Runtime.GroupService.Generates.{WasGenerated}
use tangle.Runtime.GroupService.Planned.{
  IsOverCap, IsPlanned, ArePlanned, moderation-ArePlanned, normal-ArePlanned, none-ArePlanned,
}
use tangle.Runtime.GroupService.Tracks.{IsTracked}
use tangle.Runtime.GroupService.Merging.{In-entry-values, IsIn, IsNew}

pub plan-ArePlanned :
    (encodes : List (List Text) → Bool) (event : PocketEvent) (class : GroupEventClass)
    (group_id : GroupId) (projection : GroupProjection) (authority : GroupAuthority) (cap : ℕ)
    (before_state : Option Bool) (records : List GroupOutboxRecord)
    → class_group_id class ≡ some group_id
    → plan_group_outbox_records encodes event class projection authority cap before_state
      ≡ ok records
    → ArePlanned event group_id projection cap records
unfolding plan_group_outbox_records class_group_id
plan-ArePlanned encodes event non_group group_id projection authority cap before_state records g h =
    absurd (cc g)
plan-ArePlanned encodes event (normal id) group_id projection authority cap before_state records g
      h =
    let same : id ≡ group_id = ground (arith, g) in
    subst (λ (i : GroupId). ArePlanned event i projection cap records) same
      (normal-ArePlanned event id projection cap encodes records h)
plan-ArePlanned encodes event (moderation kind id) group_id projection authority cap before_state
      records g h =
    let same : id ≡ group_id = ground (arith, g) in
    subst (λ (i : GroupId). ArePlanned event i projection cap records) same
      (moderation-ArePlanned event id projection cap encodes kind authority before_state records h)
plan-ArePlanned encodes event (relay_generated_snapshot kind id) group_id projection authority cap
      before_state records g h =
    none-ArePlanned event group_id projection cap records h

module _ (pocket : Pocket) (sync_policy : PocketSyncPolicy) (service : GroupService)
    (event : PocketEvent) (group_id : GroupId) where
  -- The record was left out of the outbox's plan since the list of members is too long, or its
  -- event was generated.
  abbrev pub IsSettled :
      GroupProjection → GroupOutbox → List StoreOffset → GroupOutboxRecord → Type 0
  IsSettled projection outbox offsets r =
      (IsOverCap event group_id projection service.member_snapshot_cap r
        × (get r.key outbox ≡ some r))
      ⊎ ((id : EventId) × (get r.key outbox ≡ some (mark_stored id r))
          × WasGenerated pocket sync_policy service r id offsets)

  tracked-IsSettled :
      (projection : GroupProjection) (outbox : GroupOutbox) (offsets : List StoreOffset)
      (r : GroupOutboxRecord)
      → (p : IsPlanned event group_id projection service.member_snapshot_cap r)
      → IsWellFormed outbox
      → replay_plan_for_group group_id outbox ≡ []
      → IsTracked pocket sync_policy service r p.supported offsets outbox
      → IsSettled projection outbox offsets r
  tracked-IsSettled projection outbox offsets r p w done (inr made) = inr made
  tracked-IsSettled projection outbox offsets r p w done (inl planned) = elim p.planned_status [
    | inr over ↦ inl (over, planned)
    | inl waits ↦
        let entry = (In-get {K = GroupOutboxKey} r.key r outbox w.0).1 planned in
        let chosen : (is_retryable r && eqb r.key.group_id group_id) ≡ true =
          rw (waits, p.of_group, eqb_self group_id) refl in
        let listed =
          (In-replay_plan_matching (λ q. eqb q.key.group_id group_id) outbox r).1
            (In-entry-values r.key r outbox entry, chosen) in
        absurd (elim (subst (In r) done listed) [ ])
  ]

  pub planned-IsSettled :
      (projection : GroupProjection) (outbox : GroupOutbox) (offsets : List StoreOffset)
      (merged : GroupOutbox) (records : List GroupOutboxRecord)
      → All (IsPlanned event group_id projection service.member_snapshot_cap) records
      → All (IsIn pocket sync_policy service merged) records
      → ((r : GroupOutboxRecord)
          → (p : IsPlanned event group_id projection service.member_snapshot_cap r)
          → IsTracked pocket sync_policy service r p.supported offsets merged
          → IsTracked pocket sync_policy service r p.supported offsets outbox)
      → IsWellFormed outbox
      → replay_plan_for_group group_id outbox ≡ []
      → All (IsSettled projection outbox offsets) records
  planned-IsSettled projection outbox offsets merged [] p m keeps w done = tt
  planned-IsSettled projection outbox offsets merged (r ∷ records) (p, ps) (m, ms) keeps w done = (
    tracked-IsSettled projection outbox offsets r p w done (keeps r p (inl m)),
    planned-IsSettled projection outbox offsets merged records ps ms keeps w done,
  )

  pub planned-IsNew :
      (projection : GroupProjection) (outbox : GroupOutbox) (records : List GroupOutboxRecord)
      → ((key : GroupOutboxKey) → key.source_event_id ≡ event.id_hex → get key outbox ≡ none)
      → All (IsPlanned event group_id projection service.member_snapshot_cap) records
      → All (IsNew pocket sync_policy service outbox) records
  planned-IsNew projection outbox [] unknown a = tt
  planned-IsNew projection outbox (r ∷ records) unknown (p, ps) =
      (unknown r.key p.of_source, planned-IsNew projection outbox records unknown ps)
