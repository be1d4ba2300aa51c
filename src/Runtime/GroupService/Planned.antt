-- ===== src/Runtime/GroupService/Planned.antt =====
-- The records that are planned for a source event (groups.rs).
use tangle.Common.{
  ℕ, ◌≡◌, ◌≢◌, ◌∙◌, refl, sym, ap, inl, inr, ◌⊎◌, Bool, false, ◌||◌, ◌==◌, Option, none, some, List,
  [], ◌∷◌, Result, ok, >>=-eq-ok, All, Bool-cases, Option-cases, arith, Text, nat_ord, list_ord,
  option_ord, pair_ord, subst,
}
use tangle.Protocol.{EventId, Kind, PublicKeyHex, new_event_id, require_lowercase_hex}
use tangle.Groups.Errors.{GroupError}
use tangle.Groups.Ids.{GroupId}
use tangle.Groups.Kinds.{
  create_group, edit_metadata, put_user, remove_user, join_request, leave_request,
}
use tangle.Groups.EventView.{PocketEvent, event_id, event_pubkey}
use tangle.Groups.Authority.{GroupAuthority}
use tangle.Groups.Projection.{GroupProjection}
use tangle.Groups.Outbox.{
  GroupOutboxKey, GroupOutboxEffect, metadata_snapshot, admin_list_snapshot, member_list_snapshot,
  GroupOutboxRecord, GroupOutboxPayload, pending, join_accepted, leave_accepted,
}
use tangle.Groups.Outbox.Distinct.{IsDistinct}
use tangle.Groups.Signing.{
  metadata_snapshot_payload, admin_list_snapshot_payload, member_list_snapshot_payload,
  join_accepted_payload, leave_accepted_payload,
}
use tangle.Runtime.GroupService.{
  planned_record, member_snapshot_record, member_snapshot_records, metadata_record, plan_moderation,
  plan_normal, require_projected_group, membership_target_pubkey, differs,
  member_is_relay_override_admin,
}
use tangle.Runtime.GroupService.State.{is_unsupported}
use tangle.Runtime.GroupService.Generates.{map_err-eq-ok}

ok-same : {A : Type 0} (a b : A) → ◌≡◌ {A = Result GroupError A} (ok a) (ok b) → a ≡ b
ok-same a b e = cc e

module _ (event : PocketEvent) (group_id : GroupId) (projection : GroupProjection) (cap : ℕ) where
  -- A list of members that is longer than the cap.
  abbrev pub IsOverCap : GroupOutboxRecord → Type 0
  IsOverCap r =
      (r.key.effect ≡ member_list_snapshot)
      × (member_list_snapshot_payload group_id projection event.created_at cap ≡ none)

  pub record IsPlanned (r : GroupOutboxRecord) : Type 0 where
    pub of_source : r.key.source_event_id ≡ event.id_hex
    pub of_group : r.key.group_id ≡ group_id
    pub supported : is_unsupported r.key.effect ≡ false
    pub planned_status : (r.status ≡ pending) ⊎ IsOverCap r

  event_id-same : (id : EventId) → event_id event ≡ ok id → id ≡ event.id_hex
  unfolding event_id new_event_id
  event_id-same id h =
      let (done, e, h1) =
        >>=-eq-ok (require_lowercase_hex event.id_hex 64) _
          (map_err-eq-ok _ (new_event_id event.id_hex) h) in
      ground (arith, h1)

  planned_record-IsPlanned :
      (effect : GroupOutboxEffect) (target : Option PublicKeyHex) (payload : GroupOutboxPayload)
      (r : GroupOutboxRecord)
      → is_unsupported effect ≡ false
      → planned_record event effect group_id target payload ≡ ok r
      → IsPlanned r × (r.key.effect ≡ effect)
  unfolding planned_record
  planned_record-IsPlanned effect target payload r s h =
      let (id, e, h1) = >>=-eq-ok (event_id event) _ h in
      let same = event_id-same id e in
      subst (λ (q : GroupOutboxRecord). IsPlanned q × (q.key.effect ≡ effect)) (ok-same _ r h1)
        (
          record { of_source = same; of_group = refl; supported = s; planned_status = inl refl },
          refl,
        )

  member_snapshot_record-IsPlanned :
      (r : GroupOutboxRecord)
      → member_snapshot_record event group_id projection event.created_at cap ≡ ok r
      → IsPlanned r × (r.key.effect ≡ member_list_snapshot)
  unfolding member_snapshot_record
  member_snapshot_record-IsPlanned r h =
      let (id, e, h1) = >>=-eq-ok (event_id event) _ h in
      let same = event_id-same id e in
      elim (Option-cases (member_list_snapshot_payload group_id projection event.created_at cap)) [
        | inl over ↦
            subst (λ (q : GroupOutboxRecord). IsPlanned q × (q.key.effect ≡ member_list_snapshot))
              (ok-same _ r (rw over at h1))
              (
                record {
                  of_source = same;
                  of_group = refl;
                  supported = refl;
                  planned_status = inr (refl, over);
                },
                refl,
              )
        | inr (payload, fits) ↦
            subst (λ (q : GroupOutboxRecord). IsPlanned q × (q.key.effect ≡ member_list_snapshot))
              (ok-same _ r (rw fits at h1))
              (
                record {
                  of_source = same;
                  of_group = refl;
                  supported = refl;
                  planned_status = inl refl;
                },
                refl,
              )
      ]

  abbrev pub ArePlanned : List GroupOutboxRecord → Type 0
  ArePlanned records = All IsPlanned records × IsDistinct records

  one-ArePlanned :
      (r : GroupOutboxRecord) (records : List GroupOutboxRecord)
      → IsPlanned r
      → ◌≡◌ {A = Result GroupError (List GroupOutboxRecord)} (ok (r ∷ [])) (ok records)
      → ArePlanned records
  one-ArePlanned r records p h = subst ArePlanned (ok-same (r ∷ []) records h) ((p, tt), (tt, tt))

  two-ArePlanned :
      (r q : GroupOutboxRecord) (records : List GroupOutboxRecord)
      → IsPlanned r
      → IsPlanned q
      → r.key.effect ≢ q.key.effect
      → ◌≡◌ {A = Result GroupError (List GroupOutboxRecord)} (ok (r ∷ q ∷ [])) (ok records)
      → ArePlanned records
  two-ArePlanned r q records p o n h =
      let different : r.key ≢ q.key = λ e. n (ap (λ (k : GroupOutboxKey). k.effect) e) in
      subst ArePlanned (ok-same (r ∷ q ∷ []) records h) ((p, (o, tt)), ((different, tt), (tt, tt)))

  pub none-ArePlanned :
      (records : List GroupOutboxRecord)
      → ◌≡◌ {A = Result GroupError (List GroupOutboxRecord)} (ok []) (ok records)
      → ArePlanned records
  none-ArePlanned records h = subst ArePlanned (ok-same [] records h) (tt, tt)

  members-ArePlanned :
      (authority : GroupAuthority) (before_state : Option Bool) (records : List GroupOutboxRecord)
      → member_snapshot_records event group_id projection authority event.created_at cap
          before_state
        ≡ ok records
      → ArePlanned records
  unfolding member_snapshot_records
  members-ArePlanned authority none records h =
      let (members, e, h1) =
        >>=-eq-ok (member_snapshot_record event group_id projection event.created_at cap) _ h in
      one-ArePlanned members records (member_snapshot_record-IsPlanned members e).0 h1
  members-ArePlanned authority (some before) records h =
      let (members, e, h1) =
        >>=-eq-ok (member_snapshot_record event group_id projection event.created_at cap) _ h in
      let (target, e1, h2) = >>=-eq-ok (membership_target_pubkey event) _ h1 in
      let (p, is_members) = member_snapshot_record-IsPlanned members e in
      elim (Bool-cases
        (differs before (member_is_relay_override_admin projection group_id target))) [
          | inr same ↦ one-ArePlanned members records p (rw same at h2)
          | inl changed ↦
              let (admins, e2, h3) =
                >>=-eq-ok
                  (planned_record event admin_list_snapshot group_id none
                    (admin_list_snapshot_payload group_id projection authority event.created_at))
                  _ (rw changed at h2) in
              let (o, is_admins) =
                planned_record-IsPlanned admin_list_snapshot none _ admins refl e2 in
              two-ArePlanned members admins records p o
                (λ q. absurd (cc (sym is_members ∙ q ∙ is_admins))) h3
        ]

  module _ (encodes : List (List Text) → Bool) where
    metadata-IsPlanned :
        (r : GroupOutboxRecord)
        → metadata_record encodes event group_id projection ≡ ok r
        → IsPlanned r × (r.key.effect ≡ metadata_snapshot)
    unfolding metadata_record
    metadata-IsPlanned r h =
        let (group, e, h1) = >>=-eq-ok (require_projected_group projection group_id) _ h in
        let (payload, e1, h2) =
          >>=-eq-ok (metadata_snapshot_payload encodes group event.created_at) _ h1 in
        planned_record-IsPlanned metadata_snapshot none payload r refl h2

    pub moderation-ArePlanned :
        (kind : Kind) (authority : GroupAuthority) (before_state : Option Bool)
        (records : List GroupOutboxRecord)
        → plan_moderation encodes event kind group_id projection authority cap before_state
          ≡ ok records
        → ArePlanned records
    unfolding plan_moderation
    moderation-ArePlanned kind authority before_state records h =
        elim (Bool-cases (kind == create_group)) [
          | inl creates ↦
              let (metadata, e, h1) =
                >>=-eq-ok (metadata_record encodes event group_id projection) _
                  (rw (plan_moderation, creates) at h) in
              let (admins, e1, h2) =
                >>=-eq-ok
                  (planned_record event admin_list_snapshot group_id none
                    (admin_list_snapshot_payload group_id projection authority event.created_at))
                  _ h1 in
              let (p, is_metadata) = metadata-IsPlanned metadata e in
              let (o, is_admins) =
                planned_record-IsPlanned admin_list_snapshot none _ admins refl e1 in
              two-ArePlanned metadata admins records p o
                (λ q. absurd (cc (sym is_metadata ∙ q ∙ is_admins))) h2
          | inr other ↦ elim (Bool-cases (kind == edit_metadata)) [
            | inl edits ↦
                let (metadata, e, h1) =
                  >>=-eq-ok (metadata_record encodes event group_id projection) _
                    (rw (plan_moderation, other, edits) at h) in
                one-ArePlanned metadata records (metadata-IsPlanned metadata e).0 h1
            | inr no_edit ↦ elim (Bool-cases (kind == put_user || kind == remove_user)) [
              | inl member ↦
                  members-ArePlanned authority before_state records
                    (rw (plan_moderation, other, no_edit, member) at h)
              | inr no_member ↦
                  none-ArePlanned records (rw (plan_moderation, other, no_edit, no_member) at h)
            ]
          ]
        ]

    pub normal-ArePlanned :
        (records : List GroupOutboxRecord)
        → plan_normal encodes event group_id ≡ ok records
        → ArePlanned records
    unfolding plan_normal
    normal-ArePlanned records h = elim (Bool-cases (event.kind_u32 == join_request)) [
      | inl joins ↦
          let (pubkey, e, h1) = >>=-eq-ok (event_pubkey event) _ (rw (plan_normal, joins) at h) in
          let (joined, e1, h2) =
            >>=-eq-ok
              (planned_record event join_accepted group_id (some pubkey)
                (join_accepted_payload group_id pubkey event.created_at))
              _ h1 in
          one-ArePlanned joined records
            (planned_record-IsPlanned join_accepted (some pubkey) _ joined refl e1).0 h2
      | inr other ↦ elim (Bool-cases (event.kind_u32 == leave_request)) [
        | inl leaves ↦
            let (pubkey, e, h1) =
              >>=-eq-ok (event_pubkey event) _ (rw (plan_normal, other, leaves) at h) in
            let (left, e1, h2) =
              >>=-eq-ok
                (planned_record event leave_accepted group_id (some pubkey)
                  (leave_accepted_payload group_id pubkey event.created_at))
                _ h1 in
            one-ArePlanned left records
              (planned_record-IsPlanned leave_accepted (some pubkey) _ left refl e1).0 h2
        | inr neither ↦ none-ArePlanned records (rw (plan_normal, other, neither) at h)
      ]
    ]
