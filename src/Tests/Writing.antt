-- ===== src/Tests/Writing.antt =====
-- The write policy on concrete groups.
use tangle.Common.{◌≡◌, ◌≢◌, ◌↔◌, refl, true, false, some, List, [], ◌∷◌, ok, err}
use tangle.Groups.Config.{GroupPolicyConfig}
use tangle.Groups.Errors.{restricted, missing_capability}
use tangle.Groups.EventView.{PocketEvent}
use tangle.Groups.Roles.{find_label, resolve_loop, resolve_capabilities}
use tangle.Groups.Projection.{GroupTombstone, tombstone_of}
use tangle.Groups.Projection.Rebuild.{
  CanonicalGroupEvent, ProjectionRebuildReport, empty_report, rebuild_loop,
}
use tangle.Groups.Classification.{moderation, normal, class_group_id}
use tangle.Groups.WriteGate.{GroupAuthContext, require_group_auth_as_author}
use tangle.Groups.Authority.{GroupAuthority}
use tangle.Groups.WritePolicy.{
  GroupWritePolicy, accept, check_event, check_moderation_event, check_normal_event,
  check_create_group, check_join, check_leave, check_content, check_removal, require_active_group,
  require_capability, actor_capabilities, group_definitions, required_capability, target_pubkey,
  has_role_tag, is_current_member, is_protected_admin, has_relay_override, can_read_group,
}
use tangle.Groups.WritePolicy.Spec.{MayWrite}
use tangle.Groups.WritePolicy.Accepts.{check_event_iff}
use tangle.Groups.WritePolicy.Deleted.{deleted_is_final}
use tangle.Tests.{
  projecting, limits, created, admitted, expelled, erased, farm, owner, guest, report_of,
  farm_event,
}

unfoldable pub writing : Unit {0}
unfolding projecting find_label resolve_loop resolve_capabilities require_group_auth_as_author
    check_event check_moderation_event check_normal_event check_create_group check_join check_leave
    check_content check_removal require_active_group require_capability actor_capabilities
    group_definitions required_capability target_pubkey has_role_tag is_current_member
    is_protected_admin has_relay_override can_read_group
writing = tt

abbrev pub authority : GroupAuthority
authority = record { owner_pubkeys = owner ∷ []; admin_pubkeys = [] }

abbrev pub open_join : GroupPolicyConfig
open_join = record { public_join = true; invites_enabled = false }

abbrev after : List CanonicalGroupEvent → ProjectionRebuildReport
unfolding projecting
after items = report_of (rebuild_loop limits empty_report items)

abbrev policy_after : List CanonicalGroupEvent → GroupWritePolicy
policy_after items = record {
  projection = (after items).projection;
  authority = authority;
  policy = open_join;
}

abbrev pub logged_in : GroupAuthContext
logged_in = record { authenticated_pubkeys = owner ∷ guest ∷ [] }

abbrev remove_guest : PocketEvent
remove_guest = expelled.event

policy_tests :
    (check_event
        (policy_after (created ∷ admitted ∷ []))
        remove_guest
        (moderation 9001 farm)
        logged_in
      ≡ ok accept)
    × (check_event
          (policy_after (created ∷ admitted ∷ []))
          (farm_event b'9' 9001 50 guest [])
          (moderation 9001 farm)
          logged_in
        ≡ err (restricted missing_capability))
    × (check_event
          (policy_after (created ∷ []))
          (farm_event b'9' 9021 50 guest [])
          (normal farm)
          logged_in
        ≡ ok accept)
unfolding writing
policy_tests = (refl, refl, refl)

check_event_iff_example :
    (check_event
        (policy_after (created ∷ admitted ∷ []))
        remove_guest
        (moderation 9001 farm)
        logged_in
      ≡ ok accept)
    ↔ MayWrite
        (policy_after (created ∷ admitted ∷ []))
        remove_guest
        (moderation 9001 farm)
        logged_in
check_event_iff_example =
    check_event_iff (policy_after (created ∷ admitted ∷ [])) remove_guest (moderation 9001 farm)
      logged_in

abbrev before_revival : ProjectionRebuildReport
before_revival = after (created ∷ erased ∷ [])

abbrev revived : ProjectionRebuildReport
unfolding projecting
revived = report_of (rebuild_loop limits before_revival (created ∷ admitted ∷ []))

abbrev erased_tombstone : GroupTombstone
erased_tombstone = record {
  group_id = farm;
  delete_event_id = erased.event.id_hex;
  deleted_at = 40;
  deleted_by = owner;
  last_tuple = record { created_at = 40; event_id = erased.event.id_hex; store_offset = 4 };
}

buried : tombstone_of before_revival.projection farm ≡ some erased_tombstone
unfolding projecting
buried = refl

revival_runs : rebuild_loop limits before_revival (created ∷ admitted ∷ []) ≡ ok revived
unfolding projecting
revival_runs = refl

classed : class_group_id (moderation 9007 farm) ≡ some farm
unfolding projecting
classed = refl

deleted_is_final_example :
    check_event
      (record { projection = revived.projection; authority = authority; policy = open_join })
      created.event
      (moderation 9007 farm)
      logged_in
    ≢ ok accept
deleted_is_final_example =
    deleted_is_final limits (created ∷ admitted ∷ []) before_revival revived farm erased_tombstone
      buried revival_runs authority open_join created.event (moderation 9007 farm) logged_in classed
