-- ===== src/Tests/Failing.antt =====
-- A concrete creation with a name that is too long: the write path, and a rebuild.
use tangle.Common.{◌≡◌, refl, ◌++◌, true, false, some, [], ◌∷◌, ok, err, here, there, codes, Text}
use tangle.Groups.Errors.{GroupError}
use tangle.Groups.Classification.{moderation}
use tangle.Groups.Tags.{ensure_group_tag_limit, group_identity_tag_count}
use tangle.Groups.WriteGate.{
  validate_client_group_event_structure, validate_moderation_targets, require_group_auth_as_author,
}
use tangle.Groups.WritePolicy.{accept, check_event, check_moderation_event, check_create_group}
use tangle.Groups.Projection.{new_projection}
use tangle.Groups.Projection.Rebuild.{CanonicalGroupEvent, rebuild_group_projection}
use tangle.Groups.Projection.Failing.{IsMalformedCreation, malformed_creation_stops_rebuild}
use tangle.Tests.{projecting, limits, admitted, farm, owner, farm_event, stored, sixty_four}

failing : Unit {0}
unfolding projecting ensure_group_tag_limit group_identity_tag_count
    validate_client_group_event_structure validate_moderation_targets require_group_auth_as_author
    check_event check_moderation_event check_create_group
failing = tt

-- A name of 129 bytes.
abbrev long_name : Text
long_name = b'x' ∷ (sixty_four b'x' ++ sixty_four b'x')

abbrev poison : CanonicalGroupEvent
poison = stored 7 (farm_event b'7' 9007 70 owner ((some (codes "name") ∷ some long_name ∷ []) ∷ []))

accepted_tests :
    (validate_client_group_event_structure poison.event limits ≡ ok (moderation 9007 farm))
    × (check_event
          (record {
            projection = new_projection;
            authority = record { owner_pubkeys = owner ∷ []; admin_pubkeys = [] };
            policy = record { public_join = true; invites_enabled = false };
          })
          poison.event
          (moderation 9007 farm)
          (record { authenticated_pubkeys = owner ∷ [] })
        ≡ ok accept)
unfolding failing
accepted_tests = (refl, refl)

is_malformed : IsMalformedCreation limits poison
unfolding failing
is_malformed = record {
  kind = 9007;
  group_id = farm;
  reason = _;
  class = refl;
  creates = refl;
  malformed = refl;
}

malformed_creation_stops_rebuild_example :
    (e : GroupError) × (rebuild_group_projection (admitted ∷ poison ∷ []) limits 99 ≡ err e)
malformed_creation_stops_rebuild_example =
    malformed_creation_stops_rebuild limits poison is_malformed (admitted ∷ poison ∷ []) 99
      (there (here refl))
