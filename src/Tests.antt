-- ===== src/Tests.antt =====
-- Concrete events and states on which the definitions are run and the theorems applied.
pub mod Projecting
pub mod Writing
pub mod Reading
pub mod Connecting
pub mod Limiting
pub mod Granting
pub mod Replaying
pub mod Failing
pub mod Serving
pub mod Publishing
pub mod Relaying
pub mod Sketching
use tangle.Common.{
  ℕ, ◌≡◌, refl, Bool, true, false, Option, none, some, List, [], ◌∷◌, map, Result, ok, err, ◌>>=◌,
  Text, codes, String, get, insert, contains, contains_key, remove,
}
use tangle.Protocol.{PublicKeyHex, new_event_id, new_public_key, new_kind, require_lowercase_hex}
use tangle.Groups.Errors.{GroupError}
use tangle.Groups.Config.{GroupLimitsConfig, GroupPolicyConfig}
use tangle.Groups.Ids.{GroupId, check_characters, validate_group_id, new_group_id_with_max_bytes}
use tangle.Groups.Kinds.{is_moderation_kind, is_user_request_kind, is_relay_generated_kind}
use tangle.Groups.EventView.{
  PocketEvent, event_id, event_pubkey, event_kind, is_indexable_tag_name, indexed_pair, from_pocket,
  visit, visit_tags,
}
use tangle.Groups.Tags.{
  has_group_identity_tag, take_group_id, extract_visitor, extract_group_tag, require_group_tag,
}
use tangle.Groups.Classification.{class_group_id, classify_tagged, classify_group_event}
use tangle.Groups.Metadata.{
  parse_text_tag, parse_digits, parse_u64, parse_kinds, parse_supported_kinds_tag, metadata_field,
  metadata_visitor, parse_group_metadata,
}
use tangle.Groups.Projection.{
  tuple_ord, set_for_kind, new_group_state, update_metadata, mark_deleted, put_group, put_member,
  put_role, put_tombstone, put_event_deletion, GroupProjection,
}
use tangle.Groups.Projection.Apply.{
  first_tag_value, role_tags, apply_member_status, apply_create_group, apply_edit_metadata,
  apply_delete_event, mark_group_deleted, apply_delete_group, apply_moderation_event,
  apply_metadata_snapshot, apply_other_snapshot, apply_snapshot_event, apply_canonical_event,
}
use tangle.Groups.Projection.Rebuild.{
  CanonicalGroupEvent, ProjectionRebuildReport, empty_report, sort_insert, sort_by_tuple,
  rebuild_step, rebuild_loop, rebuild_group_projection,
}

-- Unfolds what the projection computes with.
unfoldable pub projecting : Unit {0}
unfolding new_event_id new_public_key new_kind require_lowercase_hex check_characters
    validate_group_id new_group_id_with_max_bytes is_moderation_kind is_user_request_kind
    is_relay_generated_kind event_id event_pubkey event_kind is_indexable_tag_name indexed_pair
    from_pocket visit visit_tags has_group_identity_tag take_group_id extract_visitor
    extract_group_tag require_group_tag class_group_id classify_tagged classify_group_event
    parse_text_tag parse_digits parse_u64 parse_kinds parse_supported_kinds_tag metadata_field
    metadata_visitor parse_group_metadata tuple_ord set_for_kind new_group_state update_metadata
    mark_deleted put_group put_member put_role put_tombstone put_event_deletion first_tag_value
    role_tags apply_member_status apply_create_group apply_edit_metadata apply_delete_event
    mark_group_deleted apply_delete_group apply_moderation_event apply_metadata_snapshot
    apply_other_snapshot apply_snapshot_event apply_canonical_event sort_insert sort_by_tuple
    rebuild_step rebuild_loop rebuild_group_projection get insert contains remove
projecting = tt

abbrev pub limits : GroupLimitsConfig
limits = record {
  max_group_id_bytes = 64;
  max_group_tags_per_event = 8;
  max_supported_kinds = 32;
  max_member_list_pubkeys = 100;
  max_outbox_replay_batch = 50;
}

abbrev pub sixty_four : ℕ → Text
sixty_four c =
    let eight = λ (s : Text). c ∷ c ∷ c ∷ c ∷ c ∷ c ∷ c ∷ c ∷ s in
    eight (eight (eight (eight (eight (eight (eight (eight [])))))))

abbrev pub owner : PublicKeyHex
owner = sixty_four b'a'

abbrev pub guest : PublicKeyHex
guest = sixty_four b'b'

abbrev pub farm : GroupId
farm = codes "farm"

abbrev pub tag : List String → List (Option Text)
tag [] = []
tag (s ∷ strings) = some (codes s) ∷ tag strings

abbrev pub farm_event : ℕ → ℕ → ℕ → PublicKeyHex → List (List (Option Text)) → PocketEvent
farm_event id kind at author tags = record {
  id_hex = sixty_four id;
  pubkey_hex = author;
  kind_u32 = kind;
  created_at = at;
  raw_tags = some (tag ("h" ∷ "farm" ∷ []) ∷ tags);
}

abbrev pub stored : ℕ → PocketEvent → CanonicalGroupEvent
stored offset event = record { event = event; store_offset = offset }

abbrev pub created : CanonicalGroupEvent
created =
    stored 1 (farm_event b'1' 9007 10 owner (tag ("name" ∷ "Farm" ∷ []) ∷ tag ("hidden" ∷ []) ∷ []))

abbrev pub admitted : CanonicalGroupEvent
admitted = stored 2 (farm_event b'2' 9000 20 owner ((some (codes "p") ∷ some guest ∷ []) ∷ []))

abbrev pub expelled : CanonicalGroupEvent
expelled = stored 3 (farm_event b'3' 9001 30 owner ((some (codes "p") ∷ some guest ∷ []) ∷ []))

abbrev pub erased : CanonicalGroupEvent
erased = stored 4 (farm_event b'4' 9008 40 owner [])

abbrev pub report_of : Result GroupError ProjectionRebuildReport → ProjectionRebuildReport
report_of (ok r) = r
report_of (err e) = empty_report
