-- ===== src/Tests/Publishing.antt =====
-- The snapshots of a concrete group, and the keys of the extra tables.
use tangle.Common.{
  ◌≤◌, ◌<◌, ◌≡◌, ◌⊎◌, ◌↔◌, refl, true, false, none, some, List, [], ◌∷◌, ok, codes, Text, length,
  is_some_and, In, InOrder, list_ord, nat_ord, pair_ord, arith,
}
use tangle.Protocol.{PublicKeyHex}
use tangle.Groups.EventView.{PocketEvent}
use tangle.Groups.Metadata.{GroupMetadata, parse_group_metadata, only}
use tangle.Groups.Projection.{GroupProjection, MemberState, member, new_projection, member_of}
use tangle.Groups.Authority.{is_admin}
use tangle.Groups.Kinds.{group_members}
use tangle.Groups.WritePolicy.{is_member_status}
use tangle.Groups.Outbox.{GroupOutboxKey, join_accepted}
use tangle.Groups.Signing.{
  metadata_tags, is_override_member, admin_list_snapshot_payload, current_members,
  member_list_snapshot_payload, new_payload, pubkey_tags,
}
use tangle.Groups.Signing.Snapshot.{encoded, parse_group_metadata-metadata_tags}
use tangle.Groups.Signing.Listed.{admin_list_snapshot_payload_lem, member_list_snapshot_payload_lem}
use tangle.Groups.StorageKeys.{prefixed_key, projection_key_parts}
use tangle.Groups.StorageKeys.Parts.{
  IsKey, projection_key_parts-prefixed_key, storage_key-injective,
}
use tangle.Tests.{limits, owner, guest, farm, farm_event, tag, sixty_four}
use tangle.Tests.Writing.{authority}
use tangle.Tests.Serving.{serving}

abbrev edited : PocketEvent
edited = farm_event b'5' 9002 20 owner (
    tag ("name" ∷ "Farm" ∷ [])
    ∷ tag ("closed" ∷ [])
    ∷ tag ("supported_kinds" ∷ "11" ∷ "9" ∷ [])
    ∷ [])

abbrev farm_metadata : GroupMetadata
farm_metadata = record {
  name = some (codes "Farm");
  picture = none;
  about = none;
  private = false;
  restricted = false;
  hidden = false;
  closed = true;
  supported_kinds = only (9 ∷ 11 ∷ []);
}

edited_metadata : parse_group_metadata edited limits ≡ ok farm_metadata
unfolding serving
edited_metadata = refl

abbrev farm_tags : List (List Text)
farm_tags =
    (codes "d" ∷ farm ∷ [])
    ∷ (codes "name" ∷ codes "Farm" ∷ [])
    ∷ (codes "closed" ∷ [])
    ∷ (codes "supported_kinds" ∷ codes "9" ∷ codes "11" ∷ [])
    ∷ []

published : metadata_tags (λ tags. true) farm farm_metadata ≡ ok farm_tags
unfolding serving
published = refl

abbrev snapshot : PocketEvent
snapshot = record (farm_event b'6' 39000 20 owner []) { raw_tags = some (encoded farm_tags) }

parse_group_metadata-metadata_tags_example : parse_group_metadata snapshot limits ≡ ok farm_metadata
parse_group_metadata-metadata_tags_example =
    parse_group_metadata-metadata_tags (λ tags. true) limits edited snapshot farm farm_metadata
      farm_tags edited_metadata published refl

abbrev promoted : MemberState
promoted = record {
  pubkey = guest;
  status = member;
  roles = codes "relay_owner" ∷ [];
  last_event_id = sixty_four b'7';
  last_tuple = record { created_at = 5; event_id = sixty_four b'7'; store_offset = 8 };
}

abbrev with_guest : GroupProjection
with_guest = record new_projection { members = ((farm, guest), promoted) ∷ [] }

admin_list_snapshot_payload_lem_example :
    In (codes "p" ∷ guest ∷ []) (admin_list_snapshot_payload farm with_guest authority 10).tags ↔ (
      (is_admin authority guest ≡ true)
      ⊎ (is_some_and (member_of with_guest farm guest) is_override_member ≡ true))
admin_list_snapshot_payload_lem_example =
    admin_list_snapshot_payload_lem farm with_guest authority 10 guest (tt, tt)

member_list_snapshot_payload_lem_example :
    (5 < length (current_members farm with_guest.members)
      × (member_list_snapshot_payload farm with_guest 10 5 ≡ none))
    ⊎ ((members : List PublicKeyHex) × (member_list_snapshot_payload farm with_guest 10 5
          ≡ some (new_payload group_members 10 (pubkey_tags farm members)))
        × (length members ≤ 5)
        × (length members ≡ length (current_members farm with_guest.members))
        × InOrder (λ (k : PublicKeyHex). k) members
        × ((pubkey : PublicKeyHex)
            → In pubkey members
              ↔ (is_some_and (member_of with_guest farm pubkey) is_member_status ≡ true)))
member_list_snapshot_payload_lem_example =
    member_list_snapshot_payload_lem farm with_guest 10 5 (tt, tt)

projection_key_parts-prefixed_key_example :
    projection_key_parts (prefixed_key (codes "member") farm (some (codes "ab")))
    ≡ codes "member" ∷ farm ∷ codes "ab" ∷ []
projection_key_parts-prefixed_key_example =
    projection_key_parts-prefixed_key (codes "member") farm (some (codes "ab")) (ground arith)
      (ground arith) (ground arith)

abbrev join_key : GroupOutboxKey
join_key = record {
  source_event_id = codes "1f";
  effect = join_accepted;
  group_id = farm;
  target_pubkey = some (codes "ab");
}

join_key-IsKey : IsKey join_key
join_key-IsKey = record {
  source = ground arith;
  group = ground arith;
  target = ground arith;
  target_named = λ e. cc e;
}

storage_key-injective_example : join_key ≡ join_key
storage_key-injective_example =
    storage_key-injective join_key join_key join_key-IsKey join_key-IsKey refl
