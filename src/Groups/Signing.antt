-- ===== src/Groups/Signing.antt =====
-- crates/tangle_groups/src/signing.rs: the payloads of the events that the relay generates. The
-- signer and the encoding of tags are of libraries: what is modelled asks only whether the encoding
-- of tags accepts them.
pub mod Snapshot
pub mod Listed
pub mod Printed
pub mod Stays
use tangle.Common.{
  ℕ, zero, suc, ◌+◌, Bool, true, false, ◌&&◌, Option, none, some, List, [], ◌∷◌, ◌++◌, map, Result,
  ok, err, ok_or, leb, ◌>>=◌, ◌>>◌, Text, codes, length, eqb, list_ord, nat_ord, pair_ord, ltb,
  if◌then◌else◌, BTreeMap, BTreeSet, add, extend, contains, to_set, sort_by,
}
use Prim.Native.Nat.{◌/◌, ◌%◌}
use tangle.Protocol.{PublicKeyHex, UnixTimestamp, Kind}
use tangle.Groups.Errors.{GroupError, internal}
use tangle.Groups.EventView.{PocketEvent}
use tangle.Groups.Ids.{GroupId}
use tangle.Groups.Kinds.{group_metadata, group_admins, group_members, put_user, remove_user}
use tangle.Groups.Roles.{RoleName, permanent_relay_override_role}
use tangle.Groups.Metadata.{GroupMetadata, SupportedKinds, unspecified_all, no_kinds, only}
use tangle.Groups.Authority.{GroupAuthority}
use tangle.Groups.Projection.{GroupState, MemberState, GroupProjection, member, removed}
use tangle.Groups.WritePolicy.{is_member_status}
use tangle.Groups.Outbox.{GroupOutboxPayload}

-- `u32::to_string`. Each division by ten lowers the number, so the number itself bounds the digits.
unfoldable pub digits : ℕ → ℕ → Text
digits zero n = []
digits (suc fuel) n =
    let rest = digits fuel (n / 10) in
    if ltb n 10 then (b'0' + n) ∷ [] else rest ++ (b'0' + n % 10) ∷ []

abbrev pub decimal : ℕ → Text
decimal n = digits (n + 1) n

abbrev pub text_tag : Text → Option Text → List (List Text)
text_tag name none = []
text_tag name (some value) = (name ∷ value ∷ []) ∷ []

abbrev pub flag_tag : Text → Bool → List (List Text)
flag_tag name false = []
flag_tag name true = (name ∷ []) ∷ []

abbrev pub kinds_tag : SupportedKinds → List (List Text)
kinds_tag unspecified_all = []
kinds_tag no_kinds = (codes "supported_kinds" ∷ []) ∷ []
kinds_tag (only kinds) = (codes "supported_kinds" ∷ map decimal kinds) ∷ []

-- The vector that the statements push to.
unfoldable pub pushed_tags : GroupId → GroupMetadata → List (List Text)
pushed_tags group_id metadata =
    (codes "d" ∷ group_id ∷ []) ∷ text_tag (codes "name") metadata.name
    ++ (text_tag (codes "picture") metadata.picture
        ++ (text_tag (codes "about") metadata.about
            ++ (flag_tag (codes "private") metadata.private
                ++ (flag_tag (codes "restricted") metadata.restricted
                    ++ (flag_tag (codes "hidden") metadata.hidden
                        ++ (flag_tag (codes "closed") metadata.closed
                            ++ kinds_tag metadata.supported_kinds))))))

abbrev pub new_payload : ℕ → UnixTimestamp → List (List Text) → GroupOutboxPayload
new_payload kind created_at tags = record {
  generated_kind = kind;
  generated_created_at = created_at;
  tags = tags;
  content = [];
}

-- `PocketOwnedTags::new` accepts the tags.
module _ (encodes : List (List Text) → Bool) where
  unfoldable pub validate_pocket_tags : List (List Text) → Result GroupError (Unit {0})
  validate_pocket_tags tags = if encodes tags then ok tt else err internal

  unfoldable pub metadata_tags : GroupId → GroupMetadata → Result GroupError (List (List Text))
  unfolding validate_pocket_tags pushed_tags
  metadata_tags group_id metadata = do
    validate_pocket_tags (pushed_tags group_id metadata)
    ok (pushed_tags group_id metadata)

  unfoldable pub metadata_snapshot_payload :
      GroupState → UnixTimestamp → Result GroupError GroupOutboxPayload
  unfolding metadata_tags
  metadata_snapshot_payload group created_at = do
    tags ← metadata_tags group.id group.metadata
    ok (new_payload group_metadata created_at tags)

abbrev pub pubkey_tags : GroupId → List PublicKeyHex → List (List Text)
pubkey_tags group_id pubkeys =
    (codes "d" ∷ group_id ∷ []) ∷ map (λ pubkey. codes "p" ∷ pubkey ∷ []) pubkeys

abbrev pub is_override_member : MemberState → Bool
is_override_member m =
    is_member_status m && contains {K = RoleName} permanent_relay_override_role m.roles

-- The loop over the members of the projection.
unfoldable pub add_override_members :
    GroupId
    → BTreeSet PublicKeyHex
    → BTreeMap (GroupId × PublicKeyHex) MemberState
    → BTreeSet PublicKeyHex
add_override_members group_id admins [] = admins
add_override_members group_id admins (((candidate_group, pubkey), m) ∷ members) =
    add_override_members group_id
      (if eqb candidate_group group_id && is_override_member m then add pubkey admins else admins)
      members

unfoldable pub snapshot_admins : GroupId → GroupProjection → GroupAuthority → BTreeSet PublicKeyHex
unfolding add_override_members
snapshot_admins group_id projection authority =
    add_override_members group_id (extend (to_set authority.owner_pubkeys) authority.admin_pubkeys)
      projection.members

unfoldable pub admin_list_snapshot_payload :
    GroupId → GroupProjection → GroupAuthority → UnixTimestamp → GroupOutboxPayload
unfolding snapshot_admins
admin_list_snapshot_payload group_id projection authority created_at =
    new_payload group_admins created_at
      (pubkey_tags group_id (snapshot_admins group_id projection authority))

-- `filter` and `map` over the members of the projection.
unfoldable pub current_members :
    GroupId → BTreeMap (GroupId × PublicKeyHex) MemberState → List PublicKeyHex
current_members group_id [] = []
current_members group_id (((candidate_group, pubkey), m) ∷ members) =
    let rest = current_members group_id members in
    if eqb candidate_group group_id && is_member_status m then pubkey ∷ rest else rest

unfoldable pub member_list_snapshot_payload :
    GroupId → GroupProjection → UnixTimestamp → ℕ → Option GroupOutboxPayload
unfolding current_members
member_list_snapshot_payload group_id projection created_at cap =
    let members = sort_by (λ (k : PublicKeyHex). k) (current_members group_id projection.members) in
    if ltb cap (length members)
    then none
    else some (new_payload group_members created_at (pubkey_tags group_id members))

unfoldable pub membership_payload :
    Kind → GroupId → PublicKeyHex → UnixTimestamp → GroupOutboxPayload
membership_payload kind group_id target_pubkey created_at =
    new_payload kind created_at
      ((codes "h" ∷ group_id ∷ []) ∷ (codes "p" ∷ target_pubkey ∷ []) ∷ [])

abbrev pub join_accepted_payload : GroupId → PublicKeyHex → UnixTimestamp → GroupOutboxPayload
join_accepted_payload = membership_payload put_user

abbrev pub leave_accepted_payload : GroupId → PublicKeyHex → UnixTimestamp → GroupOutboxPayload
leave_accepted_payload = membership_payload remove_user

-- What the library does: encoding tags, signing, and verifying an event.
pub record RelaySigner : Type 0 where
  pub public_key : PublicKeyHex
  pub encodes : List (List Text) → Bool
  pub sign : ℕ → List (List Text) → UnixTimestamp → Text → Option PocketEvent
  pub verifies : PocketEvent → Bool

abbrev pub u16_max : ℕ
u16_max = 0xffff

unfoldable pub sign_payload_pocket :
    RelaySigner → GroupOutboxPayload → Result GroupError PocketEvent
sign_payload_pocket signer payload = do
  if leb payload.generated_kind u16_max then ok tt else err internal
  if signer.encodes payload.tags then ok tt else err internal
  event ←
      ok_or
        (signer.sign payload.generated_kind payload.tags payload.generated_created_at
          payload.content)
        internal
  if signer.verifies event then ok event else err internal
