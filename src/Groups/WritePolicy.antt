-- ===== src/Groups/WritePolicy.antt =====
-- crates/tangle_groups/src/policy.rs: whether an event may be written to its group.
pub mod Spec
pub mod Decides
pub mod Accepts
pub mod Deleted
use tangle.Common.{
  ℕ, Bool, true, false, ◌||◌, ◌&&◌, not, Option, none, some, is_some, is_none_or, is_some_and, List,
  [], ◌∷◌, Result, ok, err, ◌>>=◌, ◌>>◌, ok_or, Text, codes, String, eqb, list_ord, nat_ord,
  pair_ord, ◌==◌, if◌then◌else◌, BTreeMap, BTreeSet, get, contains,
}
use tangle.Protocol.{PublicKeyHex, Kind, new_public_key}
use tangle.Groups.Errors.{
  GroupError, invalid, blocked, restricted, duplicate, map_err, missing_capability,
  group_unavailable, group_deleted, group_already_exists, duplicate_member, unsupported_group_kind,
  direct_relay_generated_submission, malformed_target_tag, missing_target_tag,
}
use tangle.Groups.Config.{GroupPolicyConfig}
use tangle.Groups.Ids.{GroupId}
use tangle.Groups.Kinds.{
  put_user, remove_user, edit_metadata, delete_event, create_group, delete_group, create_invite,
  join_request, leave_request,
}
use tangle.Groups.EventView.{
  PocketEvent, GroupEventTag, first_value, indexed_pair, visit_tags, event_pubkey, event_kind,
}
use tangle.Groups.Roles.{
  RoleName, RoleDefinition, Capability, CapabilitySet, capability_ord, manage_members, manage_roles,
  manage_metadata, delete_events, create_invites, permanent_relay_override_role,
  resolve_capabilities,
}
use tangle.Groups.Roles
use tangle.Groups.Metadata.{SupportedKinds, unspecified_all, no_kinds, only}
use tangle.Groups.Classification.{
  GroupEventClass, non_group, normal, moderation, relay_generated_snapshot,
}
use tangle.Groups.Projection.{
  GroupState, MemberState, MemberStatus, member, removed, ProjectedRoleDefinition, GroupProjection,
  GroupLifecycleState, active, deleted, group_of, member_of, tombstone_of,
}
use tangle.Groups.WriteGate.{GroupAuthContext, require_group_auth_as_author}
use tangle.Groups.Authority.{GroupAuthority, is_owner, is_admin, is_permanent_admin}

pub data GroupWriteDecision : Type 0 where
  accept ignore_non_group : GroupWriteDecision

pub record GroupWritePolicy : Type 0 where
  pub projection : GroupProjection
  pub authority : GroupAuthority
  pub policy : GroupPolicyConfig

abbrev pub Decision : Type 0
Decision = Result GroupError GroupWriteDecision

abbrev pub non_enumerating_group_error : GroupError
non_enumerating_group_error = restricted group_unavailable

abbrev pub is_member_status : MemberState → Bool
is_member_status m = elim m.status [ member ↦ true | removed ↦ false ]

abbrev pub is_deleted : GroupLifecycleState → Bool
is_deleted active = false
is_deleted deleted = true

unfoldable pub is_current_member : GroupProjection → GroupId → PublicKeyHex → Bool
is_current_member p group_id pubkey = is_some_and (member_of p group_id pubkey) is_member_status

unfoldable pub has_role_tag : PocketEvent → Result GroupError Bool
has_role_tag event = visit_tags event false λ found tag.
    ok (if is_some_and (first_value tag) (λ name. eqb name (codes "role")) then true else found)

-- `target_pubkey` checks every tag of the name, and the last one counts.
abbrev pubkey_visitor :
    Text → Option PublicKeyHex → GroupEventTag → Result GroupError (Option PublicKeyHex)
pubkey_visitor name found tag =
    if is_none_or (first_value tag) (λ tag_name. not (eqb tag_name name))
    then ok found
    else elim (indexed_pair tag) [
      | none ↦ err (invalid malformed_target_tag)
      | some (_, value) ↦ do
        pubkey ← map_err (invalid malformed_target_tag) (new_public_key value)
        ok (some pubkey)
    ]

unfoldable pub target_pubkey : PocketEvent → Text → Result GroupError PublicKeyHex
target_pubkey event name = do
  found ← visit_tags event none (pubkey_visitor name)
  ok_or found (invalid missing_target_tag)

unfoldable pub required_capability : Kind → PocketEvent → Result GroupError (Option Capability)
required_capability kind event =
    if kind == put_user
    then (do
      roles ← has_role_tag event
      ok (if roles then some manage_roles else some manage_members))
    else if kind == remove_user
    then ok (some manage_members)
    else if kind == edit_metadata
    then ok (some manage_metadata)
    else if kind == delete_event
    then ok (some delete_events)
    else if kind == delete_group
    then ok (some Roles.delete_group)
    else if kind == create_invite
    then ok (some create_invites)
    else ok none

-- The definitions of the roles of one group, in the order of the map.
unfoldable pub group_definitions :
    GroupId → BTreeMap (GroupId × RoleName) ProjectedRoleDefinition → List RoleDefinition
group_definitions group_id [] = []
group_definitions group_id (((candidate, name), role) ∷ roles) =
    let rest = group_definitions group_id roles in
    if eqb candidate group_id then role.definition ∷ rest else rest

module _ (w : GroupWritePolicy) where
  open w use {projection, authority, policy}

  unfoldable pub can_read_group : GroupId → Option PublicKeyHex → Bool
  unfolding is_current_member
  can_read_group group_id none = false
  can_read_group group_id (some reader) =
      is_admin authority reader || is_current_member projection group_id reader

  unfoldable pub has_relay_override : GroupId → PublicKeyHex → Bool
  has_relay_override group_id pubkey =
      if is_admin authority pubkey
      then true
      else is_some_and (member_of projection group_id pubkey)
          λ m. is_member_status m && contains permanent_relay_override_role m.roles

  unfoldable pub is_protected_admin : GroupId → PublicKeyHex → Bool
  unfolding has_relay_override
  is_protected_admin group_id pubkey =
      is_permanent_admin authority pubkey || has_relay_override group_id pubkey

  unfoldable pub require_active_group : GroupId → Result GroupError GroupState
  require_active_group group_id = elim (group_of projection group_id) [
    | none ↦ err non_enumerating_group_error
    | some group ↦
        if is_deleted group.lifecycle || is_some (tombstone_of projection group_id)
        then err (blocked group_deleted)
        else ok group
  ]

  unfoldable pub actor_capabilities : GroupId → PublicKeyHex → Result GroupError CapabilitySet
  actor_capabilities group_id actor = elim (member_of projection group_id actor) [
    | none ↦ ok []
    | some m ↦
        if not (is_member_status m)
        then ok []
        else resolve_capabilities (group_definitions group_id projection.roles) m.roles
  ]

  unfoldable pub require_capability :
      GroupId → PublicKeyHex → Capability → Result GroupError (Unit {0})
  require_capability group_id actor required = if is_admin authority actor then ok tt else (do
    capabilities ← actor_capabilities group_id actor
    if contains required capabilities then ok tt else err (restricted missing_capability))

  unfoldable pub check_create_group : PocketEvent → GroupId → Decision
  check_create_group event group_id = do
    pubkey ← event_pubkey event
    if not (is_owner authority pubkey)
        then err (restricted missing_capability)
        else if is_some (tombstone_of projection group_id)
        then err (blocked group_deleted)
        else if is_some (group_of projection group_id)
        then err (invalid group_already_exists)
        else ok accept

  unfoldable pub check_join : PocketEvent → GroupId → Decision
  check_join event group_id = do
    group ← require_active_group group_id
    pubkey ← event_pubkey event
    if is_current_member projection group_id pubkey
        then err (duplicate duplicate_member)
        else if group.metadata.closed || not policy.public_join
        then err non_enumerating_group_error
        else ok accept

  unfoldable pub check_leave : PocketEvent → GroupId → Decision
  check_leave event group_id = do
    group ← require_active_group group_id
    pubkey ← event_pubkey event
    if not (is_current_member projection group_id pubkey)
        then err (duplicate duplicate_member)
        else ok accept

  abbrev pub check_supported : SupportedKinds → Kind → Decision
  check_supported unspecified_all kind = ok accept
  check_supported no_kinds kind = err (restricted unsupported_group_kind)
  check_supported (only kinds) kind =
      if not (contains kind kinds) then err (restricted unsupported_group_kind) else ok accept

  unfoldable pub check_content : PocketEvent → GroupId → GroupState → Decision
  check_content event group_id group = do
    actor ← event_pubkey event
    if group.metadata.restricted && not (can_read_group group_id (some actor))
        then err non_enumerating_group_error
        else (do kind ← event_kind event; check_supported group.metadata.supported_kinds kind)

  unfoldable pub check_normal_event : PocketEvent → GroupId → Decision
  check_normal_event event group_id = do
    group ← require_active_group group_id
    if event.kind_u32 == join_request
        then check_join event group_id
        else if event.kind_u32 == leave_request
        then check_leave event group_id
        else check_content event group_id group

  abbrev pub require_optional_capability :
      GroupId → PublicKeyHex → Option Capability → Result GroupError (Unit {0})
  require_optional_capability group_id actor none = ok tt
  require_optional_capability group_id actor (some required) =
      require_capability group_id actor required

  unfoldable pub check_removal : PocketEvent → Kind → GroupId → Result GroupError (Unit {0})
  check_removal event kind group_id =
      if kind == remove_user
      then (do
        target ← target_pubkey event (codes "p")
        if is_protected_admin group_id target then err (restricted missing_capability) else ok tt)
      else ok tt

  unfoldable pub check_moderation_event : PocketEvent → Kind → GroupId → Decision
  check_moderation_event event kind group_id =
      if kind == create_group then check_create_group event group_id else (do
        group ← require_active_group group_id
        if kind == create_invite && not policy.invites_enabled
            then err (restricted missing_capability)
            else (do
              actor ← event_pubkey event
              required ← required_capability kind event
              require_optional_capability group_id actor required
              check_removal event kind group_id
              if kind == edit_metadata
                    && (group.metadata.hidden && not (can_read_group group_id (some actor)))
                  then err non_enumerating_group_error
                  else ok accept))

  unfoldable pub check_event : PocketEvent → GroupEventClass → GroupAuthContext → Decision
  check_event event class auth = do
    require_group_auth_as_author event class auth
    elim class [
      | non_group ↦ ok ignore_non_group
      | relay_generated_snapshot _ _ ↦ err (blocked direct_relay_generated_submission)
      | moderation kind group_id ↦ check_moderation_event event kind group_id
      | normal group_id ↦ check_normal_event event group_id
    ]
