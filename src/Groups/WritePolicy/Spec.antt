-- ===== src/Groups/WritePolicy/Spec.antt =====
-- What the write policy promises, stated without its order of tests: who may write what to a group.
use tangle.Common.{
  ◌≡◌, ◌≢◌, ◌⊎◌, true, false, Option, none, some, ok, codes, contains, nat_ord, list_ord,
}
use tangle.Protocol.{PublicKeyHex, Kind}
use tangle.Groups.Ids.{GroupId}
use tangle.Groups.Kinds.{
  remove_user, edit_metadata, create_group, create_invite, join_request, leave_request,
}
use tangle.Groups.EventView.{PocketEvent, event_pubkey, event_kind}
use tangle.Groups.Roles.{Capability, CapabilitySet, capability_ord}
use tangle.Groups.Metadata.{SupportedKinds, unspecified_all, no_kinds, only}
use tangle.Groups.Classification.{
  GroupEventClass, non_group, normal, moderation, relay_generated_snapshot,
}
use tangle.Groups.Projection.{GroupState, active, group_of, tombstone_of}
use tangle.Groups.WriteGate.{GroupAuthContext, auth_contains}
use tangle.Groups.Authority.{is_owner, is_admin}
use tangle.Groups.WritePolicy.{
  GroupWritePolicy, is_current_member, can_read_group, is_protected_admin, actor_capabilities,
  target_pubkey, required_capability,
}

module _ (w : GroupWritePolicy) where
  -- The group is there and neither it nor its tombstone says that it was deleted.
  pub record IsActive (g : GroupId) (group : GroupState) : Type 0 where
    pub found : group_of w.projection g ≡ some group
    pub alive : group.lifecycle ≡ active
    pub unburied : tombstone_of w.projection g ≡ none

  -- The author of the event.
  abbrev pub IsAuthor : PocketEvent → PublicKeyHex → Type 0
  IsAuthor event actor = event_pubkey event ≡ ok actor

  abbrev pub HasCapability : GroupId → PublicKeyHex → Capability → Type 0
  HasCapability g actor c =
      (is_admin w.authority actor ≡ true)
      ⊎ ((cs : CapabilitySet) × (actor_capabilities w g actor ≡ ok cs) × (contains c cs ≡ true))

  pub record MayCreate (event : PocketEvent) (g : GroupId) : Type 0 where
    pub actor : PublicKeyHex
    pub author : IsAuthor event actor
    pub owner : is_owner w.authority actor ≡ true
    pub unburied : tombstone_of w.projection g ≡ none
    pub new : group_of w.projection g ≡ none

  pub record MayJoin (event : PocketEvent) (g : GroupId) : Type 0 where
    pub group : GroupState
    pub actor : PublicKeyHex
    pub is_active : IsActive g group
    pub author : IsAuthor event actor
    pub outside : is_current_member w.projection g actor ≡ false
    pub open_group : group.metadata.closed ≡ false
    pub public_join : w.policy.public_join ≡ true

  pub record MayLeave (event : PocketEvent) (g : GroupId) : Type 0 where
    pub group : GroupState
    pub actor : PublicKeyHex
    pub is_active : IsActive g group
    pub author : IsAuthor event actor
    pub inside : is_current_member w.projection g actor ≡ true

  abbrev pub Supports : SupportedKinds → Kind → Type 0
  Supports unspecified_all kind = Unit {0}
  Supports no_kinds kind = ⊥
  Supports (only kinds) kind = contains kind kinds ≡ true

  pub record MayPost (event : PocketEvent) (g : GroupId) : Type 0 where
    pub group : GroupState
    pub actor : PublicKeyHex
    pub kind : Kind
    pub is_active : IsActive g group
    pub author : IsAuthor event actor
    pub kind_of : event_kind event ≡ ok kind
    pub admitted : (group.metadata.restricted ≡ false) ⊎ (can_read_group w g (some actor) ≡ true)
    pub supported : Supports group.metadata.supported_kinds kind

  abbrev pub MayRemove : PocketEvent → GroupId → Type 0
  MayRemove event g =
      (target : PublicKeyHex) × (target_pubkey event (codes "p") ≡ ok target)
      × (is_protected_admin w g target ≡ false)

  pub record MayModerate (event : PocketEvent) (kind : Kind) (g : GroupId) : Type 0 where
    pub group : GroupState
    pub actor : PublicKeyHex
    pub required : Option Capability
    pub is_active : IsActive g group
    pub author : IsAuthor event actor
    pub requires : required_capability kind event ≡ ok required
    pub capable :
        (required ≡ none) ⊎ ((c : Capability) × (required ≡ some c) × HasCapability g actor c)
    pub invites : (kind ≢ create_invite) ⊎ (w.policy.invites_enabled ≡ true)
    pub removal : (kind ≢ remove_user) ⊎ MayRemove event g
    pub edits :
        (kind ≢ edit_metadata)
        ⊎ (group.metadata.hidden ≡ false)
        ⊎ (can_read_group w g (some actor) ≡ true)

  -- Requests to join and to leave have rules of their own.
  abbrev pub MayWriteNormal : PocketEvent → GroupId → Type 0
  MayWriteNormal event g =
      ((event.kind_u32 ≡ join_request) × MayJoin event g)
      ⊎ ((event.kind_u32 ≡ leave_request) × MayLeave event g)
      ⊎ ((event.kind_u32 ≢ join_request) × (event.kind_u32 ≢ leave_request) × MayPost event g)

  abbrev pub MayWriteModeration : PocketEvent → Kind → GroupId → Type 0
  MayWriteModeration event kind g =
      ((kind ≡ create_group) × MayCreate event g)
      ⊎ ((kind ≢ create_group) × MayModerate event kind g)

  abbrev pub MayWriteClass : PocketEvent → GroupEventClass → Type 0
  MayWriteClass event non_group = ⊥
  MayWriteClass event (normal g) = MayWriteNormal event g
  MayWriteClass event (moderation kind g) = MayWriteModeration event kind g
  MayWriteClass event (relay_generated_snapshot kind g) = ⊥

  -- The author authenticated on the connection, and the rule of the class holds.
  pub record MayWrite (event : PocketEvent) (class : GroupEventClass) (auth : GroupAuthContext)
      : Type 0 where
    pub actor : PublicKeyHex
    pub author : IsAuthor event actor
    pub authenticated : auth_contains auth actor ≡ true
    pub permitted : MayWriteClass event class
