-- ===== src/Groups/WritePolicy/Accepts.antt =====
-- Moderation and the whole write policy (policy.rs) against the specification.
use tangle.Common.{
  ◌==◌, ◌&&◌, not, >>=-eq-ok, ◌≡◌, refl, ◌≢◌, ◌⊎◌, inl, inr, ◌↔◌, true, false, Option, none, some,
  ok, err, arith, codes, nat_ord, list_ord, Bool-cases, Result-cases,
}
use tangle.Protocol.{PublicKeyHex, Kind}
use tangle.Groups.Errors.{blocked, direct_relay_generated_submission}
use tangle.Groups.Ids.{GroupId}
use tangle.Groups.Kinds.{remove_user, create_group, create_invite}
use tangle.Groups.EventView.{PocketEvent, event_pubkey}
use tangle.Groups.Roles.{Capability, capability_ord}
use tangle.Groups.Classification.{
  GroupEventClass, non_group, normal, moderation, relay_generated_snapshot,
}
use tangle.Groups.WriteGate.{GroupAuthContext, auth_contains, require_group_auth_as_author}
use tangle.Groups.Authority.{is_admin}
use tangle.Groups.WritePolicy.{
  GroupWritePolicy, Decision, accept, ignore_non_group, require_active_group, actor_capabilities,
  require_capability, target_pubkey, required_capability, require_optional_capability,
  check_normal_event, check_removal, check_moderation_event, check_event,
}
use tangle.Groups.WritePolicy.Spec.{
  IsAuthor, HasCapability, MayRemove, MayModerate, MayWriteModeration, MayWriteClass, MayWrite,
}
use tangle.Groups.WritePolicy.Decides.{
  create_sound, create_complete, normal_sound, normal_complete, IsActive-sound, IsActive-complete,
}

module _ (w : GroupWritePolicy) where
  abbrev Capable : GroupId → PublicKeyHex → Option Capability → Type 0
  Capable g actor required =
      (required ≡ none) ⊎ ((c : Capability) × (required ≡ some c) × HasCapability w g actor c)

  capability_sound :
      (g : GroupId) (actor : PublicKeyHex) (c : Capability)
      → require_capability w g actor c ≡ ok tt
      → HasCapability w g actor c
  unfolding require_capability
  capability_sound g actor c h = elim (Bool-cases (is_admin w.authority actor)) [
    | inl a ↦ inl a
    | inr a ↦ elim (Result-cases (actor_capabilities w g actor)) [
      | inr (x, e) ↦ absurd (ground arith)
      | inl (cs, e) ↦ inr (cs, e, ground arith)
    ]
  ]

  capability_complete :
      (g : GroupId) (actor : PublicKeyHex) (c : Capability)
      → HasCapability w g actor c
      → require_capability w g actor c ≡ ok tt
  unfolding require_capability
  capability_complete g actor c h = ground arith

  Capable-sound :
      (g : GroupId) (actor : PublicKeyHex) (required : Option Capability)
      → require_optional_capability w g actor required ≡ ok tt
      → Capable g actor required
  Capable-sound g actor none h = inl refl
  Capable-sound g actor (some c) h = inr (c, refl, capability_sound g actor c h)

  Capable-complete :
      (g : GroupId) (actor : PublicKeyHex) (required : Option Capability)
      → Capable g actor required
      → require_optional_capability w g actor required ≡ ok tt
  Capable-complete g actor none h = refl
  Capable-complete g actor (some c) h = ground (arith, capability_complete g actor c)

  removal_sound :
      (event : PocketEvent) (kind : Kind) (g : GroupId)
      → check_removal w event kind g ≡ ok tt
      → (kind ≢ remove_user) ⊎ MayRemove w event g
  unfolding check_removal
  removal_sound event kind g h = elim (Bool-cases (kind == remove_user)) [
    | inr k ↦ inl (ground arith)
    | inl k ↦ elim (Result-cases (target_pubkey event (codes "p"))) [
      | inr (x, e) ↦ absurd (ground arith)
      | inl (target, e) ↦ inr (target, e, ground arith)
    ]
  ]

  removal_complete :
      (event : PocketEvent) (kind : Kind) (g : GroupId)
      → (kind ≢ remove_user) ⊎ MayRemove w event g
      → check_removal w event kind g ≡ ok tt
  unfolding check_removal
  removal_complete event kind g h = ground arith

  moderate_complete :
      (event : PocketEvent) (kind : Kind) (g : GroupId)
      → kind ≢ create_group
      → MayModerate w event kind g
      → check_moderation_event w event kind g ≡ ok accept
  unfolding check_moderation_event
  moderate_complete event kind g k m = ground (
    arith,
    IsActive-complete w g m.group m.is_active,
    Capable-complete g m.actor m.required m.capable,
    removal_complete event kind g m.removal,
  )

  moderate_sound :
      (event : PocketEvent) (kind : Kind) (g : GroupId)
      → kind ≢ create_group
      → check_moderation_event w event kind g ≡ ok accept
      → MayModerate w event kind g
  unfolding check_moderation_event
  moderate_sound event kind g k h =
      let not_create : (kind == create_group) ≡ false = elim (Bool-cases (kind == create_group)) [
        | inl c ↦ absurd (ground arith)
        | inr c ↦ c
      ] in
      let (group, found, rest) = >>=-eq-ok (require_active_group w g) _ (rw not_create at h) in
      elim (Bool-cases (kind == create_invite && not w.policy.invites_enabled)) [
        | inl i ↦ absurd (ground arith)
        | inr i ↦
            let (actor, author, with_actor) = >>=-eq-ok (event_pubkey event) _ (rw i at rest) in
            let (required, requires, with_required) =
              >>=-eq-ok (required_capability kind event) _ with_actor in
            let (_, capable, with_capability) =
              >>=-eq-ok (require_optional_capability w g actor required) _ with_required in
            let (_, removal, edits) = >>=-eq-ok (check_removal w event kind g) _ with_capability in
            record {
              group = group;
              actor = actor;
              required = required;
              is_active = IsActive-sound w g group found;
              author = author;
              requires = requires;
              capable = Capable-sound g actor required capable;
              invites = ground arith;
              removal = removal_sound event kind g removal;
              edits = ground arith;
            }
      ]

  moderation_sound :
      (event : PocketEvent) (kind : Kind) (g : GroupId)
      → check_moderation_event w event kind g ≡ ok accept
      → MayWriteModeration w event kind g
  unfolding check_moderation_event
  moderation_sound event kind g h = elim (Bool-cases (kind == create_group)) [
    | inl c ↦ inl (ground arith, create_sound w event g (rw c at h))
    | inr c ↦ inr (ground arith, moderate_sound event kind g (ground arith) h)
  ]

  moderation_complete :
      (event : PocketEvent) (kind : Kind) (g : GroupId)
      → MayWriteModeration w event kind g
      → check_moderation_event w event kind g ≡ ok accept
  unfolding check_moderation_event
  moderation_complete event kind g (inl (k, m)) = ground (arith, create_complete w event g m)
  moderation_complete event kind g (inr (k, m)) = moderate_complete event kind g k m

  auth_sound :
      (event : PocketEvent) (class : GroupEventClass) (auth : GroupAuthContext)
      → class ≢ non_group
      → require_group_auth_as_author event class auth ≡ ok tt
      → (actor : PublicKeyHex) × IsAuthor w event actor × (auth_contains auth actor ≡ true)
  unfolding require_group_auth_as_author
  auth_sound event class auth c h = elim (Result-cases (event_pubkey event)) [
    | inl (actor, e) ↦ (actor, e, ground arith)
    | inr (x, e) ↦ absurd (ground arith)
  ]

  -- What `check_event` does once the author is known to be authenticated.
  abbrev check_class : PocketEvent → GroupEventClass → Decision
  check_class event non_group = ok ignore_non_group
  check_class event (relay_generated_snapshot kind g) =
      err (blocked direct_relay_generated_submission)
  check_class event (moderation kind g) = check_moderation_event w event kind g
  check_class event (normal g) = check_normal_event w event g

  class_sound :
      (event : PocketEvent) (class : GroupEventClass)
      → check_class event class ≡ ok accept
      → MayWriteClass w event class
  class_sound event non_group h = cc
  class_sound event (normal g) h = normal_sound w event g h
  class_sound event (moderation kind g) h = moderation_sound event kind g h
  class_sound event (relay_generated_snapshot kind g) h = cc

  event_sound :
      (event : PocketEvent) (class : GroupEventClass) (auth : GroupAuthContext)
      → check_event w event class auth ≡ ok accept
      → MayWrite w event class auth
  unfolding check_event
  event_sound event class auth h =
      let (_, authenticated, rest) =
        >>=-eq-ok (require_group_auth_as_author event class auth) _ h in
      let group_class : class ≢ non_group = λ c. ground arith in
      let (actor, author, inside) = auth_sound event class auth group_class authenticated in
      record {
        actor = actor;
        author = author;
        authenticated = inside;
        permitted = class_sound event class (ground arith);
      }

  event_complete :
      (event : PocketEvent) (class : GroupEventClass) (auth : GroupAuthContext)
      → MayWrite w event class auth
      → check_event w event class auth ≡ ok accept
  unfolding check_event require_group_auth_as_author
  event_complete event non_group auth m = absurd m.permitted
  event_complete event (normal g) auth m = ground (arith, normal_complete w event g m.permitted)
  event_complete event (moderation kind g) auth m =
      ground (arith, moderation_complete event kind g m.permitted)
  event_complete event (relay_generated_snapshot kind g) auth m = absurd m.permitted

  -- An event of a group is accepted exactly when its author authenticated on the connection and the
  -- rule for its class allows it: who may create, join, leave, post and moderate.
  pub check_event_iff :
      (event : PocketEvent) (class : GroupEventClass) (auth : GroupAuthContext)
      → (check_event w event class auth ≡ ok accept) ↔ MayWrite w event class auth
  check_event_iff event class auth = (event_sound event class auth, event_complete event class auth)
