-- ===== src/Groups/WritePolicy/Decides.antt =====
-- Creations, requests and posts (policy.rs) against their specification.
use tangle.Common.{
  ◌==◌, >>=-eq-ok, ◌≡◌, refl, inl, inr, some, ok, arith, nat_ord, list_ord, Bool-cases,
  Result-cases,
}
use tangle.Protocol.{Kind}
use tangle.Groups.Ids.{GroupId}
use tangle.Groups.Kinds.{join_request, leave_request}
use tangle.Groups.EventView.{PocketEvent, event_pubkey, event_kind}
use tangle.Groups.Roles.{capability_ord}
use tangle.Groups.Metadata.{SupportedKinds, unspecified_all, no_kinds, only}
use tangle.Groups.Projection.{GroupState, group_of}
use tangle.Groups.WritePolicy.{
  GroupWritePolicy, accept, require_active_group, check_create_group, check_join, check_leave,
  check_content, check_supported, check_normal_event,
}
use tangle.Groups.WritePolicy.Spec.{
  IsActive, MayCreate, MayJoin, MayLeave, MayPost, Supports, MayWriteNormal,
}

module _ (w : GroupWritePolicy) where
  pub create_sound :
      (event : PocketEvent) (g : GroupId)
      → check_create_group w event g ≡ ok accept
      → MayCreate w event g
  unfolding check_create_group
  create_sound event g h = elim (Result-cases (event_pubkey event)) [
    | inr (x, e) ↦ absurd (ground arith)
    | inl (actor, e) ↦ record {
      actor = actor;
      author = e;
      owner = ground arith;
      unburied = ground arith;
      new = ground arith;
    }
  ]

  pub create_complete :
      (event : PocketEvent) (g : GroupId)
      → MayCreate w event g
      → check_create_group w event g ≡ ok accept
  unfolding check_create_group
  create_complete event g m = ground arith

  leave_complete :
      (event : PocketEvent) (g : GroupId) → MayLeave w event g → check_leave w event g ≡ ok accept
  unfolding check_leave require_active_group
  leave_complete event g m = ground arith

  join_complete :
      (event : PocketEvent) (g : GroupId) → MayJoin w event g → check_join w event g ≡ ok accept
  unfolding check_join require_active_group
  join_complete event g m = ground arith

  supported_complete :
      (kinds : SupportedKinds) (kind : Kind)
      → Supports w kinds kind
      → check_supported w kinds kind ≡ ok accept
  supported_complete unspecified_all kind h = refl
  supported_complete no_kinds kind h = absurd h
  supported_complete (only kinds) kind h = ground arith

  supported_sound :
      (kinds : SupportedKinds) (kind : Kind)
      → check_supported w kinds kind ≡ ok accept
      → Supports w kinds kind
  supported_sound unspecified_all kind h = tt
  supported_sound no_kinds kind h = cc
  supported_sound (only kinds) kind h = ground arith

  post_complete :
      (event : PocketEvent) (g : GroupId) (group : GroupState)
      → MayPost w event g
      → group_of w.projection g ≡ some group
      → check_content w event g group ≡ ok accept
  unfolding check_content
  post_complete event g group m e =
      ground (arith, supported_complete group.metadata.supported_kinds m.kind)

  -- An active group is what the test of the source finds.
  pub IsActive-sound :
      (g : GroupId) (group : GroupState) → require_active_group w g ≡ ok group → IsActive w g group
  unfolding require_active_group
  IsActive-sound g group h = record {
    found = ground arith;
    alive = ground arith;
    unburied = ground arith;
  }

  pub IsActive-complete :
      (g : GroupId) (group : GroupState) → IsActive w g group → require_active_group w g ≡ ok group
  unfolding require_active_group
  IsActive-complete g group i = ground arith

  join_sound :
      (event : PocketEvent) (g : GroupId) → check_join w event g ≡ ok accept → MayJoin w event g
  unfolding check_join
  join_sound event g h =
      let (group, active_group, rest) = >>=-eq-ok (require_active_group w g) _ h in
      let (actor, author, tests) = >>=-eq-ok (event_pubkey event) _ rest in
      record {
        group = group;
        actor = actor;
        is_active = IsActive-sound g group active_group;
        author = author;
        outside = ground arith;
        open_group = ground arith;
        public_join = ground arith;
      }

  leave_sound :
      (event : PocketEvent) (g : GroupId) → check_leave w event g ≡ ok accept → MayLeave w event g
  unfolding check_leave
  leave_sound event g h =
      let (group, active_group, rest) = >>=-eq-ok (require_active_group w g) _ h in
      let (actor, author, tests) = >>=-eq-ok (event_pubkey event) _ rest in
      record {
        group = group;
        actor = actor;
        is_active = IsActive-sound g group active_group;
        author = author;
        inside = ground arith;
      }

  post_sound :
      (event : PocketEvent) (g : GroupId) (group : GroupState)
      → IsActive w g group
      → check_content w event g group ≡ ok accept
      → MayPost w event g
  unfolding check_content
  post_sound event g group i h =
      let (actor, author, tests) = >>=-eq-ok (event_pubkey event) _ h in
      elim (Result-cases (event_kind event)) [
        | inr (x, e) ↦ absurd (ground arith)
        | inl (kind, e) ↦ record {
          group = group;
          actor = actor;
          kind = kind;
          is_active = i;
          author = author;
          kind_of = e;
          admitted = ground arith;
          supported = supported_sound group.metadata.supported_kinds kind (ground arith);
        }
      ]

  pub normal_sound :
      (event : PocketEvent) (g : GroupId)
      → check_normal_event w event g ≡ ok accept
      → MayWriteNormal w event g
  unfolding check_normal_event
  normal_sound event g h =
      let (group, active_group, rest) = >>=-eq-ok (require_active_group w g) _ h in
      elim (Bool-cases (event.kind_u32 == join_request)) [
        | inl j ↦ inl (ground arith, join_sound event g (rw j at rest))
        | inr j ↦ elim (Bool-cases (event.kind_u32 == leave_request)) [
          | inl l ↦ inr (inl (ground arith, leave_sound event g (rw (j, l) at rest)))
          | inr l ↦ inr (
              inr (
                ground arith,
                ground arith,
                post_sound event g group (IsActive-sound g group active_group) (rw (j, l) at rest),
              ))
        ]
      ]

  pub normal_complete :
      (event : PocketEvent) (g : GroupId)
      → MayWriteNormal w event g
      → check_normal_event w event g ≡ ok accept
  unfolding check_normal_event
  normal_complete event g (inl (k, m)) =
      rw (IsActive-complete g m.group m.is_active) (ground (arith, join_complete event g m))
  normal_complete event g (inr (inl (k, m))) =
      rw (IsActive-complete g m.group m.is_active) (ground (arith, leave_complete event g m))
  normal_complete event g (inr (inr (j, k, m))) =
      rw (IsActive-complete g m.group m.is_active)
        (ground (arith, post_complete event g m.group m (m.is_active.found)))
