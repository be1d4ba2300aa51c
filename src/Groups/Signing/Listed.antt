-- ===== src/Groups/Signing/Listed.antt =====
-- Who the snapshots of administrators and of members list (signing.rs).
use tangle.Common.{
  ℕ, ◌≤◌, ◌<◌, ◌≡◌, refl, sym, subst, ap, ◌↔◌, ◌⊎◌, inl, inr, Bool, true, ◌&&◌, ◌||◌, none, some,
  is_some_and, List, [], ◌∷◌, eqb, eqb_iff, list_ord, nat_ord, pair_ord, ltb, length, if◌then◌else◌,
  BTreeMap, BTreeSet, add, extend, contains, contains-extend, to_set, sort_by, length-sort_by,
  In-sort_by, InOrder, sort_by-InOrder, Bool-cases, Option-cases, arith, IsSorted, map, codes, Text,
  contains-In, In-contains, In-get, In, here, there, In-uncons,
}
use tangle.Protocol.{PublicKeyHex, UnixTimestamp}
use tangle.Groups.Ids.{GroupId}
use tangle.Groups.Kinds.{group_members}
use tangle.Groups.Authority.{GroupAuthority, is_admin}
use tangle.Groups.Projection.{MemberState, GroupProjection, member_of}
use tangle.Groups.WritePolicy.{is_member_status}
use tangle.Groups.Signing.{
  pubkey_tags, new_payload, is_override_member, add_override_members, snapshot_admins,
  admin_list_snapshot_payload, current_members, member_list_snapshot_payload,
}

abbrev pub Members : Type 0
Members = BTreeMap (GroupId × PublicKeyHex) MemberState

-- A member of the group that has the property.
abbrev pub Listed : (MemberState → Bool) → GroupId → PublicKeyHex → Members → Type 0
Listed p group_id pubkey members =
    (m : MemberState) × In ((group_id, pubkey), m) members × (p m ≡ true)

unfoldable chosen : (MemberState → Bool) → GroupId → Members → List PublicKeyHex
chosen p group_id [] = []
chosen p group_id (((candidate_group, pubkey), m) ∷ members) =
    let rest = chosen p group_id members in
    if eqb candidate_group group_id && p m then pubkey ∷ rest else rest

current_members-eq-chosen :
    (group_id : GroupId) (members : Members)
    → current_members group_id members ≡ chosen is_member_status group_id members
unfolding current_members chosen
current_members-eq-chosen group_id [] = refl
current_members-eq-chosen group_id (((g, k), m) ∷ members) =
    rw (current_members-eq-chosen group_id members) refl

add_override_members-eq-extend :
    (group_id : GroupId) (members : Members) (admins : BTreeSet PublicKeyHex)
    → add_override_members group_id admins members
      ≡ extend admins (chosen is_override_member group_id members)
unfolding add_override_members chosen extend
add_override_members-eq-extend group_id [] admins = refl
add_override_members-eq-extend group_id (((g, k), m) ∷ members) admins =
    elim (Bool-cases (eqb g group_id && is_override_member m)) [
      | inl e ↦ rw e (add_override_members-eq-extend group_id members (add k admins))
      | inr e ↦ rw e (add_override_members-eq-extend group_id members admins)
    ]

module _ (p : MemberState → Bool) (group_id : GroupId) (pubkey : PublicKeyHex) where
  into_rest :
      (entry : (GroupId × PublicKeyHex) × MemberState) (members : Members)
      → Listed p group_id pubkey members
      → Listed p group_id pubkey (entry ∷ members)
  into_rest entry members (m, n, e) = (m, there n, e)

  In-chosen :
      (members : Members) → In pubkey (chosen p group_id members) ↔ Listed p group_id pubkey members
  unfolding chosen
  In-chosen [] = (λ n. elim n [ ], λ (m, n, e). elim n [ ])
  In-chosen (((g, k), m) ∷ members) =
      let (into, from) = In-chosen members in
      elim (Bool-cases (eqb g group_id && p m)) [
        | inl e ↦
            let same_group : g ≡ group_id = (eqb_iff g group_id).0 (ground arith) in
            rw e (
              λ n. elim (In-uncons n) [
                | inl same_key ↦ (m, here (rw (same_group, same_key) refl), ground arith)
                | inr later ↦ into_rest ((g, k), m) members (into later)
              ],
              λ (m', n, f). elim (In-uncons n) [
                | inl same ↦ here (ap (λ (x : (GroupId × PublicKeyHex) × MemberState). x.0.1) same)
                | inr later ↦ there (from (m', later, f))
              ],
            )
        | inr e ↦ rw e (
          λ n. into_rest ((g, k), m) members (into n),
          λ (m', n, f). elim (In-uncons n) [
            | inl same ↦
                let same_group : g ≡ group_id =
                  ap (λ (x : (GroupId × PublicKeyHex) × MemberState). x.0.0) same in
                let same_state : m ≡ m' =
                  ap (λ (x : (GroupId × PublicKeyHex) × MemberState). x.1) same in
                absurd (ground (arith, (eqb_iff g group_id).1 same_group, ap p same_state))
            | inr later ↦ from (m', later, f)
          ],
        )
      ]

Listed-member_of :
    (p : MemberState → Bool) (projection : GroupProjection) (group_id : GroupId)
    (pubkey : PublicKeyHex)
    → IsSorted projection.members
    → Listed p group_id pubkey projection.members
      ↔ (is_some_and (member_of projection group_id pubkey) p ≡ true)
Listed-member_of p projection group_id pubkey s = (
  λ (m, n, e). rw ((In-get (group_id, pubkey) m projection.members s).0 n) e,
  λ h. elim (Option-cases (member_of projection group_id pubkey)) [
    | inl absent ↦ absurd (cc (rw absent at h))
    | inr (m, e) ↦ (m, (In-get (group_id, pubkey) m projection.members s).1 e, rw e at h)
  ],
)

abbrev second_value : List Text → Text
second_value (name ∷ value ∷ rest) = value
second_value values = []

In-p_tags :
    (pubkey : PublicKeyHex) (pubkeys : List PublicKeyHex)
    → In (codes "p" ∷ pubkey ∷ []) (map (λ k. codes "p" ∷ k ∷ []) pubkeys) ↔ In pubkey pubkeys
In-p_tags pubkey [] = (λ n. elim n [ ], λ n. elim n [ ])
In-p_tags pubkey (k ∷ pubkeys) =
    let (into, from) = In-p_tags pubkey pubkeys in
    (
      λ n. elim (In-uncons n) [
        | inl same ↦ here (ap second_value same)
        | inr later ↦ there (into later)
      ],
      λ n. elim (In-uncons n) [
        | inl same ↦ here (ap (λ x. codes "p" ∷ x ∷ []) same)
        | inr later ↦ there (from later)
      ],
    )

In-pubkey_tags :
    (group_id : GroupId) (pubkey : PublicKeyHex) (pubkeys : List PublicKeyHex)
    → In (codes "p" ∷ pubkey ∷ []) (pubkey_tags group_id pubkeys) ↔ In pubkey pubkeys
In-pubkey_tags group_id pubkey pubkeys =
    let (into, from) = In-p_tags pubkey pubkeys in
    (
      λ n. elim (In-uncons n) [ inl same ↦ absurd (ground arith) | inr later ↦ into later ],
      λ n. there (from n),
    )

-- The snapshot of administrators of a group tags exactly the owners and administrators of the
-- configuration and the current members of the group that hold the role of the relay's owner.
pub admin_list_snapshot_payload_lem :
    (group_id : GroupId) (projection : GroupProjection) (authority : GroupAuthority)
    (created_at : UnixTimestamp) (pubkey : PublicKeyHex)
    → IsSorted projection.members
    → In
        (codes "p" ∷ pubkey ∷ [])
        (admin_list_snapshot_payload group_id projection authority created_at).tags
      ↔ ((is_admin authority pubkey ≡ true)
          ⊎ (is_some_and (member_of projection group_id pubkey) is_override_member ≡ true))
unfolding admin_list_snapshot_payload snapshot_admins contains
admin_list_snapshot_payload_lem group_id projection authority created_at pubkey s =
    let configured = extend (to_set authority.owner_pubkeys) authority.admin_pubkeys in
    let picked = chosen is_override_member group_id projection.members in
    let (tag_into, tag_from) =
      In-pubkey_tags group_id pubkey (snapshot_admins group_id projection authority) in
    let (pick_into, pick_from) = In-chosen is_override_member group_id pubkey projection.members in
    let (of_into, of_from) = Listed-member_of is_override_member projection group_id pubkey s in
    let all : contains pubkey (snapshot_admins group_id projection authority)
        ≡ (is_admin authority pubkey || contains pubkey picked) =
      rw (add_override_members-eq-extend group_id projection.members configured) (
        ground (
          arith,
          contains-extend pubkey configured picked,
          contains-extend pubkey (to_set authority.owner_pubkeys) authority.admin_pubkeys,
          contains-extend {K = PublicKeyHex} pubkey [] authority.owner_pubkeys,
        )) in
    (
      λ n. elim (Bool-cases (is_admin authority pubkey)) [
        | inl configured_one ↦ inl configured_one
        | inr other ↦ inr (
            of_into (
              pick_into (
                contains-In pubkey picked
                  (ground (arith, all, In-contains pubkey _ (tag_into n))))))
      ],
      λ h. tag_from (
          contains-In pubkey _ (elim h [
            | inl configured_one ↦ ground (arith, all)
            | inr promoted ↦
                ground (arith, all, In-contains pubkey picked (pick_from (of_from promoted)))
          ])),
    )

-- The snapshot of members of a group is left out exactly when the group has more current members
-- than the cap; otherwise it tags exactly these, each as often as the projection holds it, in the
-- order of their keys.
pub member_list_snapshot_payload_lem :
    (group_id : GroupId) (projection : GroupProjection) (created_at : UnixTimestamp) (cap : ℕ)
    → IsSorted projection.members
    → (cap < length (current_members group_id projection.members)
        × (member_list_snapshot_payload group_id projection created_at cap ≡ none))
      ⊎ ((members : List PublicKeyHex) × (member_list_snapshot_payload group_id projection
              created_at cap
            ≡ some (new_payload group_members created_at (pubkey_tags group_id members)))
          × (length members ≤ cap)
          × (length members ≡ length (current_members group_id projection.members))
          × InOrder (λ (k : PublicKeyHex). k) members
          × ((pubkey : PublicKeyHex)
              → In pubkey members
                ↔ (is_some_and (member_of projection group_id pubkey) is_member_status ≡ true)))
unfolding member_list_snapshot_payload
member_list_snapshot_payload_lem group_id projection created_at cap s =
    let members = current_members group_id projection.members in
    let sorted = sort_by (λ (k : PublicKeyHex). k) members in
    let same = length-sort_by (λ (k : PublicKeyHex). k) members in
    elim (Bool-cases (ltb cap (length sorted))) [
      | inl many ↦ inl (ground arith, rw many refl)
      | inr few ↦ inr (
        sorted,
        rw few refl,
        ground arith,
        same,
        sort_by-InOrder (λ (k : PublicKeyHex). k) members,
        λ pubkey.
            let (sort_into, sort_from) = In-sort_by (λ (k : PublicKeyHex). k) pubkey members in
            let (pick_into, pick_from) =
              In-chosen is_member_status group_id pubkey projection.members in
            let (of_into, of_from) =
              Listed-member_of is_member_status projection group_id pubkey s in
            let same_list = current_members-eq-chosen group_id projection.members in
            (
              λ n. of_into (pick_into (subst (In pubkey) same_list (sort_into n))),
              λ h. sort_from (subst (In pubkey) (sym same_list) (pick_from (of_from h))),
            ),
      )
    ]
