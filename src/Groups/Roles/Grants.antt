-- ===== src/Groups/Roles/Grants.antt =====
-- What the roles of a member grant.
use tangle.Common.{
  ◌≡◌, refl, ◌⊎◌, inl, inr, ◌↔◌, true, false, some, List, [], ◌∷◌, ok, arith, BTreeMap, get,
  contains, extend, add, contains-extend, In, here, there, In-uncons, list_ord, nat_ord, Bool-cases,
  Option-cases, All,
}
use tangle.Groups.Roles
use tangle.Groups.Roles.{
  RoleName, Capability, CapabilitySet, capability_ord, all_capability_set, RoleDefinition,
  definitions_by_name, is_permanent_relay_override, resolve_loop, resolve_capabilities,
  manage_members, manage_roles, manage_metadata, delete_events, create_invites, manage_invites,
  relay_override,
}

-- A role grants all when it is that of the relay, and otherwise what its definition lists.
abbrev pub Grants : BTreeMap RoleName RoleDefinition → RoleName → Capability → Type 0
Grants definitions role c =
    (is_permanent_relay_override role ≡ true)
    ⊎ ((is_permanent_relay_override role ≡ false)
        × ((d : RoleDefinition) × (get role definitions ≡ some d)
            × (contains c d.capabilities ≡ true)))

abbrev pub IsKnown : BTreeMap RoleName RoleDefinition → RoleName → Type 0
IsKnown definitions role =
    (is_permanent_relay_override role ≡ true)
    ⊎ ((d : RoleDefinition) × (get role definitions ≡ some d))

contains-all_capability_set : (c : Capability) → contains c all_capability_set ≡ true
unfolding contains extend add
contains-all_capability_set manage_members = refl
contains-all_capability_set manage_roles = refl
contains-all_capability_set manage_metadata = refl
contains-all_capability_set delete_events = refl
contains-all_capability_set Roles.delete_group = refl
contains-all_capability_set create_invites = refl
contains-all_capability_set manage_invites = refl
contains-all_capability_set relay_override = refl

module _ (definitions : BTreeMap RoleName RoleDefinition) (c : Capability) where
  abbrev SomeGrants : List RoleName → Type 0
  SomeGrants roles = (role : RoleName) × In role roles × Grants definitions role c

  combine :
      (role : RoleName) (roles : List RoleName) (start granted resolved : CapabilitySet)
      → (contains c granted ≡ true) ↔ Grants definitions role c
      → (contains c resolved ≡ true)
        ↔ ((contains c (extend start granted) ≡ true) ⊎ SomeGrants roles)
      → (contains c resolved ≡ true) ↔ ((contains c start ≡ true) ⊎ SomeGrants (role ∷ roles))
  combine role roles start granted resolved (grants, granted_by) (into, from) = (
    λ h. elim (into h) [
      | inr (r, i, g) ↦ inr (r, there i, g)
      | inl e ↦ elim (Bool-cases (contains c start)) [
        | inl old ↦ inl old
        | inr new ↦ inr (role, here refl, grants (ground (arith, contains-extend c start granted)))
      ]
    ],
    λ h. elim h [
      | inl old ↦ from (inl (ground (arith, contains-extend c start granted)))
      | inr (r, i, g) ↦ elim (In-uncons i) [
        | inr later ↦ from (inr (r, later, g))
        | inl same ↦
            let by_role : contains c granted ≡ true = granted_by (rw same g) in
            from (inl (ground (arith, contains-extend c start granted)))
      ]
    ],
  )

  resolve_loop-Grants :
      (roles : List RoleName) (start resolved : CapabilitySet)
      → resolve_loop definitions start roles ≡ ok resolved
      → (contains c resolved ≡ true) ↔ ((contains c start ≡ true) ⊎ SomeGrants roles)
  unfolding resolve_loop
  resolve_loop-Grants [] start resolved h =
      let same : start ≡ resolved = ground arith in
      rw same (inl, λ x. elim x [ inl e ↦ e | inr (r, i, g) ↦ elim i [ ] ])
  resolve_loop-Grants (role ∷ roles) start resolved h =
      elim (Bool-cases (is_permanent_relay_override role)) [
        | inl e ↦
            combine role roles start all_capability_set resolved
              (λ x. inl e, λ g. contains-all_capability_set c)
              (resolve_loop-Grants roles (extend start all_capability_set) resolved
                (rw (resolve_loop, e) at h))
        | inr e ↦ elim (Option-cases (get role definitions)) [
          | inl n ↦ absurd (ground arith)
          | inr (d, found) ↦
              combine role roles start d.capabilities resolved
                (λ x. inr (e, (d, found, x)), λ g. ground arith)
                (resolve_loop-Grants roles (extend start d.capabilities) resolved
                  (rw (resolve_loop, e, found) at h))
        ]
      ]

loop_resolves :
    (definitions : BTreeMap RoleName RoleDefinition) (roles : List RoleName) (start : CapabilitySet)
    → All (IsKnown definitions) roles
    → (resolved : CapabilitySet) × (resolve_loop definitions start roles ≡ ok resolved)
unfolding resolve_loop
loop_resolves definitions [] start known = (start, refl)
loop_resolves definitions (role ∷ roles) start (k, known) =
    elim (Bool-cases (is_permanent_relay_override role)) [
      | inl e ↦
          let (resolved, h) =
            loop_resolves definitions roles (extend start all_capability_set) known in
          (resolved, ground arith)
      | inr e ↦ elim (Option-cases (get role definitions)) [
        | inl n ↦ absurd (ground arith)
        | inr (d, found) ↦
            let (resolved, h) =
              loop_resolves definitions roles (extend start d.capabilities) known in
            (resolved, ground arith)
      ]
    ]

-- Where each role of a member is the role of the relay or a defined one, the roles resolve, and the
-- capabilities are those that one of the roles grants.
pub resolve_capabilities-Grants :
    (definitions : List RoleDefinition) (roles : List RoleName)
    → All (IsKnown (definitions_by_name [] definitions)) roles
    → (resolved : CapabilitySet) × (resolve_capabilities definitions roles ≡ ok resolved)
      × ((c : Capability)
          → (contains c resolved ≡ true) ↔ (
              (role : RoleName) × In role roles
              × Grants (definitions_by_name [] definitions) role c))
unfolding resolve_capabilities contains
resolve_capabilities-Grants definitions roles known =
    let m = definitions_by_name [] definitions in
    let (resolved, h) = loop_resolves m roles [] known in
    (
      resolved,
      h,
      λ c.
          let (into, from) = resolve_loop-Grants m c roles [] resolved h in
          (λ e. elim (into e) [ inl never ↦ absurd (ground arith) | inr g ↦ g ], λ g. from (inr g)),
    )
