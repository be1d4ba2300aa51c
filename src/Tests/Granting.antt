-- ===== src/Tests/Granting.antt =====
-- Group ids and roles on concrete texts.
use tangle.Common.{
  ◌≡◌, ◌↔◌, refl, inr, true, none, some, [], ◌∷◌, ok, err, get, insert, contains, extend, add,
  codes, In, list_ord, nat_ord,
}
use tangle.Groups.Errors.{invalid, invalid_group_id}
use tangle.Groups.Ids.{check_characters, validate_group_id, new_group_id_with_max_bytes}
use tangle.Groups.Ids.Valid.{IsGroupId, new_group_id_with_max_bytes_iff}
use tangle.Groups.Roles.{
  RoleName, RoleDefinition, Capability, CapabilitySet, capability_ord, delete_events,
  create_invites, definitions_by_name, resolve_loop, resolve_capabilities,
}
use tangle.Groups.Roles.Grants.{Grants, resolve_capabilities-Grants}

granting : Unit {0}
unfolding check_characters validate_group_id new_group_id_with_max_bytes definitions_by_name
    resolve_loop resolve_capabilities get insert contains extend add
granting = tt

id_tests :
    (new_group_id_with_max_bytes (codes "farm") 8 ≡ ok (codes "farm"))
    × (new_group_id_with_max_bytes (codes "far/m") 8 ≡ err (invalid invalid_group_id))
    × (new_group_id_with_max_bytes (codes "farm ") 8 ≡ err (invalid invalid_group_id))
    × (new_group_id_with_max_bytes (codes "farm") 3 ≡ err (invalid invalid_group_id))
unfolding granting
id_tests = (refl, refl, refl, refl)

new_group_id_with_max_bytes_iff_example :
    (new_group_id_with_max_bytes (codes "farm") 8 ≡ ok (codes "farm"))
    ↔ ((codes "farm" ≡ codes "farm") × IsGroupId 8 (codes "farm"))
new_group_id_with_max_bytes_iff_example =
    new_group_id_with_max_bytes_iff (codes "farm") 8 (codes "farm")

abbrev moderator : RoleDefinition
moderator = record {
  name = codes "moderator";
  capabilities = delete_events ∷ create_invites ∷ [];
  description = none;
}

found :
    get {K = RoleName} (codes "moderator") (definitions_by_name [] (moderator ∷ []))
    ≡ some moderator
unfolding granting
found = refl

resolve_capabilities-Grants_example :
    (resolved : CapabilitySet) × (resolve_capabilities (moderator ∷ []) (codes "moderator" ∷ [])
      ≡ ok resolved)
    × ((c : Capability)
        → (contains c resolved ≡ true) ↔ (
            (role : RoleName) × In role (codes "moderator" ∷ [])
            × Grants (definitions_by_name [] (moderator ∷ [])) role c))
resolve_capabilities-Grants_example =
    resolve_capabilities-Grants (moderator ∷ []) (codes "moderator" ∷ [])
      (inr (moderator, found), tt)
