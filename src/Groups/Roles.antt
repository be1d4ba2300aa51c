-- ===== src/Groups/Roles.antt =====
-- crates/tangle_groups/src/roles.rs
pub mod Grants
use tangle.Common.{
  ℕ, ◌≡◌, refl, ap, Bool, true, false, not, Option, none, some, List, [], ◌∷◌, map, Result, ok, err,
  ◌>>=◌, Text, codes, byte_len, is_control, is_whitespace, is_trimmed, any, eqb, Ord, Ord_by,
  list_ord, nat_ord, pair_ord, ltb, ◌==◌, if◌then◌else◌, BTreeMap, BTreeSet, get, insert, extend,
  to_set,
}
use tangle.Groups.Errors.{GroupError, invalid, restricted, invalid_role, missing_capability}

abbrev pub RoleName : Type 0
RoleName = Text

abbrev pub max_role_name_bytes : ℕ
max_role_name_bytes = 64

abbrev pub permanent_relay_override_role : RoleName
permanent_relay_override_role = codes "relay_owner"

unfoldable pub new_role_name : Text → Result GroupError RoleName
new_role_name value =
    if byte_len value == 0
    then err (invalid invalid_role)
    else if ltb max_role_name_bytes (byte_len value)
    then err (invalid invalid_role)
    else if not (is_trimmed value)
    then err (invalid invalid_role)
    else if any is_control value
    then err (invalid invalid_role)
    else if any is_whitespace value
    then err (invalid invalid_role)
    else ok value

abbrev pub is_permanent_relay_override : RoleName → Bool
is_permanent_relay_override role = eqb role permanent_relay_override_role

pub data Capability : Type 0 where
  manage_members manage_roles manage_metadata delete_events delete_group : Capability
  create_invites manage_invites relay_override : Capability

abbrev pub all_capabilities : List Capability
all_capabilities =
    manage_members ∷ manage_roles ∷ manage_metadata ∷ delete_events ∷ delete_group ∷ create_invites
    ∷ manage_invites ∷ relay_override ∷ []

-- The derived order is that of the declaration.
abbrev pub capability_rank : Capability → ℕ
capability_rank manage_members = 0
capability_rank manage_roles = 1
capability_rank manage_metadata = 2
capability_rank delete_events = 3
capability_rank delete_group = 4
capability_rank create_invites = 5
capability_rank manage_invites = 6
capability_rank relay_override = 7

abbrev capability_of_rank : ℕ → Capability
capability_of_rank n =
    if n == 0
    then manage_members
    else if n == 1
    then manage_roles
    else if n == 2
    then manage_metadata
    else if n == 3
    then delete_events
    else if n == 4
    then delete_group
    else if n == 5
    then create_invites
    else if n == 6
    then manage_invites
    else relay_override

capability_of_rank-capability_rank : (c : Capability) → capability_of_rank (capability_rank c) ≡ c
capability_of_rank-capability_rank manage_members = refl
capability_of_rank-capability_rank manage_roles = refl
capability_of_rank-capability_rank manage_metadata = refl
capability_of_rank-capability_rank delete_events = refl
capability_of_rank-capability_rank delete_group = refl
capability_of_rank-capability_rank create_invites = refl
capability_of_rank-capability_rank manage_invites = refl
capability_of_rank-capability_rank relay_override = refl

pub capability_rank-injective : (a b : Capability) → capability_rank a ≡ capability_rank b → a ≡ b
capability_rank-injective a b e = cc (
  ap capability_of_rank e,
  capability_of_rank-capability_rank a,
  capability_of_rank-capability_rank b,
)

instance abbrev pub capability_ord : Ord Capability
capability_ord = Ord_by nat_ord capability_rank capability_rank-injective

abbrev pub capability_str : Capability → Text
capability_str manage_members = codes "manage_members"
capability_str manage_roles = codes "manage_roles"
capability_str manage_metadata = codes "manage_metadata"
capability_str delete_events = codes "delete_events"
capability_str delete_group = codes "delete_group"
capability_str create_invites = codes "create_invites"
capability_str manage_invites = codes "manage_invites"
capability_str relay_override = codes "relay_override"

-- The match on the labels, tried in the order of the source.
unfoldable pub find_label : Text → List Capability → Result GroupError Capability
find_label value [] = err (invalid missing_capability)
find_label value (c ∷ cs) = if eqb value (capability_str c) then ok c else find_label value cs

unfoldable pub capability_from_label : Text → Result GroupError Capability
unfolding find_label
capability_from_label value = find_label value all_capabilities

abbrev pub CapabilitySet : Type 0
CapabilitySet = BTreeSet Capability

abbrev pub all_capability_set : CapabilitySet
all_capability_set = to_set all_capabilities

abbrev pub capability_labels : CapabilitySet → List Text
capability_labels = map capability_str

unfoldable pub collect_labels : List Text → Result GroupError (List Capability)
collect_labels [] = ok []
collect_labels (label ∷ labels) = do
  c ← capability_from_label label
  cs ← collect_labels labels
  ok (c ∷ cs)

unfoldable pub capability_set_from_labels : List Text → Result GroupError CapabilitySet
unfolding collect_labels
capability_set_from_labels labels = do
  capabilities ← collect_labels labels
  ok (to_set capabilities)

pub record RoleDefinition : Type 0 where
  pub name : RoleName
  pub capabilities : CapabilitySet
  pub description : Option Text

-- `collect` into a map by name: a later definition of a name replaces an earlier one.
unfoldable pub definitions_by_name :
    BTreeMap RoleName RoleDefinition → List RoleDefinition → BTreeMap RoleName RoleDefinition
definitions_by_name m [] = m
definitions_by_name m (definition ∷ rest) =
    definitions_by_name (insert definition.name definition m) rest

-- The loop over the roles of the actor.
unfoldable pub resolve_loop :
    BTreeMap RoleName RoleDefinition
    → CapabilitySet
    → List RoleName
    → Result GroupError CapabilitySet
resolve_loop definitions resolved [] = ok resolved
resolve_loop definitions resolved (role ∷ roles) = elim (is_permanent_relay_override role) [
  | true ↦ resolve_loop definitions (extend resolved all_capability_set) roles
  | false ↦ elim (get role definitions) [
    | none ↦ err (restricted missing_capability)
    | some definition ↦ resolve_loop definitions (extend resolved definition.capabilities) roles
  ]
]

unfoldable pub resolve_capabilities :
    List RoleDefinition → List RoleName → Result GroupError CapabilitySet
unfolding definitions_by_name resolve_loop
resolve_capabilities definitions roles = resolve_loop (definitions_by_name [] definitions) [] roles
