-- ===== src/Groups/Kinds.antt =====
-- crates/tangle_groups/src/kinds.rs
use tangle.Common.{Bool, List, [], ◌∷◌, any, ◌==◌}
use tangle.Protocol.{Kind}

abbrev pub put_user : Kind
put_user = 9000

abbrev pub remove_user : Kind
remove_user = 9001

abbrev pub edit_metadata : Kind
edit_metadata = 9002

abbrev pub delete_event : Kind
delete_event = 9005

abbrev pub create_group : Kind
create_group = 9007

abbrev pub delete_group : Kind
delete_group = 9008

abbrev pub create_invite : Kind
create_invite = 9009

abbrev pub join_request : Kind
join_request = 9021

abbrev pub leave_request : Kind
leave_request = 9022

abbrev pub group_metadata : Kind
group_metadata = 39000

abbrev pub group_admins : Kind
group_admins = 39001

abbrev pub group_members : Kind
group_members = 39002

abbrev pub group_roles : Kind
group_roles = 39003

abbrev pub group_state_39004 : Kind
group_state_39004 = 39004

abbrev pub moderation_kind_values : List Kind
moderation_kind_values =
    put_user ∷ remove_user ∷ edit_metadata ∷ delete_event ∷ create_group ∷ delete_group
    ∷ create_invite ∷ []

abbrev pub user_request_kind_values : List Kind
user_request_kind_values = join_request ∷ leave_request ∷ []

abbrev pub relay_generated_kind_values : List Kind
relay_generated_kind_values =
    group_metadata ∷ group_admins ∷ group_members ∷ group_roles ∷ group_state_39004 ∷ []

abbrev pub group_kind_values : List Kind
group_kind_values =
    put_user ∷ remove_user ∷ edit_metadata ∷ delete_event ∷ create_group ∷ delete_group
    ∷ create_invite ∷ join_request ∷ leave_request ∷ group_metadata ∷ group_admins ∷ group_members
    ∷ group_roles ∷ group_state_39004 ∷ []

abbrev contains_kind : List Kind → Kind → Bool
contains_kind kinds kind = any (λ k. k == kind) kinds

unfoldable pub is_moderation_kind : Kind → Bool
is_moderation_kind kind = contains_kind moderation_kind_values kind

unfoldable pub is_user_request_kind : Kind → Bool
is_user_request_kind kind = contains_kind user_request_kind_values kind

unfoldable pub is_relay_generated_kind : Kind → Bool
is_relay_generated_kind kind = contains_kind relay_generated_kind_values kind

unfoldable pub is_group_specific_kind : Kind → Bool
is_group_specific_kind kind = contains_kind group_kind_values kind
