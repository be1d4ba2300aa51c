-- ===== src/Groups/Config.antt =====
-- crates/tangle_groups/src/lib.rs: the limits and the policy of a tenant's groups.
use tangle.Common.{ℕ, Bool, Result, ok, err, ◌>>◌, ◌==◌, if◌then◌else◌}

pub record GroupLimitsConfig : Type 0 where
  pub max_group_id_bytes : ℕ
  pub max_group_tags_per_event : ℕ
  pub max_supported_kinds : ℕ
  pub max_member_list_pubkeys : ℕ
  pub max_outbox_replay_batch : ℕ

pub record GroupPolicyConfig : Type 0 where
  pub public_join : Bool
  pub invites_enabled : Bool

pub data GroupConfigError : Type 0 where
  invalid_config : GroupConfigError

abbrev require_positive : ℕ → Result GroupConfigError (Unit {0})
require_positive value = if value == 0 then err invalid_config else ok tt

unfoldable pub validate_limits : GroupLimitsConfig → Result GroupConfigError (Unit {0})
validate_limits limits = do
  require_positive limits.max_group_id_bytes
  require_positive limits.max_group_tags_per_event
  require_positive limits.max_supported_kinds
  require_positive limits.max_member_list_pubkeys
  require_positive limits.max_outbox_replay_batch
  ok tt

unfoldable pub validate_policy : GroupPolicyConfig → Result GroupConfigError (Unit {0})
validate_policy policy = if policy.invites_enabled then err invalid_config else ok tt
