-- ===== src/Groups/Classification.antt =====
-- crates/tangle_groups/src/classification.rs
use tangle.Common.{Option, none, some, Result, ok, ◌>>=◌, if◌then◌else◌}
use tangle.Protocol.{Kind}
use tangle.Groups.Errors.{GroupError}
use tangle.Groups.Config.{GroupLimitsConfig}
use tangle.Groups.Ids.{GroupId}
use tangle.Groups.Kinds.{is_moderation_kind, is_relay_generated_kind, is_user_request_kind}
use tangle.Groups.EventView.{PocketEvent, event_kind}
use tangle.Groups.Tags.{h, d, extract_group_tag, has_group_identity_tag, require_group_tag}

pub data GroupEventClass : Type 0 where
  non_group : GroupEventClass
  normal : GroupId → GroupEventClass
  moderation : Kind → GroupId → GroupEventClass
  relay_generated_snapshot : Kind → GroupId → GroupEventClass

unfoldable pub class_group_id : GroupEventClass → Option GroupId
class_group_id non_group = none
class_group_id (normal group_id) = some group_id
class_group_id (moderation kind group_id) = some group_id
class_group_id (relay_generated_snapshot kind group_id) = some group_id

-- The last test of the classification, for events of any other kind.
unfoldable pub classify_tagged : PocketEvent → GroupLimitsConfig → Result GroupError GroupEventClass
classify_tagged event limits = do
  tagged ← has_group_identity_tag event
  group_tag ← if tagged then extract_group_tag event h limits else ok none
  elim group_tag [ none ↦ ok non_group | some tag ↦ ok (normal tag.group_id) ]

unfoldable pub classify_group_event :
    PocketEvent → GroupLimitsConfig → Result GroupError GroupEventClass
unfolding classify_tagged
classify_group_event event limits = do
  kind ← event_kind event
  if is_relay_generated_kind kind
      then (do
        tag ← require_group_tag event d limits
        ok (relay_generated_snapshot kind tag.group_id))
      else if is_moderation_kind kind
      then (do tag ← require_group_tag event h limits; ok (moderation kind tag.group_id))
      else if is_user_request_kind kind
      then (do tag ← require_group_tag event h limits; ok (normal tag.group_id))
      else classify_tagged event limits
