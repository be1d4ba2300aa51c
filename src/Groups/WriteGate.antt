-- ===== src/Groups/WriteGate.antt =====
-- crates/tangle_groups/src/write_gate.rs
use tangle.Common.{
  Bool, true, false, ◌||◌, not, Option, none, some, Result, ok, err, ◌>>=◌, ◌>>◌, ok_or, Text,
  codes, eqb, list_ord, nat_ord, ◌==◌, if◌then◌else◌, is_none_or, BTreeSet, contains,
}
use tangle.Protocol.{PublicKeyHex, Kind, new_public_key}
use tangle.Groups.Errors.{
  GroupError, invalid, blocked, auth_required, map_err, malformed_target_tag, missing_target_tag,
  direct_relay_generated_submission,
}
use tangle.Groups.Config.{GroupLimitsConfig}
use tangle.Groups.Kinds.{put_user, remove_user, delete_event}
use tangle.Groups.EventView.{
  PocketEvent, GroupEventTag, first_value, indexed_pair, visit_tags, event_pubkey,
}
use tangle.Groups.Tags.{ensure_group_tag_limit}
use tangle.Groups.Classification.{
  GroupEventClass, non_group, normal, moderation, relay_generated_snapshot, classify_group_event,
}

pub record GroupAuthContext : Type 0 where
  pub authenticated_pubkeys : BTreeSet PublicKeyHex

abbrev pub auth_contains : GroupAuthContext → PublicKeyHex → Bool
auth_contains auth pubkey = contains pubkey auth.authenticated_pubkeys

abbrev indexed_visitor : Text → Option Text → GroupEventTag → Result GroupError (Option Text)
indexed_visitor name found tag =
    if is_none_or (first_value tag) (λ tag_name. not (eqb tag_name name))
    then ok found
    else elim (indexed_pair tag) [
      | none ↦ err (invalid malformed_target_tag)
      | some (_, value) ↦ ok (some value)
    ]

unfoldable pub require_indexed_tag_value : PocketEvent → Text → Result GroupError Text
require_indexed_tag_value event name = do
  found ← visit_tags event none (indexed_visitor name)
  ok_or found (invalid missing_target_tag)

unfoldable pub require_valid_p_tag : PocketEvent → Result GroupError (Unit {0})
require_valid_p_tag event = do
  value ← require_indexed_tag_value event (codes "p")
  pubkey ← map_err (invalid malformed_target_tag) (new_public_key value)
  ok tt

unfoldable pub validate_moderation_targets : PocketEvent → Kind → Result GroupError (Unit {0})
validate_moderation_targets event kind =
    if kind == put_user || kind == remove_user
    then require_valid_p_tag event
    else if kind == delete_event
    then (do value ← require_indexed_tag_value event (codes "e"); ok tt)
    else ok tt

unfoldable pub validate_client_group_event_structure :
    PocketEvent → GroupLimitsConfig → Result GroupError GroupEventClass
validate_client_group_event_structure event limits = do
  ensure_group_tag_limit event limits
  class ← classify_group_event event limits
  elim class [
    | relay_generated_snapshot _ _ ↦ err (blocked direct_relay_generated_submission)
    | moderation kind group_id ↦ do
      validate_moderation_targets event kind
      ok (moderation kind group_id)
    | normal group_id ↦ ok (normal group_id)
    | non_group ↦ ok non_group
  ]

abbrev pub is_non_group : GroupEventClass → Bool
is_non_group non_group = true
is_non_group _ = false

unfoldable pub require_group_auth_as_author :
    PocketEvent → GroupEventClass → GroupAuthContext → Result GroupError (Unit {0})
require_group_auth_as_author event class auth = if is_non_group class then ok tt else (do
  pubkey ← event_pubkey event
  if auth_contains auth pubkey then ok tt else err auth_required)
