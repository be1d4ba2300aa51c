-- ===== src/Groups/Tags.antt =====
-- crates/tangle_groups/src/tags.rs
use tangle.Common.{
  ℕ, ◌+◌, Bool, true, false, ◌||◌, not, Option, none, some, Result, ok, err, ◌>>=◌, ok_or, Text,
  codes, eqb, list_ord, nat_ord, ltb, if◌then◌else◌, is_some_and, is_none_or,
}
use tangle.Groups.Errors.{
  GroupError, invalid, malformed_group_tag, conflicting_group_tag, too_many_group_tags,
  missing_group_tag,
}
use tangle.Groups.Config.{GroupLimitsConfig}
use tangle.Groups.Ids.{GroupId, new_group_id_with_max_bytes}
use tangle.Groups.EventView.{PocketEvent, GroupEventTag, first_value, indexed_pair, visit_tags}

pub data GroupTagName : Type 0 where
  h d : GroupTagName

abbrev pub tag_name_str : GroupTagName → Text
tag_name_str h = codes "h"
tag_name_str d = codes "d"

pub record GroupTag : Type 0 where
  pub name : GroupTagName
  pub group_id : GroupId

abbrev pub is_group_identity_tag_name : Text → Bool
is_group_identity_tag_name name = eqb name (tag_name_str h) || eqb name (tag_name_str d)

abbrev pub mark_identity : Bool → GroupEventTag → Result GroupError Bool
mark_identity found tag =
    ok (if is_some_and (first_value tag) is_group_identity_tag_name then true else found)

unfoldable pub has_group_identity_tag : PocketEvent → Result GroupError Bool
has_group_identity_tag event = visit_tags event false mark_identity

abbrev pub count_identity : ℕ → GroupEventTag → Result GroupError ℕ
count_identity count tag =
    ok (if is_some_and (first_value tag) is_group_identity_tag_name then count + 1 else count)

unfoldable pub group_identity_tag_count : PocketEvent → Result GroupError ℕ
group_identity_tag_count event = visit_tags event 0 count_identity

unfoldable pub ensure_group_tag_limit :
    PocketEvent → GroupLimitsConfig → Result GroupError (Unit {0})
unfolding group_identity_tag_count
ensure_group_tag_limit event limits = do
  count ← group_identity_tag_count event
  if ltb limits.max_group_tags_per_event count then err (invalid too_many_group_tags) else ok tt

-- What the visitor does with the value of a tag that has the name.
unfoldable pub take_group_id :
    GroupLimitsConfig → Option GroupId → Text → Result GroupError (Option GroupId)
take_group_id limits found value = do
  group_id ← new_group_id_with_max_bytes value limits.max_group_id_bytes
  elim found [
    | none ↦ ok (some group_id)
    | some first ↦
        if not (eqb first group_id) then err (invalid conflicting_group_tag) else ok (some first)
  ]

unfoldable pub extract_visitor :
    GroupTagName
    → GroupLimitsConfig
    → Option GroupId
    → GroupEventTag
    → Result GroupError (Option GroupId)
unfolding take_group_id
extract_visitor name limits found tag =
    if is_none_or (first_value tag) (λ tag_name. not (eqb tag_name (tag_name_str name)))
    then ok found
    else elim (indexed_pair tag) [
      | none ↦ err (invalid malformed_group_tag)
      | some (_, value) ↦ take_group_id limits found value
    ]

unfoldable pub extract_group_tag :
    PocketEvent → GroupTagName → GroupLimitsConfig → Result GroupError (Option GroupTag)
unfolding extract_visitor
extract_group_tag event name limits = do
  found ← visit_tags event none (extract_visitor name limits)
  elim found [
    | none ↦ ok none
    | some group_id ↦ ok (some (record { name = name; group_id = group_id }))
  ]

unfoldable pub require_group_tag :
    PocketEvent → GroupTagName → GroupLimitsConfig → Result GroupError GroupTag
unfolding extract_group_tag
require_group_tag event name limits = do
  tag ← extract_group_tag event name limits
  ok_or tag (invalid missing_group_tag)
