-- ===== src/Runtime/Relay/Counts.antt =====
-- crates/tangle_runtime/src/relay/core.rs: the count of stored events, with the sketch of their
-- authors. The sketch itself is of the library of the store.
pub mod Counting
pub mod Silent
pub mod Private
use tangle.Common.{
  ℕ, ◌≡◌, Bool, true, false, ◌||◌, ◌&&◌, not, Option, none, some, is_some, is_some_and, List, [],
  ◌∷◌, ◌++◌, any, Result, ok, err, ◌>>=◌, Text, codes, eqb, list_ord, nat_ord, BTreeSet, add,
  extend, length, if◌then◌else◌,
}
use tangle.Protocol.{EventId, PublicKeyHex}
use tangle.Groups.EventView.{PocketEvent}
use tangle.Groups.Ids.{GroupId, new_group_id_with_max_bytes}
use tangle.Groups.Kinds.{is_relay_generated_kind}
use tangle.Groups.Classification.{GroupEventClass, class_group_id, classify_group_event}
use tangle.Groups.Projection.{GroupProjection, GroupState, group_of, tombstone_of}
use tangle.Groups.WriteGate.{GroupAuthContext}
use tangle.Runtime.Errors.{BaseRelayError, from_group}
use tangle.Runtime.Relay.{PocketFilter, BaseRelayLimits}
use tangle.Runtime.Relay.Queries.{
  Search, GroupReads, BaseRelayQueryMetrics, no_metrics, add_metrics, BaseRelayEventQueryReport,
  preserve_count_limitless, or_error, query_filter_events_report,
}

pub data BaseRelayCountHllGroupTargets : Type 0 where
  no_targets suppress_targets : BaseRelayCountHllGroupTargets
  targets : BTreeSet GroupId → BaseRelayCountHllGroupTargets

pub data BaseRelayCountHllTargetPolicy : Type 0 where
  eligible suppressing : BaseRelayCountHllTargetPolicy

pub data BaseRelayCountHllDTagMode : Type 0 where
  ignore target suppress_d : BaseRelayCountHllDTagMode

unfoldable pub count_hll_filter_d_tag_mode : PocketFilter → BaseRelayCountHllDTagMode
count_hll_filter_d_tag_mode filter = elim filter.kinds [
  | [] ↦ suppress_d
  | _ ∷ _ ↦ if any is_relay_generated_kind filter.kinds then target else ignore
]

abbrev is_name : Text → Option Text → Bool
is_name name none = false
is_name name (some value) = eqb value name

abbrev aims_at_d : BaseRelayCountHllDTagMode → Bool
aims_at_d ignore = false
aims_at_d target = true
aims_at_d suppress_d = true

abbrev is_group_target : BaseRelayCountHllDTagMode → List (Option Text) → Bool
is_group_target mode [] = false
is_group_target mode (name ∷ values) =
    is_name (codes "h") name || (aims_at_d mode && is_name (codes "d") name)

unfoldable pub count_hll_filter_has_group_target : PocketFilter → Bool
unfolding count_hll_filter_d_tag_mode
count_hll_filter_has_group_target filter = elim filter.tags [
  | none ↦ true
  | some tags ↦ any (is_group_target (count_hll_filter_d_tag_mode filter)) tags
]

abbrev read_group_id : ℕ → Option Text → Option GroupId
read_group_id max_group_id_bytes none = none
read_group_id max_group_id_bytes (some value) =
    elim (new_group_id_with_max_bytes value max_group_id_bytes) [
      | err e ↦ none
      | ok group_id ↦ some group_id
    ]

abbrev joined : Option GroupId → Option (List GroupId) → Option (List GroupId)
joined none rest = none
joined (some group_id) none = none
joined (some group_id) (some rest) = some (group_id ∷ rest)

-- The values of a tag: `none` suppresses, also where there is no value.
abbrev target_ids : ℕ → List (Option Text) → Option (List GroupId)
target_ids max_group_id_bytes [] = some []
target_ids max_group_id_bytes (value ∷ values) =
    joined (read_group_id max_group_id_bytes value) (target_ids max_group_id_bytes values)

abbrev some_target_ids : ℕ → List (Option Text) → Option (List GroupId)
some_target_ids max_group_id_bytes [] = none
some_target_ids max_group_id_bytes (value ∷ values) = target_ids max_group_id_bytes (value ∷ values)

abbrev d_target_ids : ℕ → BaseRelayCountHllDTagMode → List (Option Text) → Option (List GroupId)
d_target_ids max_group_id_bytes ignore values = some []
d_target_ids max_group_id_bytes target values = some_target_ids max_group_id_bytes values
d_target_ids max_group_id_bytes suppress_d values = none

abbrev tag_target_ids : ℕ → BaseRelayCountHllDTagMode → List (Option Text) → Option (List GroupId)
tag_target_ids max_group_id_bytes mode [] = some []
tag_target_ids max_group_id_bytes mode (name ∷ values) =
    if is_name (codes "d") name
    then d_target_ids max_group_id_bytes mode values
    else if is_name (codes "h") name
    then some_target_ids max_group_id_bytes values
    else some []

abbrev appended : Option (List GroupId) → Option (List GroupId) → Option (List GroupId)
appended none rest = none
appended (some ids) none = none
appended (some ids) (some rest) = some (ids ++ rest)

-- The loop over the tags.
unfoldable pub all_target_ids :
    ℕ → BaseRelayCountHllDTagMode → List (List (Option Text)) → Option (List GroupId)
all_target_ids max_group_id_bytes mode [] = some []
all_target_ids max_group_id_bytes mode (tag ∷ tags) =
    appended (tag_target_ids max_group_id_bytes mode tag)
      (all_target_ids max_group_id_bytes mode tags)

-- `sort` and `dedup`.
abbrev targets_of : Option (List GroupId) → BaseRelayCountHllGroupTargets
targets_of none = suppress_targets
targets_of (some []) = no_targets
targets_of (some (group_id ∷ group_ids)) = targets (extend [] (group_id ∷ group_ids))

unfoldable pub count_hll_group_targets : PocketFilter → ℕ → BaseRelayCountHllGroupTargets
unfolding all_target_ids count_hll_filter_d_tag_mode
count_hll_group_targets filter max_group_id_bytes = elim filter.tags [
  | none ↦ suppress_targets
  | some tags ↦
      targets_of (all_target_ids max_group_id_bytes (count_hll_filter_d_tag_mode filter) tags)
]

-- A group whose events may be counted in a sketch.
abbrev is_countable : GroupProjection → GroupId → GroupState → Bool
is_countable projection group_id group =
    not (is_some (tombstone_of projection group_id))
    && not group.metadata.private
    && not group.metadata.hidden

abbrev all_countable : GroupProjection → BTreeSet GroupId → Bool
all_countable projection [] = true
all_countable projection (group_id ∷ group_ids) =
    is_some_and (group_of projection group_id) (is_countable projection group_id)
    && all_countable projection group_ids

unfoldable pub count_hll_filter_target_policy :
    Option GroupReads → PocketFilter → BaseRelayCountHllTargetPolicy
unfolding count_hll_filter_has_group_target count_hll_group_targets
count_hll_filter_target_policy none filter =
    if count_hll_filter_has_group_target filter then suppressing else eligible
count_hll_filter_target_policy (some groups) filter =
    elim (count_hll_group_targets filter groups.group_limits.max_group_id_bytes) [
      | no_targets ↦ eligible
      | suppress_targets ↦ suppressing
      | targets group_ids ↦
          if all_countable groups.gate.projection group_ids then eligible else suppressing
    ]

abbrev group_suppresses : GroupProjection → GroupId → Option GroupState → Bool
group_suppresses projection group_id none = true
group_suppresses projection group_id (some group) =
    is_some (tombstone_of projection group_id) || group.metadata.private || group.metadata.hidden

abbrev class_suppresses : GroupProjection → Option GroupId → Bool
class_suppresses projection none = false
class_suppresses projection (some group_id) =
    group_suppresses projection group_id (group_of projection group_id)

unfoldable pub event_suppresses_count_hll :
    Option GroupReads → PocketEvent → Result BaseRelayError Bool
event_suppresses_count_hll none event = ok false
event_suppresses_count_hll (some groups) event = do
  class ← from_group (classify_group_event event groups.group_limits)
  ok (class_suppresses groups.gate.projection (class_group_id class))

pub record BaseRelayCountHll (H : Type 0) : Type 0 where
  pub offset : Option ℕ
  pub hll : Option H
  pub suppressed : Bool

-- The sketch of the library.
pub record Sketches : Type 1 where
  pub Hll : Type 0
  pub new_hll : Hll
  pub add_element : PublicKeyHex → ℕ → Hll → Option Hll
  pub to_hex_string : Hll → Text
  pub hyperloglog_offset : PocketFilter → Option (Option ℕ)
