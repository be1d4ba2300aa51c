-- ===== src/Runtime/Relay.antt =====
-- crates/tangle_runtime/src/relay/core.rs: the limits of a relay and the checks of requests. A
-- filter is of the library of the store: here it is the fields that the code reads.

pub mod Queries
pub mod Bounded
pub mod Visible
pub mod Ordered
pub mod Events
pub mod Answers
pub mod Counts
pub mod Requests
use tangle.Common.{
  ℕ, ◌+◌, ◌==◌, Bool, true, false, ◌&&◌, not, Option, none, some, List, [], ◌∷◌, Result, ok, err,
  ◌>>=◌, ◌>>◌, Text, length, ltb, leb, if◌then◌else◌,
}
use tangle.Protocol.{saturating_add, u32_max, u64_max, SubscriptionId}
use tangle.Runtime.Errors.{BaseRelayError, invalid, error}

pub record PocketFilter : Type 0 where
  pub ids : List Text
  pub authors : List Text
  pub kinds : List ℕ
  -- `none` where the library cannot read the tags, and in them for a value that is not UTF-8.
  pub tags : Option (List (List (Option Text)))
  pub since : ℕ
  pub until : ℕ
  -- The largest `u32` is no limit.
  pub limit : ℕ

pub record BaseRelayLimits : Type 0 where
  pub max_pending_events : ℕ
  pub max_subscription_id_length : ℕ
  pub max_subscriptions : ℕ
  pub max_filters_per_request : ℕ
  pub max_tag_values_per_filter : ℕ
  pub max_query_complexity : ℕ
  pub max_event_tags : ℕ
  pub max_content_length : ℕ
  pub max_limit : ℕ
  pub default_limit : ℕ

abbrev require : Bool → Result BaseRelayError (Unit {0})
require holds = if holds then ok tt else err invalid

abbrev require_nonzero : ℕ → Result BaseRelayError (Unit {0})
require_nonzero value = require (not (value == 0))

-- `new` keeps the settings that it checks.
unfoldable pub new_limits : BaseRelayLimits → Result BaseRelayError BaseRelayLimits
new_limits settings = do
  require_nonzero settings.max_pending_events
  require_nonzero settings.max_subscription_id_length
  require_nonzero settings.max_subscriptions
  require_nonzero settings.max_filters_per_request
  require_nonzero settings.max_tag_values_per_filter
  require_nonzero settings.max_query_complexity
  require_nonzero settings.max_event_tags
  require_nonzero settings.max_content_length
  require_nonzero settings.max_limit
  require_nonzero settings.default_limit
  require (leb settings.default_limit settings.max_limit)
  require (leb settings.default_limit settings.max_query_complexity)
  ok settings

-- `usize::saturating_add`.
abbrev pub add_usize : ℕ → ℕ → ℕ
add_usize a b = saturating_add u64_max a b

abbrev pub after_name : List (Option Text) → List (Option Text)
after_name [] = []
after_name (name ∷ values) = values

-- `sum`: the values of the tags are in memory, so that their number is a `usize`.
unfoldable pub tag_value_count : List (List (Option Text)) → ℕ
tag_value_count [] = 0
tag_value_count (tag ∷ tags) = length (after_name tag) + tag_value_count tags

unfoldable pub tag_score : List (List (Option Text)) → ℕ → ℕ
tag_score [] total = total
tag_score (tag ∷ tags) total =
    tag_score tags (add_usize total (add_usize 1 (length (after_name tag))))

abbrev pub tags_score : Option (List (List (Option Text))) → ℕ
tags_score none = u64_max
tags_score (some tags) = tag_score tags 0

abbrev from_bool : Bool → ℕ
from_bool true = 1
from_bool false = 0

module _ (limits : BaseRelayLimits) where
  unfoldable pub validate_subscription_id : SubscriptionId → Result BaseRelayError (Unit {0})
  validate_subscription_id subscription_id =
      require (leb (length subscription_id) limits.max_subscription_id_length)

  abbrev pub effective_pocket_filter_limit : PocketFilter → ℕ
  effective_pocket_filter_limit filter =
      if filter.limit == u32_max then limits.default_limit else filter.limit

  unfoldable pub pocket_filter_complexity : PocketFilter → ℕ
  unfolding tag_score
  pocket_filter_complexity filter =
      add_usize
        (add_usize
          (add_usize
            (add_usize
              (add_usize (add_usize (add_usize 1 (length filter.ids)) (length filter.authors))
                (length filter.kinds))
              (tags_score filter.tags))
            (from_bool (not (filter.since == 0))))
          (from_bool (not (filter.until == u64_max))))
        (effective_pocket_filter_limit filter)

  -- The `fold` over the filters.
  unfoldable pub complexity_score : List PocketFilter → ℕ → ℕ
  complexity_score [] total = total
  complexity_score (filter ∷ filters) total =
      complexity_score filters (add_usize total (pocket_filter_complexity filter))

  unfoldable pub validate_pocket_query_complexity :
      List PocketFilter → Result BaseRelayError (Unit {0})
  unfolding complexity_score
  validate_pocket_query_complexity filters =
      require (leb (complexity_score filters 0) limits.max_query_complexity)

  unfoldable pub validate_pocket_filter : PocketFilter → Result BaseRelayError (Unit {0})
  unfolding tag_value_count
  validate_pocket_filter filter = elim filter.tags [
    | none ↦ err error
    | some tags ↦ do
      require (leb (tag_value_count tags) limits.max_tag_values_per_filter)
      if not (filter.limit == u32_max) && ltb limits.max_limit filter.limit
          then err invalid
          else ok tt
  ]

  -- The loop over the filters.
  unfoldable pub validate_each : List PocketFilter → Result BaseRelayError (Unit {0})
  unfolding validate_pocket_filter
  validate_each [] = ok tt
  validate_each (filter ∷ filters) = do validate_pocket_filter filter; validate_each filters

  unfoldable pub validate_pocket_filters : List PocketFilter → Result BaseRelayError (Unit {0})
  unfolding validate_each validate_pocket_query_complexity
  validate_pocket_filters filters = do
    require (not (length filters == 0))
    require (leb (length filters) limits.max_filters_per_request)
    validate_each filters
    validate_pocket_query_complexity filters
