-- ===== src/Runtime/Relay/Counts/Counting.antt =====
-- crates/tangle_runtime/src/relay/core.rs: the loop that counts, and the sketch that it keeps.
use tangle.Common.{
  ℕ, Bool, true, false, ◌||◌, Option, none, some, List, [], ◌∷◌, Result, ok, ◌>>=◌, Text, nat_ord,
  list_ord, BTreeSet, add, length, if◌then◌else◌,
}
use tangle.Protocol.{EventId}
use tangle.Groups.EventView.{PocketEvent}
use tangle.Groups.WriteGate.{GroupAuthContext}
use tangle.Runtime.Errors.{BaseRelayError}
use tangle.Runtime.Relay.{PocketFilter, BaseRelayLimits}
use tangle.Runtime.Relay.Queries.{
  Search, GroupReads, BaseRelayQueryMetrics, no_metrics, add_metrics, BaseRelayEventQueryReport,
  preserve_count_limitless, or_error, query_filter_events_report,
}
use tangle.Runtime.Relay.Counts.{
  BaseRelayCountHllTargetPolicy, eligible, suppressing, count_hll_filter_target_policy,
  event_suppresses_count_hll, BaseRelayCountHll, Sketches,
}

pub record BaseRelayCountEventsReport : Type 0 where
  pub count : ℕ
  pub hll : Option Text
  pub group_read_denied : Bool
  pub query_metrics : BaseRelayQueryMetrics

module _ (sketches : Sketches) where
  abbrev pub CountHll : Type 0
  CountHll = BaseRelayCountHll sketches.Hll

  -- What the loop keeps.
  pub record Counting : Type 0 where
    pub seen : BTreeSet EventId
    pub denied : Bool
    pub metrics : BaseRelayQueryMetrics
    pub sketch : CountHll

  unfoldable pub count_hll_offset : List PocketFilter → Result BaseRelayError (Option ℕ)
  count_hll_offset [] = ok none
  count_hll_offset (filter ∷ []) = or_error (sketches.hyperloglog_offset filter)
  count_hll_offset (filter ∷ other ∷ filters) = ok none

  abbrev pub sketch_at : Option ℕ → CountHll
  sketch_at offset = record {
    offset = offset;
    hll = elim offset [ none ↦ none | some at ↦ some sketches.new_hll ];
    suppressed = false;
  }

  unfoldable pub new_count_hll : List PocketFilter → Result BaseRelayError CountHll
  unfolding count_hll_offset
  new_count_hll filters = do offset ← count_hll_offset filters; ok (sketch_at offset)

  unfoldable pub suppress : CountHll → CountHll
  suppress h = elim h.offset [ none ↦ h | some offset ↦ record h { suppressed = true } ]

  abbrev suppress_by : CountHll → BaseRelayCountHllTargetPolicy → CountHll
  suppress_by h eligible = h
  suppress_by h suppressing = suppress h

  -- `suppress` tests the offset again.
  unfoldable pub suppress_for_filter_targets :
      Option GroupReads → List PocketFilter → CountHll → CountHll
  unfolding suppress
  suppress_for_filter_targets groups [] h = h
  suppress_for_filter_targets groups (filter ∷ []) h =
      suppress_by h (count_hll_filter_target_policy groups filter)
  suppress_for_filter_targets groups (filter ∷ other ∷ filters) h = h

  abbrev with_hll : CountHll → Option sketches.Hll → Result BaseRelayError CountHll
  with_hll h added = do hll ← or_error added; ok (record h { hll = some hll })

  abbrev pub observe_at : CountHll → PocketEvent → ℕ → Bool → Result BaseRelayError CountHll
  observe_at h event offset true = ok (record h { suppressed = true })
  observe_at h event offset false = elim h.hll [
    | none ↦ ok h
    | some hll ↦ with_hll h (sketches.add_element event.pubkey_hex offset hll)
  ]

  unfoldable pub observe :
      Option GroupReads → PocketEvent → CountHll → Result BaseRelayError CountHll
  observe groups event h = elim h.offset [
    | none ↦ ok h
    | some offset ↦ do
      suppresses ← event_suppresses_count_hll groups event
      observe_at h event offset suppresses
  ]

  -- The loop over the events of a filter.
  unfoldable pub observe_all :
      Option GroupReads → List PocketEvent → Counting → Result BaseRelayError Counting
  unfolding observe
  observe_all groups [] c = ok c
  observe_all groups (event ∷ events) c = do
    sketch ← observe groups event c.sketch
    observe_all groups events (record c { sketch = sketch; seen = add event.id_hex c.seen })

  abbrev pub after_report : BaseRelayEventQueryReport → Counting → Counting
  after_report report c = record c {
    denied = c.denied || report.group_read_denied;
    sketch = if report.group_read_denied then suppress c.sketch else c.sketch;
    metrics = add_metrics c.metrics report.query_metrics;
  }

  abbrev hex_of : Option sketches.Hll → Option Text
  hex_of none = none
  hex_of (some hll) = some (sketches.to_hex_string hll)

  unfoldable pub into_hex : CountHll → Option Text
  into_hex h = if h.suppressed then none else hex_of h.hll

  module _ (search : Search) (groups : Option GroupReads) (auth : GroupAuthContext) where
    -- The loop over the filters.
    unfoldable pub count_loop :
        BaseRelayLimits → List PocketFilter → Counting → Result BaseRelayError Counting
    unfolding observe_all suppress query_filter_events_report
    count_loop limits [] c = ok c
    count_loop limits (filter ∷ filters) c = do
      report ← query_filter_events_report search groups auth limits filter preserve_count_limitless
      counted ← observe_all groups report.events (after_report report c)
      count_loop limits filters counted

    -- `search` is the search that counts exactly. The ids that were seen are in memory, so that
    -- their number is a `u64`.
    unfoldable pub count_events_report :
        BaseRelayLimits → List PocketFilter → Result BaseRelayError BaseRelayCountEventsReport
    unfolding count_loop new_count_hll suppress_for_filter_targets into_hex
    count_events_report limits filters = do
      made ← new_count_hll filters
      c ← count_loop limits filters (record {
        seen = [];
        denied = false;
        metrics = no_metrics;
        sketch = suppress_for_filter_targets groups filters made;
      })
      ok (record {
        count = length c.seen;
        hll = into_hex c.sketch;
        group_read_denied = c.denied;
        query_metrics = c.metrics;
      })
