-- ===== src/Runtime/Relay/Queries.antt =====
-- crates/tangle_runtime/src/relay/core.rs: a query of the stored events. The search of the store is
-- of a library: it calls the screen on candidates and returns events with a mark of redaction.
use tangle.Common.{
  ℕ, ◌==◌, Bool, true, false, ◌||◌, Option, none, some, List, [], ◌∷◌, ◌++◌, Result, ok, err, ◌>>=◌,
  leb, nat_ord, list_ord, pair_ord, Reverse, reverse_ord, sort_by, contains, add, take, length,
  if◌then◌else◌, BTreeSet,
}
use tangle.Protocol.{saturating_add, u32_max, u64_max, EventId}
use tangle.Groups.Config.{GroupLimitsConfig}
use tangle.Groups.EventView.{PocketEvent}
use tangle.Groups.ReadGate.{GroupReadGate, event_visible_to_auth}
use tangle.Groups.WriteGate.{GroupAuthContext}
use tangle.Runtime.Errors.{BaseRelayError, error, from_group, invalid}
use tangle.Runtime.Relay.{PocketFilter, BaseRelayLimits, effective_pocket_filter_limit}

pub data PocketScreenResult : Type 0 where
  match mismatch redacted : PocketScreenResult

pub record BaseRelayQueryMetrics : Type 0 where
  pub candidates_scanned : ℕ
  pub returned_events : ℕ
  pub redacted_events : ℕ

abbrev pub no_metrics : BaseRelayQueryMetrics
no_metrics = record { candidates_scanned = 0; returned_events = 0; redacted_events = 0 }

abbrev pub add_metrics : BaseRelayQueryMetrics → BaseRelayQueryMetrics → BaseRelayQueryMetrics
add_metrics a b = record {
  candidates_scanned = saturating_add u64_max a.candidates_scanned b.candidates_scanned;
  returned_events = saturating_add u64_max a.returned_events b.returned_events;
  redacted_events = saturating_add u64_max a.redacted_events b.redacted_events;
}

-- The cells that the screen writes to.
pub record Screened : Type 0 where
  pub screen_error : Option BaseRelayError
  pub candidates : ℕ
  pub redactions : ℕ

abbrev pub Screen : Type 0
Screen = Screened → PocketEvent → Screened × PocketScreenResult

-- The search with its screen, for a database at one time, and the test of a filter.
pub record Search : Type 0 where
  pub find_events : PocketFilter → Screen → Screened → Option (Screened × List PocketEvent × Bool)
  pub event_matches : PocketFilter → PocketEvent → Option Bool
  -- The filter of the given fields.
  pub new_filter : PocketFilter → Option PocketFilter

pub record BaseRelayEventQueryReport : Type 0 where
  pub events : List PocketEvent
  pub group_read_denied : Bool
  pub query_metrics : BaseRelayQueryMetrics

-- The service of the groups as a query sees it.
pub record GroupReads : Type 0 where
  pub gate : GroupReadGate
  pub group_limits : GroupLimitsConfig

abbrev pub group_read_gate_visible_to_auth :
    Option GroupReads → PocketEvent → GroupAuthContext → Result BaseRelayError Bool
group_read_gate_visible_to_auth none event auth = ok true
group_read_gate_visible_to_auth (some groups) event auth =
    from_group (event_visible_to_auth groups.gate event auth groups.group_limits)

-- The newest first, then by id, whose hexadecimal digits are in the order of its bytes.
abbrev pub newest_first : PocketEvent → Reverse × EventId
newest_first event = (record { value = event.created_at }, event.id_hex)

-- `filter` with the set of the ids that were seen.
unfoldable pub dedupe : BTreeSet EventId → List PocketEvent → List PocketEvent
dedupe seen [] = []
dedupe seen (event ∷ events) = elim (contains event.id_hex seen) [
  | true ↦ dedupe seen events
  | false ↦ event ∷ dedupe (add event.id_hex seen) events
]

unfoldable pub sort_and_dedupe_query_events : List PocketEvent → List PocketEvent
unfolding dedupe
sort_and_dedupe_query_events events =
    dedupe [] (sort_by {K = Reverse × EventId} newest_first events)

pub data BaseRelayFilterLimitMode : Type 0 where
  apply_default_limit preserve_count_limitless : BaseRelayFilterLimitMode
  override_limit : ℕ → BaseRelayFilterLimitMode

abbrev limit_of_mode :
    BaseRelayLimits → PocketFilter → BaseRelayFilterLimitMode → Result BaseRelayError ℕ
limit_of_mode limits filter apply_default_limit =
    if filter.limit == u32_max
    then (if leb limits.default_limit u32_max then ok limits.default_limit else err invalid)
    else ok filter.limit
limit_of_mode limits filter preserve_count_limitless = ok u32_max
limit_of_mode limits filter (override_limit limit) = ok limit

abbrev pub or_error : {A : Type 0} → Option A → Result BaseRelayError A
or_error none = err error
or_error (some a) = ok a

unfoldable pub pocket_filter_with_limit_mode :
    Search
    → BaseRelayLimits
    → PocketFilter
    → BaseRelayFilterLimitMode
    → Result BaseRelayError PocketFilter
pocket_filter_with_limit_mode search limits filter limit_mode = do
  limit ← limit_of_mode limits filter limit_mode
  tags ← or_error filter.tags
  or_error (search.new_filter (record filter { limit = limit; tags = some tags }))

abbrev pub no_events : BaseRelayEventQueryReport
no_events = record { events = []; group_read_denied = false; query_metrics = no_metrics }

abbrev pub finish_query : BaseRelayEventQueryReport → BaseRelayEventQueryReport
finish_query total =
    let events = sort_and_dedupe_query_events total.events in
    record total {
      events = events;
      query_metrics = record total.query_metrics { returned_events = length events };
    }

module _ (search : Search) (groups : Option GroupReads) (auth : GroupAuthContext) where
  abbrev screen_visible : Screened → Result BaseRelayError Bool → Screened × PocketScreenResult
  screen_visible cells (ok true) = (cells, match)
  screen_visible cells (ok false) =
      (record cells { redactions = saturating_add u64_max cells.redactions 1 }, redacted)
  screen_visible cells (err e) = (record cells { screen_error = some e }, mismatch)

  abbrev screen_matched : Screened → PocketEvent → Option Bool → Screened × PocketScreenResult
  screen_matched cells event none = (record cells { screen_error = some error }, mismatch)
  screen_matched cells event (some false) = (cells, mismatch)
  screen_matched cells event (some true) =
      screen_visible cells (group_read_gate_visible_to_auth groups event auth)

  abbrev screen_unless_failed :
      PocketFilter → Screened → PocketEvent → Option BaseRelayError → Screened × PocketScreenResult
  screen_unless_failed filter cells event (some e) = (cells, mismatch)
  screen_unless_failed filter cells event none =
      screen_matched cells event (search.event_matches filter event)

  -- The closure that the search calls.
  unfoldable pub screen : PocketFilter → Screen
  screen filter cells event =
      screen_unless_failed filter
        (record cells { candidates = saturating_add u64_max cells.candidates 1 }) event
        cells.screen_error

  abbrev report_of_search :
      Option (Screened × List PocketEvent × Bool) → Result BaseRelayError BaseRelayEventQueryReport
  report_of_search none = err error
  report_of_search (some (cells, events, denied)) = elim cells.screen_error [
    | some e ↦ err e
    | none ↦ ok (record {
      events = events;
      group_read_denied = denied;
      query_metrics = record {
        candidates_scanned = cells.candidates;
        returned_events = 0;
        redacted_events = cells.redactions;
      };
    })
  ]

  abbrev no_cells : Screened
  no_cells = record { screen_error = none; candidates = 0; redactions = 0 }

  unfoldable pub query_filter_events_report :
      BaseRelayLimits
      → PocketFilter
      → BaseRelayFilterLimitMode
      → Result BaseRelayError BaseRelayEventQueryReport
  unfolding pocket_filter_with_limit_mode screen
  query_filter_events_report limits filter limit_mode = do
    limited ← pocket_filter_with_limit_mode search limits filter limit_mode
    report_of_search (search.find_events limited (screen limited) no_cells)

  -- The loop over the filters.
  unfoldable pub query_loop :
      BaseRelayLimits
      → BaseRelayEventQueryReport
      → List PocketFilter
      → Result BaseRelayError BaseRelayEventQueryReport
  unfolding query_filter_events_report sort_and_dedupe_query_events
  query_loop limits total [] = ok total
  query_loop limits total (filter ∷ filters) = do
    report ← query_filter_events_report limits filter apply_default_limit
    query_loop limits
        (record {
          events =
              total.events
              ++ take (effective_pocket_filter_limit limits filter)
                  (sort_and_dedupe_query_events report.events);
          group_read_denied = total.group_read_denied || report.group_read_denied;
          query_metrics = add_metrics total.query_metrics report.query_metrics;
        })
        filters

  unfoldable pub query_events_report :
      BaseRelayLimits → List PocketFilter → Result BaseRelayError BaseRelayEventQueryReport
  unfolding query_loop
  query_events_report limits filters = do
    total ← query_loop limits no_events filters
    ok (finish_query total)
