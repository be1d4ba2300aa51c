-- ===== src/Tests/Sketching.antt =====
-- A count of stored events with its sketch, and the answer to a request.
use tangle.Common.{◌≡◌, ◌==◌, refl, true, false, none, some, [], ◌∷◌, ok, any, Text, codes, arith}
use tangle.Groups.EventView.{PocketEvent}
use tangle.Runtime.Relay.{PocketFilter}
use tangle.Runtime.Relay.Queries.{Search, no_metrics}
use tangle.Runtime.Relay.Counts.{
  Sketches, eligible, count_hll_filter_d_tag_mode, count_hll_filter_has_group_target,
  all_target_ids, count_hll_group_targets, count_hll_filter_target_policy,
  event_suppresses_count_hll,
}
use tangle.Runtime.Relay.Counts.Counting.{
  BaseRelayCountEventsReport, count_hll_offset, new_count_hll, suppress,
  suppress_for_filter_targets, observe, observe_all, into_hex, count_loop, count_events_report,
}
use tangle.Runtime.Relay.Counts.Private.{CountsPublic, count_events_report_private}
use tangle.Runtime.Relay.{validate_subscription_id}
use tangle.Runtime.Relay.Requests.{
  BaseRelayQueryReport, event_message, protocol, eose, closed, close_error, unsupported_search,
  redacted_req_closed, query_req, handle_count,
}
use tangle.Runtime.Relay.Requests.Replies.{IsReply, query_req_lem}
use tangle.Runtime.Errors.{auth_required}
use tangle.Groups.WriteGate.{GroupAuthContext}
use tangle.Tests.{guest, sixty_four}
use tangle.Tests.Reading.{note, both}
use tangle.Tests.Relaying.{
  relaying, search_list, settings, notes, reads_groups, search, search-ReturnsMatches, older,
  answer,
}

sketching : Unit {0}
unfolding relaying count_hll_filter_d_tag_mode count_hll_filter_has_group_target all_target_ids
    count_hll_group_targets count_hll_filter_target_policy event_suppresses_count_hll
    count_hll_offset new_count_hll suppress suppress_for_filter_targets observe observe_all into_hex
    count_loop count_events_report redacted_req_closed query_req handle_count
    validate_subscription_id
sketching = tt

-- The author that was added last.
abbrev last_author : Sketches
last_author = record {
  Hll = Text;
  new_hll = [];
  add_element = λ pubkey offset hll. some pubkey;
  to_hex_string = λ hll. hll;
  hyperloglog_offset = λ filter. some (some 8);
}

abbrev plain : PocketEvent
plain = record {
  id_hex = sixty_four b'e';
  pubkey_hex = guest;
  kind_u32 = 1;
  created_at = 40;
  raw_tags = some [];
}

abbrev counted_search : Search
counted_search = record {
  find_events = λ filter test cells. some (search_list (plain ∷ note ∷ plain ∷ []) test cells);
  event_matches = λ filter event. some (any (λ kind. kind == event.kind_u32) filter.kinds);
  new_filter = λ filter. some filter;
}

abbrev plain_notes : PocketFilter
plain_notes = record notes { kinds = 1 ∷ [] }

abbrev counted : BaseRelayCountEventsReport
counted = record {
  count = 1;
  hll = some guest;
  group_read_denied = false;
  query_metrics = record { candidates_scanned = 3; returned_events = 0; redacted_events = 0 };
}

count_runs :
    count_events_report last_author counted_search reads_groups both settings (plain_notes ∷ [])
    ≡ ok counted
unfolding sketching
count_runs = refl

-- The notes of a hidden group give no sketch, though they are counted.
hidden_test :
    count_events_report last_author counted_search reads_groups both settings (notes ∷ [])
    ≡ ok (record counted { hll = none })
unfolding sketching
hidden_test = refl

count_events_report_private_example :
    (filter : PocketFilter) × (plain_notes ∷ [] ≡ filter ∷ [])
    × (count_hll_filter_target_policy reads_groups filter ≡ eligible)
    × CountsPublic last_author reads_groups counted_search both settings filter
count_events_report_private_example =
    count_events_report_private last_author reads_groups counted_search both settings
      (plain_notes ∷ []) counted guest count_runs refl

abbrev nobody : GroupAuthContext
nobody = record { authenticated_pubkeys = [] }

abbrev reply : BaseRelayQueryReport
reply = record {
  messages =
      event_message (codes "s") note
      ∷ event_message (codes "s") older
      ∷ protocol (eose (codes "s"))
      ∷ [];
  group_read_denied = false;
  query_metrics = answer.query_metrics;
}

replied : query_req search reads_groups both settings (codes "s") (notes ∷ []) false ≡ ok reply
unfolding sketching
replied = refl

-- Without authentication the hidden group is withheld, and a count says so too.
withheld_tests :
    (query_req search reads_groups nobody settings (codes "s") (notes ∷ []) false
      ≡ ok (record {
        messages = protocol (closed (codes "s") (close_error auth_required)) ∷ [];
        group_read_denied = true;
        query_metrics = record { candidates_scanned = 3; returned_events = 0; redacted_events = 2 };
      }))
    × (handle_count search reads_groups both settings last_author (codes "s") (notes ∷ []) true
        ≡ ok (record {
          message = closed (codes "s") unsupported_search;
          group_read_denied = false;
          query_metrics = no_metrics;
        }))
unfolding sketching
withheld_tests = (refl, refl)

query_req_lem_example :
    IsReply search reads_groups both search-ReturnsMatches settings (codes "s") (notes ∷ []) reply
query_req_lem_example =
    query_req_lem search reads_groups both search-ReturnsMatches settings (codes "s") (notes ∷ [])
      false reply (omega arith) replied
