-- ===== src/Runtime/Relay/Requests.antt =====
-- crates/tangle_runtime/src/relay/core.rs: the answers to requests for events, to counts and to
-- authentication. Of the texts that close a subscription, the reason is kept.
pub mod Replies
use tangle.Common.{
  ℕ, Bool, true, false, Option, none, some, List, [], ◌∷◌, ◌++◌, map, Result, ok, err, ◌>>=◌, ◌>>◌,
  Text, if◌then◌else◌,
}
use tangle.Protocol.{SubscriptionId, EventId, UnixTimestamp}
use tangle.Groups.EventView.{PocketEvent}
use tangle.Groups.WriteGate.{GroupAuthContext}
use tangle.Runtime.Errors.{BaseRelayError, auth_required, restricted}
use tangle.Runtime.Relay.{
  PocketFilter, BaseRelayLimits, validate_subscription_id, validate_pocket_filters,
}
use tangle.Runtime.Relay.Queries.{
  Search, GroupReads, BaseRelayQueryMetrics, no_metrics, BaseRelayEventQueryReport,
  query_events_report,
}
use tangle.Runtime.Relay.Counts.{Sketches}
use tangle.Runtime.Relay.Counts.Counting.{BaseRelayCountEventsReport, count_events_report}

pub data CloseReason : Type 0 where
  unsupported_search : CloseReason
  close_error : BaseRelayError → CloseReason

-- The messages of these answers.
pub data RelayMessage : Type 0 where
  eose : SubscriptionId → RelayMessage
  closed : SubscriptionId → CloseReason → RelayMessage
  count_message : SubscriptionId → (count : ℕ) → (hll : Option Text) → RelayMessage

pub data RuntimeRelayMessage : Type 0 where
  event_message : SubscriptionId → PocketEvent → RuntimeRelayMessage
  protocol : RelayMessage → RuntimeRelayMessage

pub record BaseRelayQueryReport : Type 0 where
  pub messages : List RuntimeRelayMessage
  pub group_read_denied : Bool
  pub query_metrics : BaseRelayQueryMetrics

pub record BaseRelayCountReport : Type 0 where
  pub message : RelayMessage
  pub group_read_denied : Bool
  pub query_metrics : BaseRelayQueryMetrics

abbrev pub unsupported_search_present_closed : SubscriptionId → Bool → Option RelayMessage
unsupported_search_present_closed id true = some (closed id unsupported_search)
unsupported_search_present_closed id false = none

unfoldable pub redacted_req_closed : SubscriptionId → GroupAuthContext → RelayMessage
redacted_req_closed id auth = elim auth.authenticated_pubkeys [
  | [] ↦ closed id (close_error auth_required)
  | _ ∷ _ ↦ closed id (close_error restricted)
]

abbrev pub event_messages : SubscriptionId → List PocketEvent → List RuntimeRelayMessage
event_messages id [] = []
event_messages id (event ∷ events) = event_message id event ∷ event_messages id events

module _ (search : Search) (groups : Option GroupReads) (auth : GroupAuthContext)
    (limits : BaseRelayLimits) where
  abbrev pub ending : SubscriptionId → Bool → RelayMessage
  ending id true = redacted_req_closed id auth
  ending id false = eose id

  abbrev pub query_report : SubscriptionId → BaseRelayEventQueryReport → BaseRelayQueryReport
  query_report id report = record {
    messages =
        event_messages id report.events ++ protocol (ending id report.group_read_denied) ∷ [];
    group_read_denied = report.group_read_denied;
    query_metrics = report.query_metrics;
  }

  abbrev pub query_unless_closed :
      SubscriptionId
      → List PocketFilter
      → Option RelayMessage
      → Result BaseRelayError BaseRelayQueryReport
  query_unless_closed id filters (some message) = ok (record {
    messages = protocol message ∷ [];
    group_read_denied = false;
    query_metrics = no_metrics;
  })
  query_unless_closed id filters none = do
    report ← query_events_report search groups auth limits filters
    ok (query_report id report)

  -- `query_req_with_group_auth_shared_services`.
  unfoldable pub query_req :
      SubscriptionId → List PocketFilter → Bool → Result BaseRelayError BaseRelayQueryReport
  unfolding redacted_req_closed
  query_req id filters search_present = do
    validate_subscription_id limits id
    validate_pocket_filters limits filters
    query_unless_closed id filters (unsupported_search_present_closed id search_present)

  abbrev count_unless_closed :
      Sketches
      → SubscriptionId
      → List PocketFilter
      → Option RelayMessage
      → Result BaseRelayError BaseRelayCountReport
  count_unless_closed sketches id filters (some message) =
      ok (record { message = message; group_read_denied = false; query_metrics = no_metrics })
  count_unless_closed sketches id filters none = do
    report ← count_events_report sketches search groups auth limits filters
    ok (record {
      message = count_message id report.count report.hll;
      group_read_denied = report.group_read_denied;
      query_metrics = report.query_metrics;
    })

  -- `handle_count_with_group_auth_shared_services`.
  unfoldable pub handle_count :
      Sketches
      → SubscriptionId
      → List PocketFilter
      → Bool
      → Result BaseRelayError BaseRelayCountReport
  handle_count sketches id filters search_present = do
    validate_subscription_id limits id
    validate_pocket_filters limits filters
    count_unless_closed sketches id filters (unsupported_search_present_closed id search_present)
