-- ===== src/Runtime/Relay/Requests/Replies.antt =====
-- What a connection gets in answer to a request for events (relay/core.rs).
use tangle.Common.{
  ◌≤◌, ◌<◌, ◌≡◌, refl, subst, ap, inl, inr, ◌⊎◌, Bool, true, false, Option, List, [], ◌∷◌, ◌++◌,
  Result, ok, err, >>=-eq-ok, arith, length, In,
}
use tangle.Protocol.{SubscriptionId, PublicKeyHex, u64_max}
use tangle.Groups.EventView.{PocketEvent}
use tangle.Groups.WriteGate.{GroupAuthContext}
use tangle.Runtime.Errors.{BaseRelayError, auth_required, restricted}
use tangle.Runtime.Relay.{
  PocketFilter, BaseRelayLimits, validate_subscription_id, validate_pocket_filters,
}
use tangle.Runtime.Relay.Queries.{
  Search, GroupReads, BaseRelayEventQueryReport, query_events_report,
}
use tangle.Runtime.Relay.Bounded.{query_events_report_bounded}
use tangle.Runtime.Relay.Visible.{ReturnsMatches, AnswersOne, query_events_report_visible}
use tangle.Runtime.Relay.Requests.{
  RelayMessage, eose, closed, protocol, CloseReason, unsupported_search, close_error, ending,
  unsupported_search_present_closed, event_messages, BaseRelayQueryReport, redacted_req_closed,
  query_report, query_unless_closed, query_req,
}

abbrev answered :
    Result BaseRelayError BaseRelayQueryReport → BaseRelayQueryReport → BaseRelayQueryReport
answered (ok report) other = report
answered (err e) other = other

ok-same :
    (a b : BaseRelayQueryReport)
    → ◌≡◌ {A = Result BaseRelayError BaseRelayQueryReport} (ok a) (ok b)
    → a ≡ b
ok-same a b e = ap (λ r. answered r a) e

-- The message that ends an answer.
abbrev pub Ends : SubscriptionId → RelayMessage → Type 0
Ends id message = (message ≡ eose id) ⊎ ((reason : CloseReason) × (message ≡ closed id reason))

module _ (search : Search) (groups : Option GroupReads) (auth : GroupAuthContext)
    (documented : ReturnsMatches search) (limits : BaseRelayLimits) where
  abbrev pub IsReply : SubscriptionId → List PocketFilter → BaseRelayQueryReport → Type 0
  IsReply id filters report =
      (events : List PocketEvent) × (final : RelayMessage) × (report.messages
        ≡ event_messages id events ++ protocol final ∷ [])
      × Ends id final
      × (report.group_read_denied ≡ true → (reason : CloseReason) × (final ≡ closed id reason))
      × (length events ≤ limits.max_query_complexity)
      × ((event : PocketEvent)
          → In event events
          → AnswersOne search groups auth documented limits filters event)

  redacted-closed :
      (id : SubscriptionId)
      → (reason : CloseReason) × (redacted_req_closed id auth ≡ closed id reason)
  unfolding redacted_req_closed
  redacted-closed id = by_keys auth.authenticated_pubkeys refl
    where
      by_keys :
          (keys : List PublicKeyHex)
          → auth.authenticated_pubkeys ≡ keys
          → (reason : CloseReason) × (redacted_req_closed id auth ≡ closed id reason)
      by_keys [] e = (close_error auth_required, rw (redacted_req_closed, e) refl)
      by_keys (key ∷ keys) e = (close_error restricted, rw (redacted_req_closed, e) refl)

  ending-Ends :
      (id : SubscriptionId) (denied : Bool)
      → Ends id (ending search groups auth limits id denied)
        × (denied ≡ true
            → (reason : CloseReason) × (ending search groups auth limits id denied
                ≡ closed id reason))
  ending-Ends id true = (inr (redacted-closed id), λ e. redacted-closed id)
  ending-Ends id false = (inl refl, λ e. absurd (cc e))

  query_report-IsReply :
      (id : SubscriptionId) (filters : List PocketFilter) (report : BaseRelayEventQueryReport)
      → limits.max_query_complexity < u64_max
      → validate_pocket_filters limits filters ≡ ok tt
      → query_events_report search groups auth limits filters ≡ ok report
      → IsReply id filters (query_report search groups auth limits id report)
  query_report-IsReply id filters report bound valid h =
      let (ends, withheld) = ending-Ends id report.group_read_denied in
      (
        report.events,
        ending search groups auth limits id report.group_read_denied,
        refl,
        ends,
        withheld,
        query_events_report_bounded limits search groups auth filters report bound valid h,
        λ event n.
            query_events_report_visible search groups auth documented limits filters report event h
              n,
      )

  query_unless_closed-IsReply :
      (id : SubscriptionId) (filters : List PocketFilter) (search_present : Bool)
      (report : BaseRelayQueryReport)
      → limits.max_query_complexity < u64_max
      → validate_pocket_filters limits filters ≡ ok tt
      → query_unless_closed search groups auth limits id filters
          (unsupported_search_present_closed id search_present)
        ≡ ok report
      → IsReply id filters report
  query_unless_closed-IsReply id filters true report bound valid h =
      subst (IsReply id filters) (ok-same _ report h) (
        [],
        closed id unsupported_search,
        refl,
        inr (unsupported_search, refl),
        λ e. absurd (cc e),
        omega arith,
        λ event n. elim n [ ],
      )
  query_unless_closed-IsReply id filters false report bound valid h =
      let (made, e, h1) = >>=-eq-ok (query_events_report search groups auth limits filters) _ h in
      subst (IsReply id filters) (ok-same _ report h1)
        (query_report-IsReply id filters made bound valid e)

  -- An answer to a request for events is the events under its subscription and then one message
  -- that ends it, which closes the subscription where events were withheld. There are at most as
  -- many events as the bound on the complexity of a query, when that is below the largest machine
  -- integer, and each matches a filter and may be seen by the connection, when the search of the
  -- store returns only events that its screen matched.
  pub query_req_lem :
      (id : SubscriptionId) (filters : List PocketFilter) (search_present : Bool)
      (report : BaseRelayQueryReport)
      → limits.max_query_complexity < u64_max
      → query_req search groups auth limits id filters search_present ≡ ok report
      → IsReply id filters report
  unfolding query_req
  query_req_lem id filters search_present report bound h =
      let (a, named, h1) = >>=-eq-ok (validate_subscription_id limits id) _ h in
      let (b, valid, h2) = >>=-eq-ok (validate_pocket_filters limits filters) _ h1 in
      query_unless_closed-IsReply id filters search_present report bound valid h2
