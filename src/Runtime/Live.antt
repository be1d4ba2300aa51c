-- ===== src/Runtime/Live.antt =====
-- crates/tangle_runtime/src/relay/live.rs: the subscriptions of a connection. Filters are of the
-- store's library: their type and `event_matches` are parameters.
pub mod Bounds
pub mod Fanout
use tangle.Common.{
  ℕ, suc, Bool, true, false, ◌&&◌, not, Option, none, some, List, [], ◌∷◌, ◌++◌, Result, ok, err,
  ◌>>=◌, ◌>>◌, ltb, leb, ◌==◌, if◌then◌else◌, BTreeMap, get, insert, remove, contains_key, length,
  list_ord, nat_ord,
}
use tangle.Protocol.{SubscriptionId}
use tangle.Groups.EventView.{PocketEvent}
use tangle.Groups.WriteGate.{GroupAuthContext}
use tangle.Runtime.Errors.{BaseRelayError, invalid}

pub record LiveSubscriptionSet (PocketFilter : Type 0) : Type 0 where
  pub subscriptions : BTreeMap SubscriptionId (List PocketFilter)
  pub max_subscriptions : ℕ

pub record LiveSubscriptionMatch (PocketFilter : Type 0) : Type 0 where
  pub subscription_id : SubscriptionId
  pub matched_filters : List (ℕ × PocketFilter)

pub data CloseResult : Type 0 where
  closed not_found : CloseResult

module _ {PocketFilter : Type 0} where
  unfoldable pub new_set : ℕ → ℕ → Result BaseRelayError (LiveSubscriptionSet PocketFilter)
  new_set max_pending_events max_subscriptions =
      if max_pending_events == 0
      then err invalid
      else if max_subscriptions == 0
      then err invalid
      else ok (record { subscriptions = []; max_subscriptions = max_subscriptions })

  abbrev pub no_filter : List PocketFilter → Bool
  no_filter [] = true
  no_filter (_ ∷ _) = false

  unfoldable pub ensure_can_subscribe :
      SubscriptionId
      → List PocketFilter
      → LiveSubscriptionSet PocketFilter
      → Result BaseRelayError (Unit {0})
  ensure_can_subscribe subscription_id filters s =
      if no_filter filters
      then err invalid
      else if not (contains_key subscription_id s.subscriptions)
          && leb s.max_subscriptions (length s.subscriptions)
      then err invalid
      else ok tt

  unfoldable pub subscribe :
      SubscriptionId
      → List PocketFilter
      → LiveSubscriptionSet PocketFilter
      → Result BaseRelayError (LiveSubscriptionSet PocketFilter)
  subscribe subscription_id filters s = do
    ensure_can_subscribe subscription_id filters s
    ok (record s { subscriptions = insert subscription_id filters s.subscriptions })

  unfoldable pub close :
      SubscriptionId
      → LiveSubscriptionSet PocketFilter
      → LiveSubscriptionSet PocketFilter × CloseResult
  close subscription_id s = (
    record s { subscriptions = remove subscription_id s.subscriptions },
    if contains_key subscription_id s.subscriptions then closed else not_found,
  )

  unfoldable pub close_all : LiveSubscriptionSet PocketFilter → LiveSubscriptionSet PocketFilter × ℕ
  close_all s = (record s { subscriptions = [] }, length s.subscriptions)

  -- `event_matches` fails on an event that the library cannot read.
  module _ (event_matches : PocketFilter → PocketEvent → Result BaseRelayError Bool)
      (event : PocketEvent) where
    unfoldable pub match_filters :
        ℕ → List PocketFilter → Result BaseRelayError (List (ℕ × PocketFilter))
    match_filters filter_index [] = ok []
    match_filters filter_index (filter ∷ filters) = do
      matches ← event_matches filter event
      rest ← match_filters (suc filter_index) filters
      ok (if matches then (filter_index, filter) ∷ rest else rest)

    abbrev pub add_match :
        Bool
        → SubscriptionId
        → List (ℕ × PocketFilter)
        → List (LiveSubscriptionMatch PocketFilter)
        → List (LiveSubscriptionMatch PocketFilter)
    add_match visible subscription_id [] matched = matched
    add_match visible subscription_id (first ∷ rest) matched =
        if visible
        then record { subscription_id = subscription_id; matched_filters = first ∷ rest } ∷ matched
        else matched

    unfoldable pub fanout_loop :
        Bool
        → BTreeMap SubscriptionId (List PocketFilter)
        → Result BaseRelayError (List (LiveSubscriptionMatch PocketFilter))
    unfolding match_filters
    fanout_loop visible [] = ok []
    fanout_loop visible ((subscription_id, filters) ∷ subscriptions) = do
      matched_filters ← match_filters 0 filters
      rest ← fanout_loop visible subscriptions
      ok (add_match visible subscription_id matched_filters rest)

    unfoldable pub fanout :
        (PocketEvent → GroupAuthContext → Bool)
        → GroupAuthContext
        → LiveSubscriptionSet PocketFilter
        → Result BaseRelayError (List (LiveSubscriptionMatch PocketFilter))
    unfolding fanout_loop
    fanout visible_to_auth auth s = fanout_loop (visible_to_auth event auth) s.subscriptions
