-- ===== src/Runtime/Relay/Bounded.antt =====
-- How many events a query returns (relay/core.rs).
use tangle.Common.{
  ℕ, zero, suc, ◌+◌, ◌≤◌, ◌<◌, ◌≡◌, inl, inr, Option, List, [], ◌∷◌, ◌++◌, ok, >>=-eq-ok, length,
  length-sort_by, sort_by, take, arith, Bool-cases, contains, add, list_ord, nat_ord, pair_ord,
  reverse_ord, Reverse, BTreeSet,
}
use tangle.Protocol.{EventId, u64_max}
use tangle.Groups.EventView.{PocketEvent}
use tangle.Groups.WriteGate.{GroupAuthContext}
use tangle.Runtime.Relay.{
  PocketFilter, BaseRelayLimits, add_usize, effective_pocket_filter_limit, pocket_filter_complexity,
  complexity_score, validate_pocket_query_complexity, validate_pocket_filters,
}
use tangle.Runtime.Relay.Queries.{
  Search, GroupReads, BaseRelayEventQueryReport, newest_first, dedupe, sort_and_dedupe_query_events,
  query_filter_events_report, apply_default_limit, query_loop, query_events_report, no_events,
  finish_query,
}

length-dedupe-le :
    (seen : BTreeSet EventId) (events : List PocketEvent)
    → length (dedupe seen events) ≤ length events
unfolding dedupe
length-dedupe-le seen [] = omega arith
length-dedupe-le seen (event ∷ events) =
    elim (Bool-cases (contains {K = EventId} event.id_hex seen)) [
      | inl e ↦ rw (dedupe, e) (omega (arith, length-dedupe-le seen events))
      | inr e ↦ rw (dedupe, e) (omega (arith, length-dedupe-le (add event.id_hex seen) events))
    ]

length-sort_and_dedupe-le :
    (events : List PocketEvent) → length (sort_and_dedupe_query_events events) ≤ length events
unfolding sort_and_dedupe_query_events
length-sort_and_dedupe-le events = omega (
  arith,
  length-dedupe-le [] (sort_by {K = Reverse × EventId} newest_first events),
  length-sort_by {K = Reverse × EventId} newest_first events,
)

length-take-le : (n : ℕ) (events : List PocketEvent) → length (take n events) ≤ n
length-take-le zero events = omega arith
length-take-le (suc n) [] = omega arith
length-take-le (suc n) (event ∷ events) = omega (arith, length-take-le n events)

length-append : (xs ys : List PocketEvent) → length (xs ++ ys) ≡ length xs + length ys
length-append [] ys = omega arith
length-append (x ∷ xs) ys = omega (arith, length-append xs ys)

module _ (limits : BaseRelayLimits) where
  -- What the filters ask for in all.
  abbrev asked_for : List PocketFilter → ℕ
  asked_for [] = 0
  asked_for (filter ∷ filters) = effective_pocket_filter_limit limits filter + asked_for filters

  complexity-le :
      (filter : PocketFilter)
      → pocket_filter_complexity limits filter < u64_max
      → effective_pocket_filter_limit limits filter ≤ pocket_filter_complexity limits filter
  unfolding pocket_filter_complexity
  complexity-le filter h = last_le _ (effective_pocket_filter_limit limits filter) h
    where
      last_le : (a b : ℕ) → add_usize a b < u64_max → b ≤ add_usize a b
      last_le a b h = ground arith

  complexity_score-le :
      (filters : List PocketFilter) (total : ℕ)
      → complexity_score limits filters total < u64_max
      → total + asked_for filters ≤ complexity_score limits filters total
  unfolding complexity_score
  complexity_score-le [] total h = omega arith
  complexity_score-le (filter ∷ filters) total h =
      let later =
        complexity_score-le filters (add_usize total (pocket_filter_complexity limits filter)) h in
      ground (arith, later, h, complexity-le filter)

  module _ (search : Search) (groups : Option GroupReads) (auth : GroupAuthContext) where
    query_loop-length :
        (filters : List PocketFilter) (total report : BaseRelayEventQueryReport)
        → query_loop search groups auth limits total filters ≡ ok report
        → length report.events ≤ length total.events + asked_for filters
    unfolding query_loop
    query_loop-length [] total report h =
        let same : total ≡ report = ground arith in rw (← same) (omega arith)
    query_loop-length (filter ∷ filters) total report h =
        let (one, e, h1) =
          >>=-eq-ok
            (query_filter_events_report search groups auth limits filter apply_default_limit) _ h in
        let more =
          take (effective_pocket_filter_limit limits filter)
            (sort_and_dedupe_query_events one.events) in
        omega (
          arith,
          query_loop-length filters _ report h1,
          length-append total.events more,
          length-take-le (effective_pocket_filter_limit limits filter)
              (sort_and_dedupe_query_events one.events),
        )

    -- A request whose filters pass the checks is answered by at most as many events as the bound
    -- on the complexity of a query, when that bound is below the largest machine integer.
    pub query_events_report_bounded :
        (filters : List PocketFilter) (report : BaseRelayEventQueryReport)
        → limits.max_query_complexity < u64_max
        → validate_pocket_filters limits filters ≡ ok tt
        → query_events_report search groups auth limits filters ≡ ok report
        → length report.events ≤ limits.max_query_complexity
    unfolding query_events_report validate_pocket_filters validate_pocket_query_complexity
    query_events_report_bounded filters report bound valid h =
        let (total, e, h1) =
          >>=-eq-ok (query_loop search groups auth limits no_events filters) _ h in
        let same : finish_query total ≡ report = ground arith in
        let score : complexity_score limits filters 0 ≤ limits.max_query_complexity =
          ground arith in
        rw (← same) (
          omega (
            arith,
            length-sort_and_dedupe-le total.events,
            query_loop-length filters no_events total e,
            complexity_score-le filters 0 (omega (arith, score)),
            score,
          ))
