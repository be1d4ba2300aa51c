-- ===== src/Runtime/Relay/Visible.antt =====
-- Which events a query returns, and in which order (relay/core.rs).
use tangle.Common.{
  ℕ, zero, suc, ◌≡◌, refl, sym, inl, inr, ◌⊎◌, Bool, true, false, Option, none, some, List, [], ◌∷◌,
  ◌++◌, ok, >>=-eq-ok, In-sort_by, In, here, there, In-uncons, take, arith, Bool-cases,
  Option-cases, Result-cases, contains, subst, add, list_ord, nat_ord, pair_ord, reverse_ord,
  Reverse, BTreeSet,
}
use tangle.Protocol.{EventId}
use tangle.Groups.EventView.{PocketEvent}
use tangle.Groups.WriteGate.{GroupAuthContext}
use tangle.Runtime.Relay.{PocketFilter, BaseRelayLimits, effective_pocket_filter_limit}
use tangle.Runtime.Relay.Queries.{
  Search, Screen, Screened, match, GroupReads, group_read_gate_visible_to_auth,
  BaseRelayEventQueryReport, newest_first, dedupe, sort_and_dedupe_query_events, screen,
  pocket_filter_with_limit_mode, apply_default_limit, query_filter_events_report, query_loop,
  query_events_report, no_events, finish_query,
}

In-dedupe :
    (event : PocketEvent) (seen : BTreeSet EventId) (events : List PocketEvent)
    → In event (dedupe seen events)
    → In event events
unfolding dedupe
In-dedupe event seen [] n = n
In-dedupe event seen (x ∷ events) n = elim (Bool-cases (contains {K = EventId} x.id_hex seen)) [
  | inl e ↦ there (In-dedupe event seen events (rw (dedupe, e) at n))
  | inr e ↦ elim (In-uncons (rw (dedupe, e) at n)) [
    | inl same ↦ here same
    | inr later ↦ there (In-dedupe event (add x.id_hex seen) events later)
  ]
]

In-sort_and_dedupe :
    (event : PocketEvent) (events : List PocketEvent)
    → In event (sort_and_dedupe_query_events events)
    → In event events
unfolding sort_and_dedupe_query_events
In-sort_and_dedupe event events n =
    (In-sort_by {K = Reverse × EventId} newest_first event events).0 (In-dedupe event [] _ n)

In-take :
    (event : PocketEvent) (n : ℕ) (events : List PocketEvent)
    → In event (take n events)
    → In event events
In-take event zero events m = elim m [ ]
In-take event (suc n) [] m = elim m [ ]
In-take event (suc n) (x ∷ events) m = elim (In-uncons m) [
  | inl same ↦ here same
  | inr later ↦ there (In-take event n events later)
]

In-append :
    (event : PocketEvent) (xs ys : List PocketEvent)
    → In event (xs ++ ys)
    → In event xs ⊎ In event ys
In-append event [] ys n = inr n
In-append event (x ∷ xs) ys n = elim (In-uncons n) [
  | inl same ↦ inl (here same)
  | inr later ↦ elim (In-append event xs ys later) [ inl a ↦ inl (there a) | inr b ↦ inr b ]
]

-- What the library documents of its search: it returns only events that the screen matched.
abbrev pub ReturnsMatches : Search → Type 0
ReturnsMatches search =
    (filter : PocketFilter) (test : Screen) (cells after : Screened) (events : List PocketEvent)
    (denied : Bool) (event : PocketEvent)
    → search.find_events filter test cells ≡ some (after, events, denied)
    → In event events
    → (found : Screened) × ((test found event).1 ≡ match)

module _ (search : Search) (groups : Option GroupReads) (auth : GroupAuthContext)
    (documented : ReturnsMatches search) where
  screen-match :
      (filter : PocketFilter) (cells : Screened) (event : PocketEvent)
      → (screen search groups auth filter cells event).1 ≡ match
      → (search.event_matches filter event ≡ some true)
        × (group_read_gate_visible_to_auth groups event auth ≡ ok true)
  unfolding screen
  screen-match filter cells event h = elim (Option-cases cells.screen_error) [
    | inr (e, failed) ↦ absurd (cc (rw (screen, failed) at h))
    | inl fine ↦ elim (Option-cases (search.event_matches filter event)) [
      | inl unread ↦ absurd (cc (rw (screen, fine, unread) at h))
      | inr (false, other) ↦ absurd (cc (rw (screen, fine, other) at h))
      | inr (true, matched) ↦
          elim (Result-cases (group_read_gate_visible_to_auth groups event auth)) [
            | inr (e, failed) ↦ absurd (cc (rw (screen, fine, matched, failed) at h))
            | inl (false, hidden) ↦ absurd (cc (rw (screen, fine, matched, hidden) at h))
            | inl (true, shown) ↦ (matched, shown)
          ]
    ]
  ]

  -- What makes an event an answer to a filter.
  abbrev pub IsAnswer : BaseRelayLimits → PocketFilter → PocketEvent → Type 0
  IsAnswer limits filter event =
      (limited : PocketFilter) × (pocket_filter_with_limit_mode search limits filter
          apply_default_limit
        ≡ ok limited)
      × (search.event_matches limited event ≡ some true)
      × (group_read_gate_visible_to_auth groups event auth ≡ ok true)

  report-IsAnswer :
      (limits : BaseRelayLimits) (filter : PocketFilter) (report : BaseRelayEventQueryReport)
      (event : PocketEvent)
      → query_filter_events_report search groups auth limits filter apply_default_limit ≡ ok report
      → In event report.events
      → IsAnswer limits filter event
  unfolding query_filter_events_report
  report-IsAnswer limits filter report event h n =
      let (limited, e, h1) =
        >>=-eq-ok (pocket_filter_with_limit_mode search limits filter apply_default_limit) _ h in
      let no_cells : Screened = record { screen_error = none; candidates = 0; redactions = 0 } in
      elim (Option-cases
        (search.find_events limited (screen search groups auth limited) no_cells)) [
          | inl unread ↦ absurd (cc (rw unread at h1))
          | inr ((after, events, denied), found) ↦ elim (Option-cases after.screen_error) [
            | inr (x, failed) ↦ absurd (cc (rw (found, failed) at h1))
            | inl fine ↦
                let made = rw (found, fine) at h1 in
                let same : events ≡ report.events = ground (arith, made) in
                let (cells, matched) =
                  documented limited (screen search groups auth limited) no_cells after events
                    denied event found (subst (In event) (sym same) n) in
                let (a, b) = screen-match limited cells event matched in (limited, e, a, b)
          ]
        ]

  abbrev pub AnswersOne : BaseRelayLimits → List PocketFilter → PocketEvent → Type 0
  AnswersOne limits filters event =
      (filter : PocketFilter) × In filter filters × IsAnswer limits filter event

  later_filter :
      (limits : BaseRelayLimits) (filter : PocketFilter) (filters : List PocketFilter)
      (event : PocketEvent)
      → AnswersOne limits filters event
      → AnswersOne limits (filter ∷ filters) event
  later_filter limits filter filters event (f, m, a) = (f, there m, a)

  query_loop-AnswersOne :
      (limits : BaseRelayLimits) (filters : List PocketFilter)
      (total report : BaseRelayEventQueryReport) (event : PocketEvent)
      → query_loop search groups auth limits total filters ≡ ok report
      → In event report.events
      → In event total.events ⊎ AnswersOne limits filters event
  unfolding query_loop
  query_loop-AnswersOne limits [] total report event h n =
      let same : report ≡ total = ground (arith, h) in
      inl (subst (λ (r : BaseRelayEventQueryReport). In event r.events) same n)
  query_loop-AnswersOne limits (filter ∷ filters) total report event h n =
      let (one, e, h1) =
        >>=-eq-ok (query_filter_events_report search groups auth limits filter apply_default_limit)
          _ h in
      let sorted = sort_and_dedupe_query_events one.events in
      let bound = effective_pocket_filter_limit limits filter in
      elim (query_loop-AnswersOne limits filters _ report event h1 n) [
        | inr later ↦ inr (later_filter limits filter filters event later)
        | inl collected ↦ elim (In-append event total.events (take bound sorted) collected) [
          | inl before ↦ inl before
          | inr new ↦
              let in_one = In-sort_and_dedupe event one.events (In-take event bound sorted new) in
              inr (filter, here refl, report-IsAnswer limits filter one event e in_one)
        ]
      ]

  -- A query returns only events that match one of its filters and that the read gate shows to the
  -- connection, when the search of the store returns only events that its screen matched.
  pub query_events_report_visible :
      (limits : BaseRelayLimits) (filters : List PocketFilter) (report : BaseRelayEventQueryReport)
      (event : PocketEvent)
      → query_events_report search groups auth limits filters ≡ ok report
      → In event report.events
      → AnswersOne limits filters event
  unfolding query_events_report
  query_events_report_visible limits filters report event h n =
      let (total, e, h1) = >>=-eq-ok (query_loop search groups auth limits no_events filters) _ h in
      let same : finish_query total ≡ report = ground arith in
      let listed = subst (λ (r : BaseRelayEventQueryReport). In event r.events) (sym same) n in
      let collected = In-sort_and_dedupe event total.events listed in
      elim (query_loop-AnswersOne limits filters no_events total event e collected) [
        | inl impossible ↦ elim impossible [ ]
        | inr answer ↦ answer
      ]
