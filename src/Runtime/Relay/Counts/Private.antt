-- ===== src/Runtime/Relay/Counts/Private.antt =====
-- What the sketch of a count keeps to itself (relay/core.rs).
use tangle.Common.{
  ℕ, ◌≡◌, refl, subst, inl, inr, ◌⊎◌, Bool, true, false, Option, none, some, List, [], ◌∷◌, Result,
  ok, err, >>=-eq-ok, All, Bool-cases, Option-cases, arith, Text,
}
use tangle.Groups.EventView.{PocketEvent}
use tangle.Groups.Classification.{GroupEventClass, class_group_id, classify_group_event}
use tangle.Groups.Errors.{GroupError}
use tangle.Groups.Ids.{GroupId}
use tangle.Groups.Projection.{GroupState, group_of, tombstone_of}
use tangle.Groups.WriteGate.{GroupAuthContext}
use tangle.Runtime.Errors.{from_group}
use tangle.Runtime.Relay.{PocketFilter, BaseRelayLimits}
use tangle.Runtime.Relay.Queries.{
  Search, GroupReads, or_error, no_metrics, BaseRelayEventQueryReport, preserve_count_limitless,
  query_filter_events_report,
}
use tangle.Runtime.Relay.Counts.{
  BaseRelayCountHllTargetPolicy, eligible, suppressing, count_hll_filter_target_policy,
  event_suppresses_count_hll, Sketches,
}
use tangle.Runtime.Relay.Counts.Counting.{
  BaseRelayCountEventsReport, CountHll, Counting, sketch_at, count_hll_offset, new_count_hll,
  suppress, suppress_for_filter_targets, observe, observe_at, observe_all, after_report, into_hex,
  count_loop, count_events_report,
}
use tangle.Runtime.Relay.Counts.Silent.{
  IsSilent, into_hex-IsSilent, suppress_at, observe_all-IsSilent, count_loop-IsSilent,
}

-- An event of no group, or of a group that is live and neither private nor hidden.
abbrev pub IsPublic : Option GroupReads → PocketEvent → Type 0
IsPublic none event = Unit {0}
IsPublic (some groups) event =
    (class : GroupEventClass) × (classify_group_event event groups.group_limits ≡ ok class)
    × ((group_id : GroupId)
        → class_group_id class ≡ some group_id
        → (group : GroupState) × (group_of groups.gate.projection group_id ≡ some group)
          × (tombstone_of groups.gate.projection group_id ≡ none)
          × (group.metadata.private ≡ false)
          × (group.metadata.hidden ≡ false))

from_group-ok :
    {A : Type 0} (result : Result GroupError A) {a : A} → from_group result ≡ ok a → result ≡ ok a
from_group-ok (ok x) h = ground arith
from_group-ok (err e) h = absurd (cc h)

policy-cases :
    (policy : BaseRelayCountHllTargetPolicy) → (policy ≡ eligible) ⊎ (policy ≡ suppressing)
policy-cases eligible = inl refl
policy-cases suppressing = inr refl

unsuppressed-IsPublic :
    (groups : Option GroupReads) (event : PocketEvent)
    → event_suppresses_count_hll groups event ≡ ok false
    → IsPublic groups event
unfolding event_suppresses_count_hll
unsuppressed-IsPublic none event h = tt
unsuppressed-IsPublic (some groups) event h =
    let projection = groups.gate.projection in
    let (class, e, shown) =
      >>=-eq-ok (from_group (classify_group_event event groups.group_limits)) _ h in
    (
      class,
      from_group-ok (classify_group_event event groups.group_limits) e,
      λ group_id named. elim (Option-cases (group_of projection group_id)) [
        | inl gone ↦ absurd (cc (rw (named, gone) at shown))
        | inr (group, there) ↦
            let open_group = rw (named, there) at shown in
            elim (Option-cases (tombstone_of projection group_id)) [
              | inr (t, erased) ↦ absurd (cc (rw erased at open_group))
              | inl live ↦ (group, there, live, ground arith, ground arith)
            ]
      ],
    )

module _ (sketches : Sketches) (groups : Option GroupReads) where
  observe_at_shown :
      (event : PocketEvent) (h k : CountHll sketches) (offset : ℕ) (suppresses : Bool)
      → event_suppresses_count_hll groups event ≡ ok suppresses
      → h.offset ≡ some offset
      → observe_at sketches h event offset suppresses ≡ ok k
      → (IsPublic groups event × (k.offset ≡ some offset)) ⊎ (k.suppressed ≡ true)
  observe_at_shown event h k offset true u at e = inr (ground arith)
  observe_at_shown event h k offset false u at e = elim (Option-cases h.hll) [
    | inl empty ↦
        let same : h ≡ k = ground arith in
        inl (unsuppressed-IsPublic groups event u, rw (← same) at)
    | inr (hll, kept) ↦
        let (added, e1, e2) =
          >>=-eq-ok (or_error (sketches.add_element event.pubkey_hex offset hll)) _
            (rw kept at e) in
        inl (unsuppressed-IsPublic groups event u, ground arith)
  ]

  observe_all_shown :
      (events : List PocketEvent) (c d : Counting sketches) (offset : ℕ)
      → c.sketch.offset ≡ some offset
      → observe_all sketches groups events c ≡ ok d
      → IsSilent sketches d.sketch ⊎ All (IsPublic groups) events
  unfolding observe_all observe
  observe_all_shown [] c d offset at e = inr tt
  observe_all_shown (event ∷ events) c d offset at e =
      let (sketch, e1, e2) = >>=-eq-ok (observe sketches groups event c.sketch) _ e in
      let (suppresses, u, e3) =
        >>=-eq-ok (event_suppresses_count_hll groups event) _ (rw (observe, at) at e1) in
      elim (observe_at_shown event c.sketch sketch offset suppresses u at e3) [
        | inr silent ↦ inl (observe_all-IsSilent sketches groups events _ d e2 (inl silent))
        | inl (public, kept) ↦ elim (observe_all_shown events _ d offset kept e2) [
          | inl silent ↦ inl silent
          | inr all ↦ inr (public, all)
        ]
      ]

  module _ (search : Search) (auth : GroupAuthContext) (limits : BaseRelayLimits) where
    -- What a sketch that is shown was made of.
    abbrev pub CountsPublic : PocketFilter → Type 0
    CountsPublic filter =
        (report : BaseRelayEventQueryReport) × (query_filter_events_report search groups auth limits
            filter preserve_count_limitless
          ≡ ok report)
        × (report.group_read_denied ≡ false)
        × All (IsPublic groups) report.events

    abbrev start : List PocketFilter → CountHll sketches → Counting sketches
    start filters made = record {
      seen = [];
      denied = false;
      metrics = no_metrics;
      sketch = suppress_for_filter_targets sketches groups filters made;
    }

    one_filter :
        (filter : PocketFilter) (c d : Counting sketches) (offset : ℕ)
        → c.sketch.offset ≡ some offset
        → count_loop sketches search groups auth limits (filter ∷ []) c ≡ ok d
        → IsSilent sketches d.sketch ⊎ CountsPublic filter
    unfolding count_loop
    one_filter filter c d offset at e =
        let (report, e1, e2) =
          >>=-eq-ok
            (query_filter_events_report search groups auth limits filter preserve_count_limitless) _
            e in
        let (counted, e3, e4) =
          >>=-eq-ok (observe_all sketches groups report.events (after_report sketches report c)) _
            e2 in
        let same : counted ≡ d = ground arith in
        elim (Bool-cases report.group_read_denied) [
          | inl denied ↦ inl (
              subst (λ (x : Counting sketches). IsSilent sketches x.sketch) same
                (observe_all-IsSilent sketches groups report.events (after_report sketches report c)
                  counted e3 (rw denied (suppress_at sketches c.sketch offset at))))
          | inr shown ↦
              elim (observe_all_shown report.events (after_report sketches report c) counted offset
                (rw shown at) e3) [
                  | inl silent ↦
                      inl
                        (subst (λ (x : Counting sketches). IsSilent sketches x.sketch) same silent)
                  | inr all ↦ inr (report, e1, shown, all)
                ]
        ]

    start-at :
        (filter : PocketFilter) (offset : ℕ)
        → ((start (filter ∷ []) (sketch_at sketches (some offset))).sketch.offset ≡ some offset)
          × ((count_hll_filter_target_policy groups filter ≡ eligible)
              ⊎ IsSilent sketches (start (filter ∷ []) (sketch_at sketches (some offset))).sketch)
    unfolding suppress_for_filter_targets suppress
    start-at filter offset = elim (policy-cases (count_hll_filter_target_policy groups filter)) [
      | inl e ↦ (rw e refl, inl e)
      | inr e ↦ (rw e refl, inr (rw e (inl refl)))
    ]

    start-IsSilent :
        (filter : PocketFilter)
        → IsSilent sketches (start (filter ∷ []) (sketch_at sketches none)).sketch
    unfolding suppress_for_filter_targets suppress
    start-IsSilent filter = elim (policy-cases (count_hll_filter_target_policy groups filter)) [
      | inl p ↦ rw p (inr (refl, refl))
      | inr p ↦ rw p (inr (refl, refl))
    ]

    made_of_one :
        (filters : List PocketFilter) (offset : Option ℕ) (d : Counting sketches)
        → count_hll_offset sketches filters ≡ ok offset
        → count_loop sketches search groups auth limits filters
            (start filters (sketch_at sketches offset))
          ≡ ok d
        → IsSilent sketches d.sketch
          ⊎ ((filter : PocketFilter) × (filters ≡ filter ∷ [])
              × (count_hll_filter_target_policy groups filter ≡ eligible)
              × CountsPublic filter)
    unfolding count_hll_offset suppress_for_filter_targets
    made_of_one [] offset d o e =
        let empty : none ≡ offset = ground arith in
        inl (
          count_loop-IsSilent sketches groups search auth limits [] _ d e
            (rw (← empty) (inr (refl, refl))))
    made_of_one (filter ∷ other ∷ filters) offset d o e =
        let empty : none ≡ offset = ground arith in
        inl (
          count_loop-IsSilent sketches groups search auth limits (filter ∷ other ∷ filters) _ d e
            (rw (← empty) (inr (refl, refl))))
    made_of_one (filter ∷ []) none d o e = inl (
        count_loop-IsSilent sketches groups search auth limits (filter ∷ []) _ d e
          (start-IsSilent filter))
    made_of_one (filter ∷ []) (some offset) d o e =
        let (at, policy) = start-at filter offset in
        elim policy [
          | inr silent ↦
              inl
                (count_loop-IsSilent sketches groups search auth limits (filter ∷ []) _ d e silent)
          | inl open_policy ↦ elim (one_filter filter _ d offset at e) [
            | inl silent ↦ inl silent
            | inr counted ↦ inr (filter, refl, open_policy, counted)
          ]
        ]

    -- A count shows a sketch of its authors only for a single filter whose targets allow it, when
    -- nothing was withheld from the connection and every event that was counted is of no group,
    -- or of a group that is live and neither private nor hidden.
    pub count_events_report_private :
        (filters : List PocketFilter) (report : BaseRelayCountEventsReport) (shown : Text)
        → count_events_report sketches search groups auth limits filters ≡ ok report
        → report.hll ≡ some shown
        → (filter : PocketFilter) × (filters ≡ filter ∷ [])
          × (count_hll_filter_target_policy groups filter ≡ eligible)
          × CountsPublic filter
    unfolding count_events_report new_count_hll
    count_events_report_private filters report shown h s =
        let (made, m, h1) = >>=-eq-ok (new_count_hll sketches filters) _ h in
        let (offset, o, h2) = >>=-eq-ok (count_hll_offset sketches filters) _ m in
        let same : sketch_at sketches offset ≡ made = ground arith in
        let (d, e, h3) =
          >>=-eq-ok (count_loop sketches search groups auth limits filters (start filters made)) _
            h1 in
        let hex : into_hex sketches d.sketch ≡ report.hll = ground arith in
        elim (made_of_one filters offset d o (rw same e)) [
          | inr one ↦ one
          | inl silent ↦ absurd (cc (hex, into_hex-IsSilent sketches d.sketch silent, s))
        ]
