-- ===== src/Runtime/Relay/Counts/Silent.antt =====
-- A sketch that is suppressed stays so through the rest of a count (relay/core.rs).
use tangle.Common.{
  ℕ, ◌≡◌, subst, inl, inr, ◌⊎◌, Bool, true, false, Option, none, some, List, [], ◌∷◌, ok, >>=-eq-ok,
  Bool-cases, Option-cases, arith,
}
use tangle.Groups.EventView.{PocketEvent}
use tangle.Groups.WriteGate.{GroupAuthContext}
use tangle.Runtime.Relay.{PocketFilter, BaseRelayLimits}
use tangle.Runtime.Relay.Queries.{
  Search, GroupReads, or_error, BaseRelayEventQueryReport, preserve_count_limitless,
  query_filter_events_report,
}
use tangle.Runtime.Relay.Counts.{event_suppresses_count_hll, Sketches}
use tangle.Runtime.Relay.Counts.Counting.{
  CountHll, Counting, suppress, observe, observe_at, observe_all, after_report, into_hex,
  count_loop,
}

module _ (sketches : Sketches) where
  -- A sketch that will not be shown.
  abbrev pub IsSilent : CountHll sketches → Type 0
  IsSilent h = (h.suppressed ≡ true) ⊎ ((h.offset ≡ none) × (h.hll ≡ none))

  pub into_hex-IsSilent : (h : CountHll sketches) → IsSilent h → into_hex sketches h ≡ none
  unfolding into_hex
  into_hex-IsSilent h (inl s) = ground arith
  into_hex-IsSilent h (inr (o, e)) = ground arith

  suppress-IsSilent : (h : CountHll sketches) → IsSilent h → IsSilent (suppress sketches h)
  unfolding suppress
  suppress-IsSilent h s = ground arith

  pub suppress_at :
      (h : CountHll sketches) (offset : ℕ) → h.offset ≡ some offset → IsSilent (suppress sketches h)
  unfolding suppress
  suppress_at h offset o = ground arith

  module _ (groups : Option GroupReads) where
    observe_at-IsSilent :
        (event : PocketEvent) (h k : CountHll sketches) (offset : ℕ) (suppresses : Bool)
        → observe_at sketches h event offset suppresses ≡ ok k
        → h.suppressed ≡ true
        → IsSilent k
    observe_at-IsSilent event h k offset true e s = ground arith
    observe_at-IsSilent event h k offset false e s = elim (Option-cases h.hll) [
      | inl empty ↦ inl (ground arith)
      | inr (hll, kept) ↦
          let (added, e1, e2) =
            >>=-eq-ok (or_error (sketches.add_element event.pubkey_hex offset hll)) _
              (rw kept at e) in
          inl (ground arith)
    ]

    observe-IsSilent :
        (event : PocketEvent) (h k : CountHll sketches)
        → observe sketches groups event h ≡ ok k
        → IsSilent h
        → IsSilent k
    unfolding observe
    observe-IsSilent event h k e s = elim (Option-cases h.offset) [
      | inl none_at ↦ let same : h ≡ k = ground arith in subst IsSilent same s
      | inr (offset, at) ↦
          let (suppresses, e1, e2) =
            >>=-eq-ok (event_suppresses_count_hll groups event) _ (rw (observe, at) at e) in
          observe_at-IsSilent event h k offset suppresses e2
            (elim s [ inl silent ↦ silent | inr (o, x) ↦ absurd (cc o) ])
    ]

    pub observe_all-IsSilent :
        (events : List PocketEvent) (c d : Counting sketches)
        → observe_all sketches groups events c ≡ ok d
        → IsSilent c.sketch
        → IsSilent d.sketch
    unfolding observe_all
    observe_all-IsSilent [] c d e s =
        let same : c ≡ d = ground arith in
        subst (λ (x : Counting sketches). IsSilent x.sketch) same s
    observe_all-IsSilent (event ∷ events) c d e s =
        let (sketch, e1, e2) = >>=-eq-ok (observe sketches groups event c.sketch) _ e in
        observe_all-IsSilent events _ d e2 (observe-IsSilent event c.sketch sketch e1 s)

    after_report-IsSilent :
        (report : BaseRelayEventQueryReport) (c : Counting sketches)
        → IsSilent c.sketch
        → IsSilent (after_report sketches report c).sketch
    after_report-IsSilent report c s = elim (Bool-cases report.group_read_denied) [
      | inl denied ↦ rw denied (suppress-IsSilent c.sketch s)
      | inr shown ↦ rw shown s
    ]

    module _ (search : Search) (auth : GroupAuthContext) (limits : BaseRelayLimits) where
      pub count_loop-IsSilent :
          (filters : List PocketFilter) (c d : Counting sketches)
          → count_loop sketches search groups auth limits filters c ≡ ok d
          → IsSilent c.sketch
          → IsSilent d.sketch
      unfolding count_loop
      count_loop-IsSilent [] c d e s =
          let same : c ≡ d = ground arith in
          subst (λ (x : Counting sketches). IsSilent x.sketch) same s
      count_loop-IsSilent (filter ∷ filters) c d e s =
          let (report, e1, e2) =
            >>=-eq-ok
              (query_filter_events_report search groups auth limits filter preserve_count_limitless)
              _ e in
          let (counted, e3, e4) =
            >>=-eq-ok (observe_all sketches groups report.events (after_report sketches report c)) _
              e2 in
          count_loop-IsSilent filters counted d e4 (
            observe_all-IsSilent report.events (after_report sketches report c) counted e3
              (after_report-IsSilent report c s))
