-- ===== src/Runtime/Live/Fanout.antt =====
-- Which subscriptions an event reaches.
use tangle.Common.{
  ℕ, suc, ◌≡◌, refl, sym, ap, ◌∙◌, subst, ◌⊎◌, inl, inr, ◌↔◌, Bool, true, false, List, [], ◌∷◌,
  Result, ok, arith, BTreeMap, In, here, there, In-uncons, list_ord, nat_ord, >>=-eq-ok, Bool-cases,
}
use tangle.Protocol.{SubscriptionId}
use tangle.Groups.EventView.{PocketEvent}
use tangle.Groups.WriteGate.{GroupAuthContext}
use tangle.Runtime.Errors.{BaseRelayError}
use tangle.Runtime.Live.{
  LiveSubscriptionSet, LiveSubscriptionMatch, match_filters, add_match, fanout_loop, fanout,
}

module _ {F : Type 0} (event_matches : F → PocketEvent → Result BaseRelayError Bool)
    (event : PocketEvent) where
  abbrev pub Matches : List F → Type 0
  Matches filters = (filter : F) × In filter filters × (event_matches filter event ≡ ok true)

  -- Whether some filter of a subscription matched.
  match_cases :
      (index : ℕ) (filters : List F) (matched : List (ℕ × F))
      → match_filters event_matches event index filters ≡ ok matched
      → ((matched ≡ []) × (Matches filters → ⊥))
        ⊎ ((first : ℕ × F) × (rest : List (ℕ × F)) × (matched ≡ first ∷ rest) × Matches filters)
  unfolding match_filters
  match_cases index [] matched h = inl (ground arith, λ (f, m, e). elim m [ ])
  match_cases index (filter ∷ filters) matched h =
      let (matches, first, rest) = >>=-eq-ok (event_matches filter event) _ h in
      let (others, later, last) =
        >>=-eq-ok (match_filters event_matches event (suc index) filters) _ rest in
      elim (Bool-cases matches) [
        | inl hit ↦ inr ((index, filter), others, ground arith, (filter, here refl, ground arith))
        | inr miss ↦ elim (match_cases (suc index) filters others later) [
          | inl (empty, never) ↦ inl (
            ground arith,
            λ (f, m, e). elim (In-uncons m) [
              | inl same ↦ absurd (ground arith)
              | inr old ↦ never (f, old, e)
            ],
          )
          | inr (x, more, form, (f, m, e)) ↦ inr (x, more, ground arith, (f, there m, e))
        ]
      ]

  abbrev pub Reached : SubscriptionId → List (LiveSubscriptionMatch F) → Type 0
  Reached id matches = (x : LiveSubscriptionMatch F) × In x matches × (x.subscription_id ≡ id)

  abbrev pub Subscribed : SubscriptionId → BTreeMap SubscriptionId (List F) → Type 0
  Subscribed id subscriptions =
      (filters : List F) × In (id, filters) subscriptions × Matches filters

  Subscribed-uncons :
      (id other : SubscriptionId) (filters : List F)
      (subscriptions : BTreeMap SubscriptionId (List F))
      → Subscribed id ((other, filters) ∷ subscriptions)
      → ((other ≡ id) × Matches filters) ⊎ Subscribed id subscriptions
  Subscribed-uncons id other filters subscriptions (f, m, e) = elim (In-uncons m) [
    | inl head ↦ inl (
      ap (λ (x : SubscriptionId × List F). x.0) head,
      subst Matches (sym (ap (λ (x : SubscriptionId × List F). x.1) head)) e,
    )
    | inr old ↦ inr (f, old, e)
  ]

  module _ (id other : SubscriptionId) (filters : List F)
      (subscriptions : BTreeMap SubscriptionId (List F))
      (others : List (LiveSubscriptionMatch F)) where
    passed_over :
        (visible : Bool)
        → ((visible ≡ true) → (other ≡ id) × Matches filters → ⊥)
        → Reached id others ↔ ((visible ≡ true) × Subscribed id subscriptions)
        → Reached id others ↔ ((visible ≡ true) × Subscribed id ((other, filters) ∷ subscriptions))
    passed_over visible never (into, from) = (
      λ r. let (v, (f, m, e)) = into r in (v, (f, there m, e)),
      λ (v, subscribed). elim (Subscribed-uncons id other filters subscriptions subscribed) [
        | inl found ↦ absurd (never v found)
        | inr old ↦ from (v, old)
      ],
    )

    added :
        (first : ℕ × F) (rest : List (ℕ × F))
        → Matches filters
        → Reached id others ↔ ((true ≡ true) × Subscribed id subscriptions)
        → Reached id (record { subscription_id = other; matched_filters = first ∷ rest } ∷ others)
          ↔ ((true ≡ true) × Subscribed id ((other, filters) ∷ subscriptions))
    added first rest found (into, from) = (
      λ (y, m, e). elim (In-uncons m) [
        | inl same ↦
            let this : other ≡ id =
              ap (λ (z : LiveSubscriptionMatch F). z.subscription_id) same ∙ e in
            (refl, (filters, here (ap (λ (z : SubscriptionId). (z, filters)) this), found))
        | inr old ↦ let (v, (f, n, g)) = into (y, old, e) in (v, (f, there n, g))
      ],
      λ (v, subscribed). elim (Subscribed-uncons id other filters subscriptions subscribed) [
        | inl (this, m) ↦
            (record { subscription_id = other; matched_filters = first ∷ rest }, here refl, this)
        | inr old ↦ let (y, n, g) = from (v, old) in (y, there n, g)
      ],
    )

    step_reaches :
        (visible : Bool) (matched : List (ℕ × F))
        → ((matched ≡ []) × (Matches filters → ⊥))
          ⊎ ((first : ℕ × F) × (rest : List (ℕ × F)) × (matched ≡ first ∷ rest) × Matches filters)
        → Reached id others ↔ ((visible ≡ true) × Subscribed id subscriptions)
        → Reached id (add_match event_matches event visible other matched others)
          ↔ ((visible ≡ true) × Subscribed id ((other, filters) ∷ subscriptions))
    step_reaches visible [] (inl (e, never)) r = passed_over visible (λ v (i, m). never m) r
    step_reaches visible [] (inr (first, rest, e, m)) r = absurd (ground arith)
    step_reaches visible (x ∷ xs) (inl (e, never)) r = absurd (ground arith)
    step_reaches true (x ∷ xs) (inr (first, rest, e, m)) r = added x xs m r
    step_reaches false (x ∷ xs) (inr (first, rest, e, m)) r =
        passed_over false (λ v found. absurd (ground arith)) r

  loop_reaches :
      (visible : Bool) (id : SubscriptionId) (subscriptions : BTreeMap SubscriptionId (List F))
      (matches : List (LiveSubscriptionMatch F))
      → fanout_loop event_matches event visible subscriptions ≡ ok matches
      → Reached id matches ↔ ((visible ≡ true) × Subscribed id subscriptions)
  unfolding fanout_loop
  loop_reaches visible id [] matches h =
      let empty : matches ≡ [] = ground arith in
      rw empty (λ (x, m, e). elim m [ ], λ (v, (f, m, e)). elim m [ ])
  loop_reaches visible id ((other, filters) ∷ subscriptions) matches h =
      let (matched, first, rest) = >>=-eq-ok (match_filters event_matches event 0 filters) _ h in
      let (others, later, last) =
        >>=-eq-ok (fanout_loop event_matches event visible subscriptions) _ rest in
      let all : matches ≡ add_match event_matches event visible other matched others =
        ground arith in
      rw all (
        step_reaches id other filters subscriptions others visible matched
          (match_cases 0 filters matched first)
          (loop_reaches visible id subscriptions others later))

  -- An event reaches a subscription exactly when one of its filters matches the event and the
  -- connection may see it.
  pub fanout_iff :
      (visible_to_auth : PocketEvent → GroupAuthContext → Bool) (auth : GroupAuthContext)
      (s : LiveSubscriptionSet F) (matches : List (LiveSubscriptionMatch F)) (id : SubscriptionId)
      → fanout event_matches event visible_to_auth auth s ≡ ok matches
      → Reached id matches ↔ ((visible_to_auth event auth ≡ true) × Subscribed id s.subscriptions)
  unfolding fanout
  fanout_iff visible_to_auth auth s matches id h =
      loop_reaches (visible_to_auth event auth) id s.subscriptions matches h
