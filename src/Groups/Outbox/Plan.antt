-- ===== src/Groups/Outbox/Plan.antt =====
-- What a replay generates, and in which order.
use tangle.Common.{
  ◌<◌, ◌≡◌, ◌≢◌, refl, inl, inr, ◌⊎◌, ◌↔◌, Bool, true, false, ◌&&◌, List, All, ℕ, sort_by, Ord,
  Ordering, geb, arith, [], ◌∷◌, In, filter, InOrder, In-sort_by, sort_by-InOrder, nat_ord,
  pair_ord, option_ord, list_ord,
}
use tangle.Groups.Outbox.{
  effect_rank, effect_rank-injective, GroupOutboxStatus, pending, stored, skipped, failed, key_ord,
  GroupOutboxRecord, GroupOutbox, is_retryable, PlanFields, plan_fields, plan_sort, values,
  replay_plan_matching,
}
use tangle.Groups.Outbox.Distinct.{
  In-filter, IsWellFormed, IsDistinct, filter-IsDistinct, sort_by-IsDistinct, values-IsDistinct,
}

pub In-replay_plan_matching :
    (include : GroupOutboxRecord → Bool) (outbox : GroupOutbox) (r : GroupOutboxRecord)
    → In r (replay_plan_matching include outbox)
      ↔ (In r (values outbox) × ((is_retryable r && include r) ≡ true))
unfolding replay_plan_matching plan_sort
In-replay_plan_matching include outbox r =
    let chosen = filter (λ x. is_retryable x && include x) (values outbox) in
    let (into, from) = In-sort_by {K = PlanFields} plan_fields r chosen in
    let (split, join) = In-filter (λ x. is_retryable x && include x) r (values outbox) in
    (λ m. split (into m), λ m. from (join m))

-- A record whose event is still to be generated.
abbrev pub IsWaiting : GroupOutboxRecord → Type 0
IsWaiting r = (r.status ≡ pending) ⊎ (r.status ≡ failed true)

is_retryable-IsWaiting : (r : GroupOutboxRecord) → (is_retryable r ≡ true) ↔ IsWaiting r
is_retryable-IsWaiting r = by_status r.status refl
  where
    by_status :
        (status : GroupOutboxStatus) → r.status ≡ status → (is_retryable r ≡ true) ↔ IsWaiting r
    by_status pending e = (λ h. inl e, λ h. rw e refl)
    by_status (stored id) e = (
      λ h. absurd (cc (rw e at h)),
      λ h. elim h [ inl f ↦ absurd (cc (e, f)) | inr f ↦ absurd (cc (e, f)) ],
    )
    by_status (skipped reason) e = (
      λ h. absurd (cc (rw e at h)),
      λ h. elim h [ inl f ↦ absurd (cc (e, f)) | inr f ↦ absurd (cc (e, f)) ],
    )
    by_status (failed true) e = (λ h. inr e, λ h. rw e refl)
    by_status (failed false) e = (
      λ h. absurd (cc (rw e at h)),
      λ h. elim h [ inl f ↦ absurd (cc (e, f)) | inr f ↦ absurd (ground (arith, e, f)) ],
    )

abbrev pub IsBelow : {K : Type 0} → ⦃o : Ord K⦄ → K → K → Type 0
IsBelow ⦃o⦄ a b = o.cmp a b ≡ Ordering.lt

-- The first record is generated before the second: its group comes first; in a group, its time is
-- earlier; at a time, its source comes first; of a source, its effect; of an effect, its target.
abbrev pub ComesBefore : GroupOutboxRecord → GroupOutboxRecord → Type 0
ComesBefore r q =
    IsBelow r.key.group_id q.key.group_id
    ⊎ ((r.key.group_id ≡ q.key.group_id)
        × ((r.payload.generated_created_at < q.payload.generated_created_at)
            ⊎ ((r.payload.generated_created_at ≡ q.payload.generated_created_at)
                × (IsBelow r.key.source_event_id q.key.source_event_id
                    ⊎ ((r.key.source_event_id ≡ q.key.source_event_id)
                        × ((effect_rank r.key.effect < effect_rank q.key.effect)
                            ⊎ ((r.key.effect ≡ q.key.effect)
                                × IsBelow r.key.target_pubkey q.key.target_pubkey)))))))

abbrev pub InTurn : List GroupOutboxRecord → Type 0
InTurn [] = Unit
InTurn (r ∷ records) = All (ComesBefore r) records × InTurn records

geb-pair :
    {A B : Type 0} ⦃o : Ord A⦄ ⦃p : Ord B⦄ (x y : A × B)
    → geb {A = A × B} y x ≡ true
    → IsBelow x.0 y.0 ⊎ ((x.0 ≡ y.0) × (geb y.1 x.1 ≡ true))
geb-pair ⦃o⦄ ⦃p⦄ (a, b) (c, d) h = ground (arith, o.cmp_swap a c, o.cmp_eq a c)

geb-IsBelow : {A : Type 0} ⦃o : Ord A⦄ (a c : A) → geb c a ≡ true → a ≢ c → IsBelow a c
geb-IsBelow ⦃o⦄ a c h n = ground (arith, o.cmp_swap a c, o.cmp_eq a c)

IsBelow-lt : (a b : ℕ) → IsBelow a b → a < b
IsBelow-lt a b h = ground arith

plan_fields-ComesBefore :
    (r q : GroupOutboxRecord)
    → geb {A = PlanFields} (plan_fields q) (plan_fields r) ≡ true
    → r.key ≢ q.key
    → ComesBefore r q
plan_fields-ComesBefore r q h different =
    let x : PlanFields = plan_fields r in
    let y : PlanFields = plan_fields q in
    elim (geb-pair x y h) [
      | inl group ↦ inl group
      | inr (group, h1) ↦ inr (
        group,
        elim (geb-pair x.1 y.1 h1) [
          | inl at ↦
              inl (IsBelow-lt r.payload.generated_created_at q.payload.generated_created_at at)
          | inr (at, h2) ↦ inr (
            at,
            elim (geb-pair x.1.1 y.1.1 h2) [
              | inl source ↦ inl source
              | inr (source, h3) ↦ inr (
                source,
                elim (geb-pair x.1.1.1 y.1.1.1 h3) [
                  | inl effect ↦
                      inl (IsBelow-lt (effect_rank r.key.effect) (effect_rank q.key.effect) effect)
                  | inr (rank, h4) ↦
                      let effect = effect_rank-injective r.key.effect q.key.effect rank in
                      inr (
                        effect,
                        geb-IsBelow r.key.target_pubkey q.key.target_pubkey h4 (λ target.
                            different (λ i. record {
                              source_event_id = source i;
                              effect = effect i;
                              group_id = group i;
                              target_pubkey = target i;
                            })),
                      )
                ],
              )
            ],
          )
        ],
      )
    ]

InOrder-InTurn :
    (xs : List GroupOutboxRecord)
    → InOrder {K = PlanFields} plan_fields xs
    → IsDistinct xs
    → InTurn xs
InOrder-InTurn [] o d = tt
InOrder-InTurn (x ∷ xs) (a, o) (b, d) = (turn xs a b, InOrder-InTurn xs o d)
  where
    turn :
        (ys : List GroupOutboxRecord)
        → All (λ y. geb {A = PlanFields} (plan_fields y) (plan_fields x) ≡ true) ys
        → All (λ (q : GroupOutboxRecord). x.key ≢ q.key) ys
        → All (ComesBefore x) ys
    turn [] g n = tt
    turn (y ∷ ys) (h, g) (m, n) = (plan_fields-ComesBefore x y h m, turn ys g n)

-- A replay plan of a well-formed outbox lists exactly the records that the plan is for and whose
-- event is still to be generated: those that are pending, and those that failed and may be tried
-- again. Each stands once, and before those that come after it by group, then by time, source,
-- effect and target.
pub replay_plan_matching_lem :
    (include : GroupOutboxRecord → Bool) (outbox : GroupOutbox)
    → IsWellFormed outbox
    → ((r : GroupOutboxRecord)
        → In r (replay_plan_matching include outbox)
          ↔ (In r (values outbox) × IsWaiting r × (include r ≡ true)))
      × InTurn (replay_plan_matching include outbox)
unfolding replay_plan_matching plan_sort
replay_plan_matching_lem include outbox w =
    let chosen = filter (λ r. is_retryable r && include r) (values outbox) in
    (
      λ r.
          let (into, from) = In-replay_plan_matching include outbox r in
          let (waits, due) = is_retryable-IsWaiting r in
          (
            λ m. let (n, both) = into m in (n, waits (ground (arith, both)), ground (arith, both)),
            λ (n, waiting, chosen_one). from (n, rw (due waiting, chosen_one) refl),
          ),
      InOrder-InTurn (sort_by {K = PlanFields} plan_fields chosen)
          (sort_by-InOrder {K = PlanFields} plan_fields chosen)
          (sort_by-IsDistinct chosen
            (filter-IsDistinct _ (values outbox) (values-IsDistinct outbox w))),
    )
