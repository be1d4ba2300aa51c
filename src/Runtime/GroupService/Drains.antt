-- ===== src/Runtime/GroupService/Drains.antt =====
-- The loops that generate the events of the outbox (groups.rs).
use tangle.Common.{
  ℕ, zero, suc, ◌+◌, ◌≤◌, ◌<◌, ◌≡◌, ◌≢◌, ◌∙◌, refl, ap, inl, inr, Bool, Option, none, some, List,
  [], ◌∷◌, Result, ok, length, In, here, arith, List-cases, take,
}
use tangle.Common.Effects.{>>=-ok}
use tangle.Groups.Projection.{StoreOffset}
use tangle.Groups.Outbox.{GroupOutboxRecord, GroupOutbox, replay_plan_matching}
use tangle.Runtime.Errors.{BaseRelayError}
use tangle.Runtime.Store.{Pocket, PocketSyncPolicy}
use tangle.Runtime.GroupService.State.{
  GroupService, ServiceState, append_offsets, materialize_record, materialize_records,
  materialize_loop, materialize_plan,
}
use tangle.Runtime.GroupService.Settles.{Settled, materialize_record-Settled}
use tangle.Groups.Outbox.Distinct.{IsWellFormed}
use tangle.Runtime.GroupService.Counts.{
  update-IsWellFormed, due_count, due_count-update-le, due_count-update-lt, length-replay_plan,
}

append_offsets-none :
    (offsets : List StoreOffset) (rest : Option (List StoreOffset))
    → append_offsets offsets rest ≡ none
    → rest ≡ none
append_offsets-none offsets none h = refl
append_offsets-none offsets (some rest) h = absurd (cc h)

pub append_offsets-some :
    (offsets all : List StoreOffset) (rest : Option (List StoreOffset))
    → append_offsets offsets rest ≡ some all
    → (later : List StoreOffset) × (rest ≡ some later)
append_offsets-some offsets all none h = absurd (cc h)
append_offsets-some offsets all (some later) h = (later, refl)

module _ (pocket : Pocket) (sync_policy : PocketSyncPolicy) (service : GroupService)
    (include : GroupOutboxRecord → Bool) where
  abbrev Outcome : Type 0
  Outcome = Result BaseRelayError (Option (List StoreOffset)) × ServiceState pocket

  -- A run that succeeds keeps the outbox well formed and leaves no more to generate.
  abbrev pub Lowers : ServiceState pocket → ServiceState pocket → Type 0
  Lowers s t = IsWellFormed t.outbox × (due_count include t.outbox ≤ due_count include s.outbox)

  Settled-Lowers :
      (r : GroupOutboxRecord) (s t : ServiceState pocket)
      → Settled pocket sync_policy service r s t
      → IsWellFormed s.outbox
      → Lowers s t
  Settled-Lowers r s t (next, same, settled, e) w =
      rw e (update-IsWellFormed next s.outbox w, due_count-update-le include next s.outbox settled)

  Settled-lt :
      (r : GroupOutboxRecord) (s t : ServiceState pocket)
      → Settled pocket sync_policy service r s t
      → IsWellFormed s.outbox
      → In r (replay_plan_matching include s.outbox)
      → due_count include t.outbox < due_count include s.outbox
  Settled-lt r s t (next, same, settled, e) w planned =
      rw e (due_count-update-lt include next r s.outbox w planned same settled)

  pub materialize_records-Lowers :
      (records : List GroupOutboxRecord) (s t : ServiceState pocket) (offsets : List StoreOffset)
      → materialize_records pocket sync_policy service records s ≡ (ok offsets, t)
      → IsWellFormed s.outbox
      → Lowers s t
  unfolding materialize_records
  materialize_records-Lowers [] s t offsets h w =
      let same : s ≡ t =
        ap (λ (x : Result BaseRelayError (List StoreOffset) × ServiceState pocket). x.1) h in
      rw (← same) (w, omega arith)
  materialize_records-Lowers (r ∷ records) s t offsets h w =
      let (offset, e, h1) =
        >>=-ok (materialize_record pocket sync_policy service r) _ s t offsets h in
      let between = (materialize_record pocket sync_policy service r s).1 in
      let (later, f, h2) =
        >>=-ok (materialize_records pocket sync_policy service records) _ between t offsets h1 in
      let after = (materialize_records pocket sync_policy service records between).1 in
      let settled =
        materialize_record-Settled pocket sync_policy service r s between offset
          (λ i. (e i, between)) in
      let (w1, l1) = Settled-Lowers r s between settled w in
      let (w2, l2) =
        materialize_records-Lowers records between after later (λ i. (f i, after)) w1 in
      let same : after ≡ t =
        ap (λ (x : Result BaseRelayError (List StoreOffset) × ServiceState pocket). x.1) h2 in
      rw (← same) (w2, omega arith)

  In-take :
      (n : ℕ) (r : GroupOutboxRecord) (xs rest : List GroupOutboxRecord)
      → take n xs ≡ r ∷ rest
      → In r xs
  In-take zero r xs rest h = absurd (cc h)
  In-take (suc n) r [] rest h = absurd (cc h)
  In-take (suc n) r (x ∷ xs) rest h = here (ground (arith, h))

  abbrev batch : GroupOutbox → List GroupOutboxRecord
  batch outbox = take service.outbox_replay_batch_cap (replay_plan_matching include outbox)

  pass-lt :
      (r : GroupOutboxRecord) (records : List GroupOutboxRecord) (s t : ServiceState pocket)
      (offsets : List StoreOffset)
      → batch s.outbox ≡ r ∷ records
      → materialize_records pocket sync_policy service (r ∷ records) s ≡ (ok offsets, t)
      → IsWellFormed s.outbox
      → IsWellFormed t.outbox × (due_count include t.outbox < due_count include s.outbox)
  unfolding materialize_records
  pass-lt r records s t offsets e h w =
      let (offset, f, h1) =
        >>=-ok (materialize_record pocket sync_policy service r) _ s t offsets h in
      let between = (materialize_record pocket sync_policy service r s).1 in
      let (later, g, h2) =
        >>=-ok (materialize_records pocket sync_policy service records) _ between t offsets h1 in
      let after = (materialize_records pocket sync_policy service records between).1 in
      let settled =
        materialize_record-Settled pocket sync_policy service r s between offset
          (λ i. (f i, between)) in
      let planned =
        In-take service.outbox_replay_batch_cap r (replay_plan_matching include s.outbox) records
          e in
      let (w1, l1) = Settled-Lowers r s between settled w in
      let less = Settled-lt r s between settled w planned in
      let (w2, l2) =
        materialize_records-Lowers records between after later (λ i. (g i, after)) w1 in
      let same : after ≡ t =
        ap (λ (x : Result BaseRelayError (List StoreOffset) × ServiceState pocket). x.1) h2 in
      rw (← same) (w2, omega arith)

  materialize_loop_ends :
      (fuel : ℕ) (s t : ServiceState pocket)
      → due_count include s.outbox < fuel
      → IsWellFormed s.outbox
      → materialize_loop pocket sync_policy service fuel (replay_plan_matching include) s
        ≢ (ok none, t)
  unfolding materialize_loop
  materialize_loop_ends zero s t h w e = absurd (omega arith)
  materialize_loop_ends (suc fuel) s t h w e = elim (List-cases (batch s.outbox)) [
    | inl done ↦ absurd (cc (ap (λ (x : Outcome). x.0) (rw (materialize_loop, done) at e)))
    | inr (r, records, more) ↦
        let run = rw (materialize_loop, more) at e in
        let (offsets, f, h1) =
          >>=-ok (materialize_records pocket sync_policy service (r ∷ records)) _ s t none run in
        let between = (materialize_records pocket sync_policy service (r ∷ records) s).1 in
        let (rest, g, h2) =
          >>=-ok (materialize_loop pocket sync_policy service fuel (replay_plan_matching include)) _
            between t none h1 in
        let after =
          (materialize_loop pocket sync_policy service fuel (replay_plan_matching include)
            between).1 in
        let (w1, less) = pass-lt r records s between offsets more (λ i. (f i, between)) w in
        let out : rest ≡ none =
          append_offsets-none offsets rest (ground (arith, ap (λ (x : Outcome). x.0) h2)) in
        materialize_loop_ends fuel between after (omega arith) w1 (λ i. ((g ∙ ap ok out) i, after))
  ]

  materialize_loop_drains :
      (fuel : ℕ) (s t : ServiceState pocket) (offsets : List StoreOffset)
      → IsWellFormed s.outbox
      → materialize_loop pocket sync_policy service fuel (replay_plan_matching include) s
        ≡ (ok (some offsets), t)
      → IsWellFormed t.outbox × (batch t.outbox ≡ [])
  unfolding materialize_loop
  materialize_loop_drains zero s t offsets w e = absurd (cc (ap (λ (x : Outcome). x.0) e))
  materialize_loop_drains (suc fuel) s t offsets w e = elim (List-cases (batch s.outbox)) [
    | inl done ↦
        let same : s ≡ t = ap (λ (x : Outcome). x.1) (rw (materialize_loop, done) at e) in
        rw (← same) (w, done)
    | inr (r, records, more) ↦
        let run = rw (materialize_loop, more) at e in
        let (first, f, h1) =
          >>=-ok (materialize_records pocket sync_policy service (r ∷ records)) _ s t (some offsets)
            run in
        let between = (materialize_records pocket sync_policy service (r ∷ records) s).1 in
        let (rest, g, h2) =
          >>=-ok (materialize_loop pocket sync_policy service fuel (replay_plan_matching include)) _
            between t (some offsets) h1 in
        let after =
          (materialize_loop pocket sync_policy service fuel (replay_plan_matching include)
            between).1 in
        let (w1, less) = pass-lt r records s between first more (λ i. (f i, between)) w in
        let (later, there_are) =
          append_offsets-some first offsets rest (ground (arith, ap (λ (x : Outcome). x.0) h2)) in
        let same : after ≡ t = ap (λ (x : Outcome). x.1) h2 in
        rw (← same) (
          materialize_loop_drains fuel between after later w1
            (λ i. ((g ∙ ap ok there_are) i, after)))
  ]

  take-nil : (n : ℕ) (xs : List GroupOutboxRecord) → 0 < n → take n xs ≡ [] → xs ≡ []
  take-nil zero xs h e = absurd (omega arith)
  take-nil (suc n) [] h e = refl
  take-nil (suc n) (x ∷ xs) h e = absurd (cc e)

-- The loop that generates the events of a plan ends: for a well-formed outbox it never makes more
-- passes than the plan has records, whatever the store answers.
pub materialize_plan_ends :
    (pocket : Pocket) (sync_policy : PocketSyncPolicy) (service : GroupService)
    (include : GroupOutboxRecord → Bool) (s t : ServiceState pocket)
    → IsWellFormed s.outbox
    → materialize_plan pocket sync_policy service (replay_plan_matching include) s ≢ (ok none, t)
unfolding materialize_plan
materialize_plan_ends pocket sync_policy service include s t w =
    materialize_loop_ends pocket sync_policy service include _ s t
      (omega (arith, length-replay_plan include s.outbox)) w

-- When the loop succeeds, nothing is left to generate in the plan, if a batch is at least one
-- record and the outbox was well formed, which it stays.
pub materialize_plan_drains :
    (pocket : Pocket) (sync_policy : PocketSyncPolicy) (service : GroupService)
    (include : GroupOutboxRecord → Bool) (s t : ServiceState pocket) (offsets : List StoreOffset)
    → 0 < service.outbox_replay_batch_cap
    → IsWellFormed s.outbox
    → materialize_plan pocket sync_policy service (replay_plan_matching include) s
      ≡ (ok (some offsets), t)
    → IsWellFormed t.outbox × (replay_plan_matching include t.outbox ≡ [])
unfolding materialize_plan
materialize_plan_drains pocket sync_policy service include s t offsets positive w e =
    let (w1, done) =
      materialize_loop_drains pocket sync_policy service include
        (length (replay_plan_matching include s.outbox) + 1) s t offsets w e in
    (
      w1,
      take-nil pocket sync_policy service include service.outbox_replay_batch_cap
          (replay_plan_matching include t.outbox) positive done,
    )
