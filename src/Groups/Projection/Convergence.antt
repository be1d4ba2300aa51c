-- ===== src/Groups/Projection/Convergence.antt =====
-- The maps of the projection that newer entries overwrite, as one interface, and what the loop over
-- the events leaves in such a map.
use tangle.Common.{
  ◌≡◌, refl, ap, sym, ◌⊎◌, inl, inr, Option, none, some, ok, List, [], ◌∷◌, In, here, there, arith,
  BTreeMap, Ord, pair_ord, list_ord, nat_ord, Option-cases, >>=-eq-ok,
}
use tangle.Protocol.{UnixTimestamp}
use tangle.Groups.Config.{GroupLimitsConfig}
use tangle.Groups.Projection.{
  StoreOffset, ProjectionOrderTuple, tuple_ord, GroupProjection, new_projection, current_checkpoint,
}
use tangle.Groups.Projection.Apply.{ProjectionApplyOutcome, apply_canonical_event}
use tangle.Groups.Projection.Rebuild.{
  CanonicalGroupEvent, canonical_tuple, ProjectionRebuildReport, rebuild_step, rebuild_loop,
}
use tangle.Groups.Projection.Registers.{
  put_latest, put_update, HoldsLatest, HoldsLatest-of_iff, WroteAlso, put_latest-HoldsLatest,
}

-- A map of the projection with what an event writes into it.
pub record Register (l : GroupLimitsConfig) (K V : Type 0) ⦃o : Ord K⦄ : Type 0 where
  pub field : GroupProjection → BTreeMap K V
  pub stamp : V → ProjectionOrderTuple
  pub update : CanonicalGroupEvent → Option (K × V)
  pub starts_empty : field new_projection ≡ []
  pub unmarked :
      (p : GroupProjection) (c : Option StoreOffset) (at : UnixTimestamp)
      → field (record p { checkpoint = some (current_checkpoint c at) }) ≡ field p
  pub effect :
      (item : CanonicalGroupEvent) (p q : GroupProjection) (outcome : ProjectionApplyOutcome)
      → apply_canonical_event item.event item.store_offset l p ≡ ok (q, outcome)
      → field q ≡ put_update stamp (update item) (field p)
  pub stamped :
      (item : CanonicalGroupEvent) (k : K) (v : V)
      → update item ≡ some (k, v)
      → stamp v ≡ canonical_tuple item

-- One of the seen events wrote the entry.
abbrev pub WroteBy :
    {K V : Type 0}
    → (CanonicalGroupEvent → Option (K × V))
    → (CanonicalGroupEvent → Type 0)
    → K
    → V
    → Type 0
WroteBy update Seen k v = (item : CanonicalGroupEvent) × Seen item × (update item ≡ some (k, v))

abbrev SeenAlso :
    (CanonicalGroupEvent → Type 0) → CanonicalGroupEvent → CanonicalGroupEvent → Type 0
SeenAlso Seen item x = (x ≡ item) ⊎ Seen x

module _ {K V : Type 0} ⦃o : Ord K⦄ {l : GroupLimitsConfig} (r : Register l K V) where
  abbrev pub Holds : (CanonicalGroupEvent → Type 0) → GroupProjection → Type 0
  Holds Seen p = HoldsLatest r.stamp (WroteBy r.update Seen) (r.field p)

  silent_step :
      (Seen : CanonicalGroupEvent → Type 0) (item : CanonicalGroupEvent) (p : GroupProjection)
      → r.update item ≡ none
      → Holds Seen p
      → Holds (SeenAlso Seen item) p
  silent_step Seen item p e h =
      HoldsLatest-of_iff r.stamp (WroteBy r.update Seen) _ (r.field p)
        (λ k v. (
          λ (x, seen, wrote). (x, inr seen, wrote),
          λ (x, seen, wrote). elim seen [
            | inl same ↦ absurd (cc (e, ap r.update same))
            | inr old ↦ (x, old, wrote)
          ],
        ))
        h

  writing_step :
      (Seen : CanonicalGroupEvent → Type 0) (item : CanonicalGroupEvent) (p : GroupProjection)
      (k : K) (v : V)
      → r.update item ≡ some (k, v)
      → Holds Seen p
      → HoldsLatest r.stamp
          (WroteBy r.update (SeenAlso Seen item))
          (put_latest r.stamp k v (r.field p))
  writing_step Seen item p k v e h =
      HoldsLatest-of_iff r.stamp (WroteAlso r.stamp (WroteBy r.update Seen) k v) _
        (put_latest r.stamp k v (r.field p))
        (λ j w. (
          λ wrote. elim wrote [
            | inl (a, b) ↦ (item, inl refl, cc)
            | inr (x, seen, old) ↦ (x, inr seen, old)
          ],
          λ (x, seen, wrote). elim seen [
            | inl same ↦ inl (cc (e, ap r.update same), cc (e, ap r.update same))
            | inr old ↦ inr (x, old, wrote)
          ],
        ))
        (put_latest-HoldsLatest r.stamp (WroteBy r.update Seen) k v (r.field p) h)

  -- One event.
  event_step :
      (Seen : CanonicalGroupEvent → Type 0) (item : CanonicalGroupEvent) (p q : GroupProjection)
      (outcome : ProjectionApplyOutcome)
      → apply_canonical_event item.event item.store_offset l p ≡ ok (q, outcome)
      → Holds Seen p
      → Holds (SeenAlso Seen item) q
  event_step Seen item p q outcome e h = elim (Option-cases (r.update item)) [
    | inl silent ↦
        rw (r.effect item p q outcome e)
          (rw (silent, put_update) (silent_step Seen item p silent h))
    | inr ((k, v), writes) ↦
        rw (r.effect item p q outcome e)
          (rw (writes, put_update) (writing_step Seen item p k v writes h))
  ]

  SeenAlso-cons :
      (Seen : CanonicalGroupEvent → Type 0) (item : CanonicalGroupEvent)
      (items : List CanonicalGroupEvent) (p : GroupProjection)
      → Holds (λ x. In x items ⊎ SeenAlso Seen item x) p
      → Holds (λ x. In x (item ∷ items) ⊎ Seen x) p
  SeenAlso-cons Seen item items p h =
      HoldsLatest-of_iff r.stamp (WroteBy r.update (λ x. In x items ⊎ SeenAlso Seen item x)) _
        (r.field p)
        (λ k v. (
          λ (x, seen, wrote). (
            x,
            elim seen [
              | inl later ↦ inl (there later)
              | inr now ↦ elim now [ inl same ↦ inl (here (sym same)) | inr old ↦ inr old ]
            ],
            wrote,
          ),
          λ (x, seen, wrote).
              (x, elim seen [ inl m ↦ in_cons x m | inr old ↦ inr (inr old) ], wrote),
        ))
        h
    where
      in_cons : (x : CanonicalGroupEvent) → In x (item ∷ items) → In x items ⊎ SeenAlso Seen item x
      in_cons x (here e) = inr (inl (sym e))
      in_cons x (there m) = inl m

  step-Holds :
      (Seen : CanonicalGroupEvent → Type 0) (item : CanonicalGroupEvent)
      (from to : ProjectionRebuildReport)
      → rebuild_step l from item ≡ ok to
      → Holds Seen from.projection
      → Holds (SeenAlso Seen item) to.projection
  unfolding rebuild_step
  step-Holds Seen item from to e h =
      let ((q, outcome), stepped, counted) =
        >>=-eq-ok (apply_canonical_event item.event item.store_offset l from.projection) _ e in
      let same : to.projection ≡ q = ground arith in
      rw same (event_step Seen item from.projection q outcome stepped h)

  pub loop-Holds :
      (Seen : CanonicalGroupEvent → Type 0) (items : List CanonicalGroupEvent)
      (from to : ProjectionRebuildReport)
      → rebuild_loop l from items ≡ ok to
      → Holds Seen from.projection
      → Holds (λ x. In x items ⊎ Seen x) to.projection
  unfolding rebuild_loop
  loop-Holds Seen [] from to e h =
      HoldsLatest-of_iff r.stamp (WroteBy r.update Seen) _ (r.field to.projection)
        (λ k v. (
          λ (x, seen, wrote). (x, inr seen, wrote),
          λ (x, seen, wrote). (x, elim seen [ inl m ↦ elim m [ ] | inr old ↦ old ], wrote),
        ))
        (let same : to.projection ≡ from.projection = cc in rw same h)
  loop-Holds Seen (item ∷ items) from to e h =
      let (next, stepped, rest) = >>=-eq-ok (rebuild_step l from item) _ e in
      SeenAlso-cons Seen item items to.projection (
        loop-Holds (SeenAlso Seen item) items next to rest
          (step-Holds Seen item from next stepped h))
