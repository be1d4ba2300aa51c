-- ===== src/Runtime/GroupService/Merging.antt =====
-- The merge of planned records into the outbox (groups.rs).
use tangle.Common.{
  ◌≡◌, ◌≢◌, ◌∙◌, sym, ap, inl, inr, Bool, true, false, none, some, List, [], ◌∷◌, Result, ok, In,
  here, there, In-uncons, All, arith, Bool-cases, Result-cases, get, get-insert, get-insert_self,
  eqb, eqb_iff, nat_ord, list_ord, option_ord, pair_ord, subst, if◌then◌else◌,
}
use tangle.Common.Effects.{>>=-ok, ◌>>=◌, pure}
use tangle.Groups.Outbox.{
  GroupOutboxKey, key_ord, GroupOutboxRecord, GroupOutbox, update, values, merge_idempotent,
}
use tangle.Groups.Outbox.Merges.{merge_keeps}
use tangle.Groups.Outbox.Distinct.{IsDistinct}
use tangle.Runtime.Errors.{BaseRelayError}
use tangle.Runtime.Store.{Pocket, PocketSyncPolicy}
use tangle.Runtime.GroupService.State.{GroupService, ServiceState, on_store, persist_outbox_record}
use tangle.Runtime.GroupService.Writes.{merge_record, merge_records}

pub In-entry-values :
    (k : GroupOutboxKey) (r : GroupOutboxRecord) (outbox : GroupOutbox)
    → In {A = GroupOutboxKey × GroupOutboxRecord} (k, r) outbox
    → In r (values outbox)
In-entry-values k r [] m = elim m [ ]
In-entry-values k r ((j, x) ∷ outbox) m = elim (In-uncons m) [
  | inl same ↦ here (ap (λ (entry : GroupOutboxKey × GroupOutboxRecord). entry.1) same)
  | inr later ↦ there (In-entry-values k r outbox later)
]

module _ (pocket : Pocket) (sync_policy : PocketSyncPolicy) (service : GroupService) where
  abbrev pub IsIn : GroupOutbox → GroupOutboxRecord → Type 0
  IsIn outbox r = get r.key outbox ≡ some r

  abbrev pub IsNew : GroupOutbox → GroupOutboxRecord → Type 0
  IsNew outbox r = get r.key outbox ≡ none

  merge_record_ok :
      (r : GroupOutboxRecord) (s t : ServiceState pocket) (inserted : Bool)
      → merge_record pocket sync_policy service r s ≡ (ok inserted, t)
      → merge_idempotent r s.outbox ≡ ok (t.outbox, inserted)
  unfolding merge_record
  merge_record_ok r s t inserted h = elim (Result-cases (merge_idempotent r s.outbox)) [
    | inr (x, e) ↦
        absurd (cc (ap (λ (y : Result BaseRelayError Bool × ServiceState pocket). y.0) (rw e at h)))
    | inl ((next, new), e) ↦
        let run = rw e at h in
        let same_new : new ≡ inserted =
          ground (arith, ap (λ (y : Result BaseRelayError Bool × ServiceState pocket). y.0) run) in
        let same_next : next ≡ t.outbox =
          ap (λ (y : Result BaseRelayError Bool × ServiceState pocket). y.1.outbox) run in
        e ∙ (λ i. ok (same_next i, same_new i))
  ]

  merge_records_step :
      (r : GroupOutboxRecord) (records : List GroupOutboxRecord) (s t : ServiceState pocket)
      → merge_records pocket sync_policy service (r ∷ records) s ≡ (ok tt, t)
      → (u : ServiceState pocket) × (inserted : Bool) × (merge_idempotent r s.outbox
          ≡ ok (u.outbox, inserted))
        × (merge_records pocket sync_policy service records u ≡ (ok tt, t))
  unfolding merge_records
  merge_records_step r records s t h =
      let (inserted, e, h1) = >>=-ok (merge_record pocket sync_policy service r) _ s t tt h in
      let s1 = (merge_record pocket sync_policy service r s).1 in
      let merged = merge_record_ok r s s1 inserted (λ i. (e i, s1)) in
      by_inserted inserted s1 merged h1
    where
      by_inserted :
          (inserted : Bool) (s1 : ServiceState pocket)
          → merge_idempotent r s.outbox ≡ ok (s1.outbox, inserted)
          → ((if inserted
                  then on_store pocket (persist_outbox_record pocket sync_policy r)
                  else pure tt)
                >>= λ done. merge_records pocket sync_policy service records)
              s1
            ≡ (ok tt, t)
          → (u : ServiceState pocket) × (new : Bool) × (merge_idempotent r s.outbox
              ≡ ok (u.outbox, new))
            × (merge_records pocket sync_policy service records u ≡ (ok tt, t))
      by_inserted false s1 m h = (s1, false, m, h)
      by_inserted true s1 m h =
          let (done, e, h1) =
            >>=-ok (on_store pocket (persist_outbox_record pocket sync_policy r)) _ s1 t tt h in
          ((on_store pocket (persist_outbox_record pocket sync_policy r) s1).1, true, m, h1)

  merge_records_keep :
      (records : List GroupOutboxRecord) (r : GroupOutboxRecord) (s t : ServiceState pocket)
      → merge_records pocket sync_policy service records s ≡ (ok tt, t)
      → IsIn s.outbox r
      → IsIn t.outbox r
  unfolding merge_records
  merge_records_keep [] r s t h found =
      subst (λ (u : ServiceState pocket). IsIn u.outbox r)
        (ap (λ (y : Result BaseRelayError (Unit {0}) × ServiceState pocket). y.1) h) found
  merge_records_keep (x ∷ records) r s t h found =
      let (u, new, m, h1) = merge_records_step x records s t h in
      merge_records_keep records r u t h1 (merge_keeps x r r.key s.outbox u.outbox new found m)

  merge_new :
      (r : GroupOutboxRecord) (outbox next : GroupOutbox) (inserted : Bool)
      → IsNew outbox r
      → merge_idempotent r outbox ≡ ok (next, inserted)
      → next ≡ update r outbox
  unfolding merge_idempotent
  merge_new r outbox next inserted unknown h = ground (arith, rw (merge_idempotent, unknown) at h)

  update-IsNew :
      (r : GroupOutboxRecord) (outbox : GroupOutbox) (records : List GroupOutboxRecord)
      → All (λ (q : GroupOutboxRecord). r.key ≢ q.key) records
      → All (IsNew outbox) records
      → All (IsNew (update r outbox)) records
  update-IsNew r outbox [] n a = tt
  update-IsNew r outbox (q ∷ records) (n, ns) (a, others) = (
    elim (Bool-cases (eqb {A = GroupOutboxKey} q.key r.key)) [
      | inl e ↦ absurd (n (sym ((eqb_iff {A = GroupOutboxKey} q.key r.key).0 e)))
      | inr e ↦ rw (get-insert {K = GroupOutboxKey} r.key q.key r outbox) (rw e a)
    ],
    update-IsNew r outbox records ns others,
  )

  -- Records whose keys are new and different are all in the outbox after their merge.
  pub merge_records_add :
      (records : List GroupOutboxRecord) (s t : ServiceState pocket)
      → IsDistinct records
      → All (IsNew s.outbox) records
      → merge_records pocket sync_policy service records s ≡ (ok tt, t)
      → All (IsIn t.outbox) records
  merge_records_add [] s t d a h = tt
  merge_records_add (r ∷ records) s t (n, d) (a, others) h =
      let (u, new, m, h1) = merge_records_step r records s t h in
      let next = merge_new r s.outbox u.outbox new a m in
      (
        merge_records_keep records r u t h1
            (ap (get r.key) next ∙ get-insert_self {K = GroupOutboxKey} r.key r s.outbox),
        merge_records_add records u t d
            (subst (λ (o : GroupOutbox). All (IsNew o) records) (sym next)
              (update-IsNew r s.outbox records n others))
            h1,
      )
