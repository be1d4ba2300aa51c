-- ===== src/Runtime/GroupService/Tracks.antt =====
-- A record of the outbox through the loops that generate events (groups.rs).
use tangle.Common.{
  ℕ, zero, suc, ◌≡◌, ◌≢◌, ◌∙◌, refl, sym, ap, inl, inr, ◌⊎◌, Bool, true, false, Option, none, some,
  List, [], ◌∷◌, ◌++◌, Result, ok, In, here, there, In-uncons, arith, All, Bool-cases, List-cases,
  get, get-insert, get-insert_self, In-get, eqb, eqb_iff, take, nat_ord, list_ord, option_ord,
  pair_ord, subst,
}
use tangle.Common.Effects.{>>=-ok}
use tangle.Protocol.{EventId}
use tangle.Groups.Projection.{StoreOffset}
use tangle.Groups.Outbox.{
  GroupOutboxKey, key_ord, GroupOutboxRecord, GroupOutbox, update, is_retryable, mark_stored,
  replay_plan_matching,
}
use tangle.Groups.Outbox.Distinct.{IsWellFormed, All-In}
use tangle.Groups.Outbox.Plan.{In-replay_plan_matching}
use tangle.Runtime.Errors.{BaseRelayError}
use tangle.Runtime.Store.{Pocket, PocketSyncPolicy}
use tangle.Runtime.GroupService.State.{
  GroupService, ServiceState, push_offset, append_offsets, is_unsupported, materialize_record,
  materialize_records, materialize_loop, materialize_plan,
}
use tangle.Runtime.GroupService.Settles.{materialize_record-Settled}
use tangle.Runtime.GroupService.Counts.{In-values}
use tangle.Runtime.GroupService.Drains.{materialize_records-Lowers, append_offsets-some}
use tangle.Runtime.GroupService.Generates.{WasGenerated, materialize_record_made}

some-same : {A : Type 0} (a b : A) → ◌≡◌ {A = Option A} (some a) (some b) → a ≡ b
some-same a b e = cc e

abbrev pub Within : List StoreOffset → List StoreOffset → Type 0
Within some_offsets offsets = (offset : StoreOffset) → In offset some_offsets → In offset offsets

In-append-left :
    (offset : StoreOffset) (xs ys : List StoreOffset) → In offset xs → In offset (xs ++ ys)
In-append-left offset [] ys m = elim m [ ]
In-append-left offset (x ∷ xs) ys m = elim (In-uncons m) [
  | inl same ↦ here same
  | inr later ↦ there (In-append-left offset xs ys later)
]

In-append-right :
    (offset : StoreOffset) (xs ys : List StoreOffset) → In offset ys → In offset (xs ++ ys)
In-append-right offset [] ys m = m
In-append-right offset (x ∷ xs) ys m = there (In-append-right offset xs ys m)

In-push-left :
    (offset : StoreOffset) (one : Option StoreOffset) (rest : List StoreOffset)
    → In offset (push_offset one [])
    → In offset (push_offset one rest)
In-push-left offset none rest m = elim m [ ]
In-push-left offset (some x) rest m = elim (In-uncons m) [
  | inl same ↦ here same
  | inr later ↦ elim later [ ]
]

In-push-right :
    (offset : StoreOffset) (one : Option StoreOffset) (rest : List StoreOffset)
    → In offset rest
    → In offset (push_offset one rest)
In-push-right offset none rest m = m
In-push-right offset (some x) rest m = there m

module _ (pocket : Pocket) (sync_policy : PocketSyncPolicy) (service : GroupService)
    (r : GroupOutboxRecord) (supported : is_unsupported r.key.effect ≡ false)
    (all : List StoreOffset) where
  WasGenerated-Within :
      (id : EventId) (offsets : List StoreOffset)
      → Within offsets all
      → WasGenerated pocket sync_policy service r id offsets
      → WasGenerated pocket sync_policy service r id all
  WasGenerated-Within id offsets within (e, a, b, u, inl already) = (e, a, b, u, inl already)
  WasGenerated-Within id offsets within (e, a, b, u, inr (offset, m, put)) =
      (e, a, b, u, inr (offset, within offset m, put))

  -- The record is in the outbox as it was planned, or its event was generated.
  abbrev pub IsTracked : GroupOutbox → Type 0
  IsTracked outbox =
      (get r.key outbox ≡ some r)
      ⊎ ((id : EventId) × (get r.key outbox ≡ some (mark_stored id r))
          × WasGenerated pocket sync_policy service r id all)

  -- A record under the same key is the same one.
  abbrev IsSame : GroupOutboxRecord → Type 0
  IsSame x = x.key ≡ r.key → x ≡ r

  get-other :
      (next : GroupOutboxRecord) (outbox : GroupOutbox)
      → next.key ≢ r.key
      → get r.key (update next outbox) ≡ get r.key outbox
  get-other next outbox n = elim (Bool-cases (eqb {A = GroupOutboxKey} r.key next.key)) [
    | inl e ↦ absurd (n (sym ((eqb_iff {A = GroupOutboxKey} r.key next.key).0 e)))
    | inr e ↦ rw (get-insert {K = GroupOutboxKey} next.key r.key next outbox) (rw e refl)
  ]

  record-IsTracked :
      (x : GroupOutboxRecord) (s t : ServiceState pocket) (offset : Option StoreOffset)
      → materialize_record pocket sync_policy service x s ≡ (ok offset, t)
      → IsSame x
      → Within (push_offset offset []) all
      → IsTracked s.outbox
      → IsTracked t.outbox
  record-IsTracked x s t offset h same within tracked =
      elim (Bool-cases (eqb {A = GroupOutboxKey} x.key r.key)) [
        | inl e ↦
            let it = same ((eqb_iff {A = GroupOutboxKey} x.key r.key).0 e) in
            let (id, made, put) =
              materialize_record_made pocket sync_policy service r s t offset supported
                (ap (λ y. materialize_record pocket sync_policy service y s) (sym it) ∙ h) in
            inr (
              id,
              ap (get r.key) put
                  ∙ get-insert_self {K = GroupOutboxKey} r.key (mark_stored id r) s.outbox,
              WasGenerated-Within id (push_offset offset []) within made,
            )
        | inr other ↦
            let (next, key_same, done, put) =
              materialize_record-Settled pocket sync_policy service x s t offset h in
            let different : next.key ≢ r.key = λ q.
              absurd
                (cc (other, (eqb_iff {A = GroupOutboxKey} x.key r.key).1 (sym key_same ∙ q))) in
            let kept : get r.key t.outbox ≡ get r.key s.outbox =
              ap (get r.key) put ∙ get-other next s.outbox different in
            elim tracked [
              | inl planned ↦ inl (kept ∙ planned)
              | inr (id, stored, made) ↦ inr (id, kept ∙ stored, made)
            ]
      ]

  pub records-IsTracked :
      (records : List GroupOutboxRecord) (s t : ServiceState pocket) (offsets : List StoreOffset)
      → materialize_records pocket sync_policy service records s ≡ (ok offsets, t)
      → All IsSame records
      → Within offsets all
      → IsTracked s.outbox
      → IsTracked t.outbox
  unfolding materialize_records
  records-IsTracked [] s t offsets h same within tracked =
      let still : s ≡ t =
        ap (λ (x : Result BaseRelayError (List StoreOffset) × ServiceState pocket). x.1) h in
      subst (λ (u : ServiceState pocket). IsTracked u.outbox) still tracked
  records-IsTracked (x ∷ records) s t offsets h (one, others) within tracked =
      let (offset, e, h1) =
        >>=-ok (materialize_record pocket sync_policy service x) _ s t offsets h in
      let between = (materialize_record pocket sync_policy service x s).1 in
      let (later, f, h2) =
        >>=-ok (materialize_records pocket sync_policy service records) _ between t offsets h1 in
      let after = (materialize_records pocket sync_policy service records between).1 in
      let still : after ≡ t =
        ap (λ (y : Result BaseRelayError (List StoreOffset) × ServiceState pocket). y.1) h2 in
      let pushed : push_offset offset later ≡ offsets = ground (
        arith,
        ap (λ (y : Result BaseRelayError (List StoreOffset) × ServiceState pocket). y.0) h2,
      ) in
      let goes : Within (push_offset offset later) all = rw pushed within in
      let first =
        record-IsTracked x s between offset (λ i. (e i, between)) one
          (λ o m. goes o (In-push-left o offset later m)) tracked in
      subst (λ (u : ServiceState pocket). IsTracked u.outbox) still
        (records-IsTracked records between after later (λ i. (f i, after)) others
          (λ o m. goes o (In-push-right o offset later m)) first)

  found-IsSame :
      (x : GroupOutboxRecord) (outbox : GroupOutbox)
      → is_retryable x ≡ true
      → get x.key outbox ≡ some x
      → IsTracked outbox
      → IsSame x
  found-IsSame x outbox waits found (inl planned) q =
      some-same x r (sym found ∙ ap (λ (k : GroupOutboxKey). get k outbox) q ∙ planned)
  found-IsSame x outbox waits found (inr (id, stored, made)) q =
      let it =
        some-same x (mark_stored id r)
          (sym found ∙ ap (λ (k : GroupOutboxKey). get k outbox) q ∙ stored) in
      absurd (cc (sym waits ∙ ap is_retryable it))

  plan-IsSame :
      (include : GroupOutboxRecord → Bool) (outbox : GroupOutbox)
      → IsWellFormed outbox
      → IsTracked outbox
      → All IsSame (replay_plan_matching include outbox)
  plan-IsSame include outbox (s, k) tracked =
      All-In IsSame (replay_plan_matching include outbox) λ x m.
        let (value, chosen) = (In-replay_plan_matching include outbox x).0 m in
        let found = (In-get {K = GroupOutboxKey} x.key x outbox s).0 (In-values x outbox k value) in
        found-IsSame x outbox (ground (arith, chosen)) found tracked

  take-IsSame : (n : ℕ) (xs : List GroupOutboxRecord) → All IsSame xs → All IsSame (take n xs)
  take-IsSame zero xs a = tt
  take-IsSame (suc n) [] a = tt
  take-IsSame (suc n) (x ∷ xs) (h, a) = (h, take-IsSame n xs a)

  module _ (include : GroupOutboxRecord → Bool) where
    loop-IsTracked :
        (fuel : ℕ) (s t : ServiceState pocket) (offsets : List StoreOffset)
        → materialize_loop pocket sync_policy service fuel (replay_plan_matching include) s
          ≡ (ok (some offsets), t)
        → IsWellFormed s.outbox
        → Within offsets all
        → IsTracked s.outbox
        → IsTracked t.outbox
    unfolding materialize_loop
    loop-IsTracked zero s t offsets e w within tracked = absurd (
        cc (
          ap (λ (x : Result BaseRelayError (Option (List StoreOffset)) × ServiceState pocket). x.0)
            e))
    loop-IsTracked (suc fuel) s t offsets e w within tracked =
        elim (List-cases
          (take service.outbox_replay_batch_cap (replay_plan_matching include s.outbox))) [
            | inl done ↦
                let same : s ≡ t =
                  ap
                    (λ (x : Result BaseRelayError (Option (List StoreOffset))
                        × ServiceState pocket).
                      x.1)
                    (rw (materialize_loop, done) at e) in
                subst (λ (u : ServiceState pocket). IsTracked u.outbox) same tracked
            | inr (x, records, more) ↦
                let run = rw (materialize_loop, more) at e in
                let (first, f, h1) =
                  >>=-ok (materialize_records pocket sync_policy service (x ∷ records)) _ s t
                    (some offsets) run in
                let between = (materialize_records pocket sync_policy service (x ∷ records) s).1 in
                let (rest, g, h2) =
                  >>=-ok
                    (materialize_loop pocket sync_policy service fuel
                      (replay_plan_matching include))
                    _ between t (some offsets) h1 in
                let after =
                  (materialize_loop pocket sync_policy service fuel (replay_plan_matching include)
                    between).1 in
                let appended : append_offsets first rest ≡ some offsets = ground (
                  arith,
                  ap
                      (λ (y : Result BaseRelayError (Option (List StoreOffset))
                          × ServiceState pocket).
                        y.0)
                      h2,
                ) in
                let (later, there_are) = append_offsets-some first offsets rest appended in
                let joined : first ++ later ≡ offsets =
                  some-same (first ++ later) offsets
                    (ap (append_offsets first) (sym there_are) ∙ appended) in
                let same : after ≡ t =
                  ap
                    (λ (y : Result BaseRelayError (Option (List StoreOffset))
                        × ServiceState pocket).
                      y.1)
                    h2 in
                let goes : Within (first ++ later) all = rw joined within in
                let batch_same =
                  take-IsSame service.outbox_replay_batch_cap
                    (replay_plan_matching include s.outbox)
                    (plan-IsSame include s.outbox w tracked) in
                let middle =
                  records-IsTracked (x ∷ records) s between first (λ i. (f i, between))
                    (subst (All IsSame) more batch_same)
                    (λ o m. goes o (In-append-left o first later m)) tracked in
                let (w1, lower) =
                  materialize_records-Lowers pocket sync_policy service include (x ∷ records) s
                    between first (λ i. (f i, between)) w in
                subst (λ (u : ServiceState pocket). IsTracked u.outbox) same
                  (loop-IsTracked fuel between after later (λ i. ((g ∙ ap ok there_are) i, after))
                    w1 (λ o m. goes o (In-append-right o first later m)) middle)
          ]

    pub materialize_plan-IsTracked :
        (s t : ServiceState pocket) (offsets : List StoreOffset)
        → materialize_plan pocket sync_policy service (replay_plan_matching include) s
          ≡ (ok (some offsets), t)
        → IsWellFormed s.outbox
        → Within offsets all
        → IsTracked s.outbox
        → IsTracked t.outbox
    unfolding materialize_plan
    materialize_plan-IsTracked s t offsets e w within tracked =
        loop-IsTracked _ s t offsets e w within tracked
