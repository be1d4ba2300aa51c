-- ===== src/Groups/Projection/Registers.antt =====
-- A map of the projection whose entries give way to those that are not older.
use tangle.Common.{
  ◌≡◌, refl, ap, ◌⊎◌, inl, inr, ◌↔◌, true, Option, none, some, arith, BTreeMap, get, insert,
  get-insert, get-insert_self, Ord, eqb, eqb_iff, geb, geb_self, geb_trans, geb_total, geb_antisymm,
  if◌then◌else◌, Option-cases, Bool-cases,
}
use tangle.Groups.Projection.{ProjectionOrderTuple, tuple_ord, not_older}

module _ {K V : Type 0} ⦃o : Ord K⦄ (stamp : V → ProjectionOrderTuple) where
  unfoldable pub put_latest : K → V → BTreeMap K V → BTreeMap K V
  put_latest k v m = if not_older stamp (stamp v) (get k m) then insert k v m else m

  abbrev pub put_update : Option (K × V) → BTreeMap K V → BTreeMap K V
  put_update none m = m
  put_update (some (k, v)) m = put_latest k v m

  -- `v` is the newest entry that the events wrote at `k`.
  pub record IsLatest (Wrote : K → V → Type 0) (k : K) (v : V) : Type 0 where
    pub wrote : Wrote k v
    pub newest : (w : V) → Wrote k w → geb (stamp v) (stamp w) ≡ true

  -- The map holds the newest entries and no others.
  pub record HoldsLatest (Wrote : K → V → Type 0) (m : BTreeMap K V) : Type 0 where
    pub held : (k : K) (v : V) → get k m ≡ some v → IsLatest Wrote k v
    pub missing : (k : K) (v : V) → get k m ≡ none → ¬ Wrote k v

  put_latest_cases :
      (k : K) (v : V) (m : BTreeMap K V)
      → ((put_latest k v m ≡ insert k v m)
          × ((w : V) → get k m ≡ some w → geb (stamp v) (stamp w) ≡ true))
        ⊎ ((w : V) × (get k m ≡ some w) × (put_latest k v m ≡ m) × (geb (stamp w) (stamp v) ≡ true))
  unfolding put_latest
  put_latest_cases k v m = elim (Option-cases (get k m)) [
    | inl e ↦ inl (rw e, λ w h. cc)
    | inr (w, e) ↦ elim (Bool-cases (geb (stamp v) (stamp w))) [
      | inl newer ↦ inl (rw e (rw newer), λ x h. ground arith)
      | inr older ↦ inr (w, e, rw e (rw older), ground (arith, geb_total (stamp v) (stamp w)))
    ]
  ]

  -- An entry gives way only to one that is not older.
  pub put_latest_grows :
      (k j : K) (v w : V) (m : BTreeMap K V)
      → get j m ≡ some w
      → (u : V) × (get j (put_latest k v m) ≡ some u) × (geb (stamp u) (stamp w) ≡ true)
  put_latest_grows k j v w m h = elim (put_latest_cases k v m) [
    | inr (x, found, same, newer) ↦ (w, rw same h, geb_self (stamp w))
    | inl (put, newer) ↦ elim (Bool-cases (eqb j k)) [
      | inl e ↦ (v, rw (put, get-insert k j v m, e) refl, newer w (rw (← (eqb_iff j k).0 e) h))
      | inr n ↦ (w, rw (put, get-insert k j v m, n) h, geb_self (stamp w))
    ]
  ]

  -- One more entry.
  abbrev pub WroteAlso : (K → V → Type 0) → K → V → K → V → Type 0
  WroteAlso Wrote k v j w = ((j ≡ k) × (w ≡ v)) ⊎ Wrote j w

  module _ (Wrote : K → V → Type 0) (k : K) (v : V) (m : BTreeMap K V)
      (h : HoldsLatest Wrote m) where
    kept-IsLatest :
        (j : K) (w : V)
        → IsLatest Wrote j w
        → ((x : V) → (j ≡ k) → (x ≡ v) → geb (stamp w) (stamp x) ≡ true)
        → IsLatest (WroteAlso Wrote k v) j w
    kept-IsLatest j w i new = record {
      wrote = inr i.wrote;
      newest = λ x wrote. elim wrote [ inl (a, b) ↦ new x a b | inr old ↦ i.newest x old ];
    }

    beats_earlier :
        ((x : V) → get k m ≡ some x → geb (stamp v) (stamp x) ≡ true)
        → (x : V) → Wrote k x
        → geb (stamp v) (stamp x) ≡ true
    beats_earlier newer x old = elim (Option-cases (get k m)) [
      | inl e ↦ absurd (h.missing k x e old)
      | inr (y, e) ↦
          geb_trans (stamp v) (stamp y) (stamp x) (newer y e) ((h.held k y e).newest x old)
    ]

    written-IsLatest :
        (j : K) (w : V)
        → ((x : V) → get k m ≡ some x → geb (stamp v) (stamp x) ≡ true)
        → j ≡ k
        → w ≡ v
        → IsLatest (WroteAlso Wrote k v) j w
    written-IsLatest j w newer a b = record {
      wrote = inl (a, b);
      newest = λ x wrote. elim wrote [
        | inl (_, c) ↦ rw (b, c) (geb_self (stamp v))
        | inr old ↦ rw b (beats_earlier newer x (rw a at old))
      ];
    }

    put_latest-held :
        (j : K) (w : V) → get j (put_latest k v m) ≡ some w → IsLatest (WroteAlso Wrote k v) j w
    put_latest-held j w e = elim (put_latest_cases k v m) [
      | inr (x, found, same, newer) ↦
          kept-IsLatest j w (h.held j w (rw same at e)) λ y a b. cc (rw same at e)
      | inl (put, newer) ↦ elim (Bool-cases (eqb j k)) [
        | inl hit ↦
            written-IsLatest j w newer ((eqb_iff j k).0 hit)
              (ground (arith, rw (put, get-insert k j v m, hit) at e))
        | inr miss ↦
            kept-IsLatest j w (h.held j w (rw (put, get-insert k j v m, miss) at e))
              (λ x a b. cc (miss, (eqb_iff j k).1 a))
      ]
    ]

    put_latest-missing :
        (j : K) (w : V) → get j (put_latest k v m) ≡ none → ¬ WroteAlso Wrote k v j w
    put_latest-missing j w e (inl (a, b)) = elim (put_latest_cases k v m) [
      | inl (put, newer) ↦ cc (rw put at e, ap (λ i. get i (insert k v m)) a, get-insert_self k v m)
      | inr (x, found, same, newer) ↦ cc (rw same at e, a)
    ]
    put_latest-missing j w e (inr old) = elim (Option-cases (get j m)) [
      | inl gone ↦ h.missing j w gone old
      | inr (x, found) ↦ cc (e, (put_latest_grows k j v x m found).1)
    ]

    pub put_latest-HoldsLatest : HoldsLatest (WroteAlso Wrote k v) (put_latest k v m)
    put_latest-HoldsLatest = record { held = put_latest-held; missing = put_latest-missing }

  pub HoldsLatest-of_iff :
      (Wrote Wrote' : K → V → Type 0) (m : BTreeMap K V)
      → ((k : K) (v : V) → Wrote k v ↔ Wrote' k v)
      → HoldsLatest Wrote m
      → HoldsLatest Wrote' m
  HoldsLatest-of_iff Wrote Wrote' m same h = record {
    held = λ k v e.
        let i = h.held k v e in
        record {
          wrote = (same k v).0 i.wrote;
          newest = λ w wrote. i.newest w ((same k w).1 wrote);
        };
    missing = λ k v e wrote. h.missing k v e ((same k v).1 wrote);
  }

  -- Where equal stamps belong to equal entries, what a map holds is fixed by what was written.
  pub HoldsLatest-unique :
      (Wrote : K → V → Type 0) (m n : BTreeMap K V)
      → ((k : K) (v w : V) → Wrote k v → Wrote k w → stamp v ≡ stamp w → v ≡ w)
      → HoldsLatest Wrote m
      → HoldsLatest Wrote n
      → (k : K) → get k m ≡ get k n
  HoldsLatest-unique Wrote m n distinct a b k = elim (Option-cases (get k m)) [
    | inl e ↦ elim (Option-cases (get k n)) [
      | inl f ↦ cc
      | inr (w, f) ↦ absurd (a.missing k w e (b.held k w f).wrote)
    ]
    | inr (v, e) ↦ elim (Option-cases (get k n)) [
      | inl f ↦ absurd (b.missing k v f (a.held k v e).wrote)
      | inr (w, f) ↦
          let i = a.held k v e in
          let j = b.held k w f in
          cc (
            e,
            f,
            distinct k v w i.wrote j.wrote
                (geb_antisymm (stamp v) (stamp w) (i.newest w j.wrote) (j.newest v i.wrote)),
          )
    ]
  ]
