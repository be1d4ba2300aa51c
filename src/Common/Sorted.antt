-- ===== src/Common/Sorted.antt =====
-- Maps whose keys stand in order.
use Prim.Native.Nat.{◌≤◌, Ordering}
use mathlib.Core.Path.{◌≡◌, refl, sym, ap}
use mathlib.Core.Logic.{◌⊎◌, ◌↔◌, inl, inr}
use mathlib.Core.Bool.{Bool}
use mathlib.Core.Option.{Option, none, some}
use mathlib.Core.List.{[], ◌∷◌}
use native.Mathlib.Omega.{arith}
use tangle.Common.Tests.{if◌then◌else◌, Bool-cases}
use tangle.Common.Lists.{length, All, In, here, there, In-uncons}
use tangle.Common.Order.{Ord, eqb, eqb_iff, eqb_self}
use tangle.Common.Containers.{BTreeMap, get, insert, remove}

pub cmp_cases :
    {K : Type 0} ⦃o : Ord K⦄ (x y : K)
    → (o.cmp x y ≡ Ordering.lt) ⊎ (o.cmp x y ≡ Ordering.eq) ⊎ (o.cmp x y ≡ Ordering.gt)
cmp_cases ⦃o⦄ x y = ground arith

module _ {K V : Type 0} ⦃o : Ord K⦄ where
  abbrev pub Above : K → BTreeMap K V → Type 0
  Above k m = All (λ (entry : K × V). o.cmp k entry.0 ≡ Ordering.lt) m

  abbrev pub IsSorted : BTreeMap K V → Type 0
  IsSorted [] = Unit
  IsSorted ((k, v) ∷ m) = Above k m × IsSorted m

  -- `retain`.
  unfoldable pub retain : (K → V → Bool) → BTreeMap K V → BTreeMap K V
  retain p [] = []
  retain p ((k, v) ∷ m) = let rest = retain p m in if p k v then (k, v) ∷ rest else rest

  pub Above-trans : (i k : K) (m : BTreeMap K V) → o.cmp i k ≡ Ordering.lt → Above k m → Above i m
  Above-trans i k [] h a = tt
  Above-trans i k ((j, v) ∷ m) h (b, a) = (o.cmp_trans i k j h b, Above-trans i k m h a)

  pub get-Above : (k : K) (m : BTreeMap K V) → Above k m → get k m ≡ none
  unfolding get
  get-Above k [] a = refl
  get-Above k ((j, v) ∷ m) (b, a) = ground (arith, get-Above k m a, o.cmp_eq k j)

  Above-insert :
      (i k : K) (v : V) (m : BTreeMap K V)
      → o.cmp i k ≡ Ordering.lt
      → Above i m
      → Above i (insert k v m)
  unfolding insert
  Above-insert i k v [] h a = (h, tt)
  Above-insert i k v ((j, w) ∷ m) h (b, a) = elim (cmp_cases k j) [
    | inl l ↦ rw (insert, l) (h, (b, a))
    | inr (inl e) ↦ rw (insert, e) (h, a)
    | inr (inr g) ↦ rw (insert, g) (b, Above-insert i k v m h a)
  ]

  pub insert-IsSorted : (k : K) (v : V) (m : BTreeMap K V) → IsSorted m → IsSorted (insert k v m)
  unfolding insert
  insert-IsSorted k v [] s = (tt, tt)
  insert-IsSorted k v ((j, w) ∷ m) (a, s) = elim (cmp_cases k j) [
    | inl l ↦ rw (insert, l) ((l, Above-trans k j m l a), (a, s))
    | inr (inl e) ↦ rw (insert, e, (o.cmp_eq k j).0 e) (a, s)
    | inr (inr g) ↦
        rw (insert, g)
          (Above-insert j k v m (ground (arith, o.cmp_swap k j)) a, insert-IsSorted k v m s)
  ]

  -- Writing under a key that is there does not make the map longer.
  pub length-insert_present :
      (k : K) (v w : V) (m : BTreeMap K V)
      → IsSorted m
      → get k m ≡ some w
      → length (insert k v m) ≡ length m
  unfolding insert get
  length-insert_present k v w [] s h = absurd (ground arith)
  length-insert_present k v w ((j, u) ∷ m) (a, s) h = elim (cmp_cases k j) [
    | inl l ↦ absurd (ground (arith, get-Above k m (Above-trans k j m l a)))
    | inr (inl e) ↦ rw (insert, e) refl
    | inr (inr g) ↦ rw (insert, g) (ground (arith, length-insert_present k v w m s))
  ]

  Above-retain : (i : K) (p : K → V → Bool) (m : BTreeMap K V) → Above i m → Above i (retain p m)
  unfolding retain
  Above-retain i p [] a = tt
  Above-retain i p ((k, v) ∷ m) (b, a) = elim (Bool-cases (p k v)) [
    | inl e ↦ rw e (b, Above-retain i p m a)
    | inr e ↦ rw e (Above-retain i p m a)
  ]

  pub retain-IsSorted : (p : K → V → Bool) (m : BTreeMap K V) → IsSorted m → IsSorted (retain p m)
  unfolding retain
  retain-IsSorted p [] s = tt
  retain-IsSorted p ((k, v) ∷ m) (a, s) = elim (Bool-cases (p k v)) [
    | inl e ↦ rw e (Above-retain k p m a, retain-IsSorted p m s)
    | inr e ↦ rw e (retain-IsSorted p m s)
  ]

  abbrev pub kept : (K → V → Bool) → K → Option V → Option V
  kept p k none = none
  kept p k (some v) = if p k v then some v else none

  pub get-retain :
      (k : K) (p : K → V → Bool) (m : BTreeMap K V)
      → IsSorted m
      → get k (retain p m) ≡ kept p k (get k m)
  unfolding retain get
  get-retain k p [] s = refl
  get-retain k p ((j, w) ∷ m) (a, s) = elim (Bool-cases (eqb k j)) [
    | inr different ↦ elim (Bool-cases (p j w)) [
      | inl e ↦ rw (e, get, different) (get-retain k p m s)
      | inr e ↦ rw (e, different) (get-retain k p m s)
    ]
    | inl same ↦
        let here_it : k ≡ j = (eqb_iff k j).0 same in
        elim (Bool-cases (p j w)) [
          | inl e ↦ rw (e, get, here_it, eqb_self j, e) refl
          | inr e ↦ rw (here_it, e, eqb_self j, e) (get-Above j (retain p m) (Above-retain j p m a))
        ]
  ]

  pub length-retain-le : (p : K → V → Bool) (m : BTreeMap K V) → length (retain p m) ≤ length m
  unfolding retain
  length-retain-le p [] = omega arith
  length-retain-le p ((k, v) ∷ m) = ground (arith, length-retain-le p m)

  Above-remove : (i k : K) (m : BTreeMap K V) → Above i m → Above i (remove k m)
  unfolding remove
  Above-remove i k [] a = tt
  Above-remove i k ((j, v) ∷ m) (b, a) = elim (Bool-cases (eqb k j)) [
    | inl e ↦ rw e (Above-remove i k m a)
    | inr e ↦ rw e (b, Above-remove i k m a)
  ]

  pub remove-IsSorted : (k : K) (m : BTreeMap K V) → IsSorted m → IsSorted (remove k m)
  unfolding remove
  remove-IsSorted k [] s = tt
  remove-IsSorted k ((j, v) ∷ m) (a, s) = elim (Bool-cases (eqb k j)) [
    | inl e ↦ rw e (remove-IsSorted k m s)
    | inr e ↦ rw e (Above-remove j k m a, remove-IsSorted k m s)
  ]

  pub length-remove-le : (k : K) (m : BTreeMap K V) → length (remove k m) ≤ length m
  unfolding remove
  length-remove-le k [] = omega arith
  length-remove-le k ((j, v) ∷ m) = ground (arith, length-remove-le k m)

  Above-In :
      (k : K) (entry : K × V) (m : BTreeMap K V)
      → Above k m
      → In entry m
      → o.cmp k entry.0 ≡ Ordering.lt
  Above-In k entry [] a n = elim n [ ]
  Above-In k entry (other ∷ m) (b, a) n = elim (In-uncons n) [
    | inl same ↦ rw (sym same) b
    | inr later ↦ Above-In k entry m a later
  ]

  -- An entry of a map is what its key is looked up to.
  pub In-get : (k : K) (v : V) (m : BTreeMap K V) → IsSorted m → In (k, v) m ↔ (get k m ≡ some v)
  unfolding get
  In-get k v [] s = (λ n. elim n [ ], λ h. absurd cc)
  In-get k v ((j, w) ∷ m) (a, s) =
      let (into, from) = In-get k v m s in
      elim (Bool-cases (eqb k j)) [
        | inl same ↦
            let e : k ≡ j = (eqb_iff k j).0 same in
            rw (get, same)
              (
                λ n. elim (In-uncons n) [
                  | inl found ↦ ap (λ (x : K × V). some x.1) found
                  | inr later ↦
                      absurd
                        (ground (arith, Above-In j (k, v) m a later, o.cmp_eq k j, o.cmp_eq j k))
                ],
                λ h. here (let f : w ≡ v = ground arith in rw (e, f) refl),
              )
        | inr different ↦
            rw (get, different)
              (
                λ n. elim (In-uncons n) [
                  | inl found ↦ absurd (ground (arith, ap (λ (x : K × V). x.0) found, o.cmp_eq k j))
                  | inr later ↦ into later
                ],
                λ h. there (from h),
              )
      ]
