-- ===== src/Common/Containers.antt =====
-- `BTreeMap` and `BTreeSet` of the standard library: lists in the order of their keys.
use Prim.Native.Nat.{◌+◌, ◌≤◌, Ordering}
use mathlib.Core.Path.{◌≡◌, refl}
use mathlib.Core.Logic.{inl, inr}
use mathlib.Core.Bool.{Bool, true, false, ◌||◌}
use mathlib.Core.Option.{Option, none, some}
use mathlib.Core.List.{List, [], ◌∷◌}
use native.Mathlib.Omega.{arith}
use tangle.Common.Tests.{if◌then◌else◌, is_some, Bool-cases}
use tangle.Common.Lists.{length, In, here, there}
use tangle.Common.Order.{Ord, eqb, eqb_iff, eqb_self}

abbrev pub BTreeMap {ℓ κ} : Type ℓ → Type κ → Type (ℓ ⊔ κ)
BTreeMap K V = List (K × V)

abbrev pub BTreeSet {ℓ} : Type ℓ → Type ℓ
BTreeSet K = List K

module _ {ℓ κ} {K : Type ℓ} {V : Type κ} ⦃o : Ord K⦄ where
  unfoldable pub get : K → BTreeMap K V → Option V
  get k [] = none
  get k ((j, v) ∷ m) = if eqb k j then some v else get k m

  unfoldable pub insert : K → V → BTreeMap K V → BTreeMap K V
  insert k v [] = (k, v) ∷ []
  insert k v ((j, w) ∷ m) = elim (o.cmp k j) [
    | Ordering.lt ↦ (k, v) ∷ (j, w) ∷ m
    | Ordering.eq ↦ (k, v) ∷ m
    | Ordering.gt ↦ (j, w) ∷ insert k v m
  ]

  unfoldable pub remove : K → BTreeMap K V → BTreeMap K V
  remove k [] = []
  remove k ((j, w) ∷ m) = if eqb k j then remove k m else (j, w) ∷ remove k m

  abbrev pub contains_key : K → BTreeMap K V → Bool
  contains_key k m = is_some (get k m)

  pub get-insert :
      (k j : K) (v : V) (m : BTreeMap K V)
      → get j (insert k v m) ≡ (if eqb j k then some v else get j m)
  unfolding get insert
  get-insert k j v [] = refl
  get-insert k j v ((i, w) ∷ m) =
      ground (arith, o.cmp_eq k i, o.cmp_eq j k, o.cmp_eq j i, get-insert k j v m)

  pub get-insert_self : (k : K) (v : V) (m : BTreeMap K V) → get k (insert k v m) ≡ some v
  get-insert_self k v m = rw (get-insert k k v m) (rw (eqb_self k))

  pub get-remove :
      (k j : K) (m : BTreeMap K V) → get j (remove k m) ≡ (if eqb j k then none else get j m)
  unfolding get remove
  get-remove k j [] = ground arith
  get-remove k j ((i, w) ∷ m) =
      ground (arith, o.cmp_eq k i, o.cmp_eq j k, o.cmp_eq j i, get-remove k j m)

  -- A key that is in the map is replaced, any other is one more entry.
  pub length-insert : (k : K) (v : V) (m : BTreeMap K V) → length (insert k v m) ≤ length m + 1
  unfolding insert
  length-insert k v [] = omega arith
  length-insert k v ((j, w) ∷ m) = ground (arith, length-insert k v m)

module _ {ℓ} {K : Type ℓ} ⦃o : Ord K⦄ where
  -- `contains` of a set.
  unfoldable pub contains : K → BTreeSet K → Bool
  contains k [] = false
  contains k (j ∷ s) = eqb k j || contains k s

  unfoldable pub add : K → BTreeSet K → BTreeSet K
  add k [] = k ∷ []
  add k (j ∷ s) = elim (o.cmp k j) [
    | Ordering.lt ↦ k ∷ j ∷ s
    | Ordering.eq ↦ j ∷ s
    | Ordering.gt ↦ j ∷ add k s
  ]

  pub contains-add : (k j : K) (s : BTreeSet K) → contains j (add k s) ≡ (eqb j k || contains j s)
  unfolding contains add
  contains-add k j [] = refl
  contains-add k j (i ∷ s) =
      ground (arith, o.cmp_eq k i, o.cmp_eq j k, o.cmp_eq j i, contains-add k j s)

  -- `extend`.
  unfoldable pub extend : BTreeSet K → List K → BTreeSet K
  extend s [] = s
  extend s (k ∷ ks) = extend (add k s) ks

  pub contains-extend :
      (j : K) (s : BTreeSet K) (ks : List K)
      → contains j (extend s ks) ≡ (contains j s || contains j ks)
  unfolding contains extend
  contains-extend j s [] = ground arith
  contains-extend j s (k ∷ ks) = ground (arith, contains-extend j (add k s) ks, contains-add k j s)

  pub contains-In : (k : K) (s : List K) → contains k s ≡ true → In k s
  unfolding contains
  contains-In k [] h = cc
  contains-In k (j ∷ s) h = elim (Bool-cases (eqb k j)) [
    | inl e ↦ here (ground (arith, eqb_iff k j))
    | inr n ↦ there (contains-In k s (ground arith))
  ]

  pub In-contains : (k : K) (s : List K) → In k s → contains k s ≡ true
  unfolding contains
  In-contains k [] m = elim m [ ]
  In-contains k (j ∷ s) (here e) = ground (arith, o.cmp_eq k j)
  In-contains k (j ∷ s) (there m) = ground (arith, In-contains k s m)

-- `collect` into a set.
abbrev pub to_set {ℓ} : {K : Type ℓ} ⦃o : Ord K⦄ → List K → BTreeSet K
to_set ks = extend [] ks
