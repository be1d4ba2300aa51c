-- ===== src/Common/Sorting.antt =====
-- `sort_by` of the standard library, which is stable, by what a function reads of the items.
use Prim.Native.Nat.{◌+◌}
use mathlib.Core.Path.{◌≡◌, refl}
use mathlib.Core.Logic.{◌↔◌, ◌⊎◌, inl, inr}
use mathlib.Core.Bool.{true}
use mathlib.Core.List.{List, [], ◌∷◌}
use native.Mathlib.Omega.{arith}
use tangle.Common.Tests.{if◌then◌else◌, Bool-cases}
use tangle.Common.Lists.{length, In, here, there, In-uncons, In-cons, All}
use tangle.Common.Order.{Ord, geb, geb_total, geb_trans}

module _ {A K : Type 0} ⦃o : Ord K⦄ (key : A → K) where
  unfoldable pub sorted_insert : A → List A → List A
  sorted_insert x [] = x ∷ []
  sorted_insert x (y ∷ ys) =
      let rest = sorted_insert x ys in if geb (key y) (key x) then x ∷ y ∷ ys else y ∷ rest

  unfoldable pub sort_by : List A → List A
  unfolding sorted_insert
  sort_by [] = []
  sort_by (x ∷ xs) = sorted_insert x (sort_by xs)

  -- No item stands before one that compares less.
  abbrev pub InOrder : List A → Type 0
  InOrder [] = Unit
  InOrder (x ∷ xs) = All (λ y. geb (key y) (key x) ≡ true) xs × InOrder xs

  length-sorted_insert : (x : A) (xs : List A) → length (sorted_insert x xs) ≡ length xs + 1
  unfolding sorted_insert
  length-sorted_insert x [] = omega arith
  length-sorted_insert x (y ∷ ys) = ground (arith, length-sorted_insert x ys)

  pub length-sort_by : (xs : List A) → length (sort_by xs) ≡ length xs
  unfolding sort_by
  length-sort_by [] = refl
  length-sort_by (x ∷ xs) = omega (arith, length-sorted_insert x (sort_by xs), length-sort_by xs)

  AtLeast-trans :
      (f g : K) (xs : List A)
      → geb g f ≡ true
      → All (λ y. geb (key y) g ≡ true) xs
      → All (λ y. geb (key y) f ≡ true) xs
  AtLeast-trans f g [] h a = tt
  AtLeast-trans f g (x ∷ xs) h (b, a) = (geb_trans (key x) g f b h, AtLeast-trans f g xs h a)

  AtLeast-sorted_insert :
      (f : K) (x : A) (xs : List A)
      → geb (key x) f ≡ true
      → All (λ y. geb (key y) f ≡ true) xs
      → All (λ y. geb (key y) f ≡ true) (sorted_insert x xs)
  unfolding sorted_insert
  AtLeast-sorted_insert f x [] h a = (h, tt)
  AtLeast-sorted_insert f x (y ∷ ys) h (b, a) = elim (Bool-cases (geb (key y) (key x))) [
    | inl e ↦ rw (sorted_insert, e) (h, (b, a))
    | inr e ↦ rw (sorted_insert, e) (b, AtLeast-sorted_insert f x ys h a)
  ]

  sorted_insert-InOrder : (x : A) (xs : List A) → InOrder xs → InOrder (sorted_insert x xs)
  unfolding sorted_insert
  sorted_insert-InOrder x [] s = (tt, tt)
  sorted_insert-InOrder x (y ∷ ys) (a, s) = elim (Bool-cases (geb (key y) (key x))) [
    | inl e ↦ rw (sorted_insert, e) ((e, AtLeast-trans (key x) (key y) ys e a), (a, s))
    | inr e ↦
        let other : geb (key x) (key y) ≡ true = elim (geb_total (key x) (key y)) [
          | inl h ↦ h
          | inr h ↦ absurd (cc (h, e))
        ] in
        rw (sorted_insert, e)
          (AtLeast-sorted_insert (key y) x ys other a, sorted_insert-InOrder x ys s)
  ]

  pub sort_by-InOrder : (xs : List A) → InOrder (sort_by xs)
  unfolding sort_by
  sort_by-InOrder [] = tt
  sort_by-InOrder (x ∷ xs) = sorted_insert-InOrder x (sort_by xs) (sort_by-InOrder xs)

  pub In-sorted_insert : (a x : A) (xs : List A) → In a (sorted_insert x xs) ↔ ((x ≡ a) ⊎ In a xs)
  unfolding sorted_insert
  In-sorted_insert a x [] = (In-uncons, In-cons)
  In-sorted_insert a x (y ∷ ys) =
      let (into, from) = In-sorted_insert a x ys in
      elim (Bool-cases (geb (key y) (key x))) [
        | inl e ↦ rw (sorted_insert, e) (In-uncons, In-cons)
        | inr e ↦
            rw (sorted_insert, e)
              (
                λ m. elim (In-uncons m) [
                  | inl same ↦ inr (here same)
                  | inr later ↦ elim (into later) [ inl new ↦ inl new | inr old ↦ inr (there old) ]
                ],
                λ m. elim m [
                  | inl new ↦ there (from (inl new))
                  | inr n ↦ elim (In-uncons n) [
                    | inl same ↦ here same
                    | inr old ↦ there (from (inr old))
                  ]
                ],
              )
      ]

  pub In-sort_by : (a : A) (xs : List A) → In a (sort_by xs) ↔ In a xs
  unfolding sort_by
  In-sort_by a [] = (λ m. m, λ m. m)
  In-sort_by a (x ∷ xs) =
      let (into, from) = In-sort_by a xs in
      let (split, join) = In-sorted_insert a x (sort_by xs) in
      (
        λ m. elim (split m) [ inl same ↦ here same | inr old ↦ there (into old) ],
        λ m. elim (In-uncons m) [ inl same ↦ join (inl same) | inr old ↦ join (inr (from old)) ],
      )
