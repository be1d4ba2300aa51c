-- ===== src/Common/Order.antt =====
-- `Ord` of the standard library with the laws that it documents, and the derived lexicographic
-- orders of numbers, pairs, options and lists.
use Prim.Native.Nat.{ℕ, compare, Ordering}
use mathlib.Core.Path.{◌≡◌, refl, ap}
use mathlib.Core.Logic.{◌↔◌, ◌⊎◌}
use mathlib.Core.Bool.{Bool, true, false}
use mathlib.Core.Option.{Option, none, some}
use mathlib.Core.List.{List, [], ◌∷◌}
use native.Mathlib.Omega.{arith}

-- `Ordering::reverse`.
abbrev pub opposite : Ordering → Ordering
opposite Ordering.lt = Ordering.gt
opposite Ordering.eq = Ordering.eq
opposite Ordering.gt = Ordering.lt

-- `Ordering::then_with`.
abbrev pub then_with : Ordering → Ordering → Ordering
then_with Ordering.lt o = Ordering.lt
then_with Ordering.eq o = o
then_with Ordering.gt o = Ordering.gt

pub record Ord {ℓ} (A : Type ℓ) : Type ℓ where
  pub cmp : A → A → Ordering
  pub cmp_eq : (a b : A) → (cmp a b ≡ Ordering.eq) ↔ (a ≡ b)
  pub cmp_swap : (a b : A) → cmp b a ≡ opposite (cmp a b)
  pub cmp_trans :
      (a b c : A) → cmp a b ≡ Ordering.lt → cmp b c ≡ Ordering.lt → cmp a c ≡ Ordering.lt

module _ {ℓ} {A : Type ℓ} ⦃o : Ord A⦄ where
  -- `==`, `>=` and `<=`.
  abbrev pub eqb : A → A → Bool
  eqb a b = elim (o.cmp a b) [ Ordering.eq ↦ true | _ ↦ false ]

  abbrev pub geb : A → A → Bool
  geb a b = elim (o.cmp a b) [ Ordering.lt ↦ false | _ ↦ true ]

  pub eqb_iff : (a b : A) → (eqb a b ≡ true) ↔ (a ≡ b)
  eqb_iff a b = (λ h. (o.cmp_eq a b).0 (ground arith), λ h. rw (eqb, (o.cmp_eq a b).1 h))

  pub eqb_self : (a : A) → eqb a a ≡ true
  eqb_self a = (eqb_iff a a).1 refl

  pub geb_total : (a b : A) → (geb a b ≡ true) ⊎ (geb b a ≡ true)
  geb_total a b = ground (arith, o.cmp_swap a b)

  pub geb_self : (a : A) → geb a a ≡ true
  geb_self a = rw (geb, (o.cmp_eq a a).1 refl)

  pub geb_antisymm : (a b : A) → geb a b ≡ true → geb b a ≡ true → a ≡ b
  geb_antisymm a b h k = (o.cmp_eq a b).0 (ground (arith, o.cmp_swap a b))

  pub geb_trans : (a b c : A) → geb a b ≡ true → geb b c ≡ true → geb a c ≡ true
  geb_trans a b c h k = ground (
    arith,
    o.cmp_swap a b,
    o.cmp_swap b c,
    o.cmp_swap a c,
    o.cmp_eq a b,
    o.cmp_eq b c,
    o.cmp_eq a c,
    o.cmp_trans c b a,
    o.cmp_trans b a c,
    o.cmp_trans a c b,
    o.cmp_trans a b c,
  )

-- A type that is read by an injective function into an ordered type is ordered by it.
abbrev pub Ord_by {ℓ κ} :
    {A : Type ℓ} {B : Type κ} (o : Ord B) (f : A → B) → ((a b : A) → f a ≡ f b → a ≡ b) → Ord A
Ord_by o f inj = record {
  cmp = λ a b. o.cmp (f a) (f b);
  cmp_eq =
      λ a b. (λ h. inj a b ((o.cmp_eq (f a) (f b)).0 h), λ e. (o.cmp_eq (f a) (f b)).1 (ap f e));
  cmp_swap = λ a b. o.cmp_swap (f a) (f b);
  cmp_trans = λ a b c. o.cmp_trans (f a) (f b) (f c);
}

pub nat_cmp_eq : (a b : ℕ) → (compare a b ≡ Ordering.eq) ↔ (a ≡ b)
nat_cmp_eq a b = ground arith

pub nat_cmp_swap : (a b : ℕ) → compare b a ≡ opposite (compare a b)
nat_cmp_swap a b = ground arith

pub nat_cmp_trans :
    (a b c : ℕ) → compare a b ≡ Ordering.lt → compare b c ≡ Ordering.lt → compare a c ≡ Ordering.lt
nat_cmp_trans a b c h k = ground arith

instance abbrev pub nat_ord : Ord ℕ
nat_ord = record {
  cmp = compare;
  cmp_eq = nat_cmp_eq;
  cmp_swap = nat_cmp_swap;
  cmp_trans = nat_cmp_trans;
}

module _ {ℓ κ} {A : Type ℓ} {B : Type κ} ⦃o : Ord A⦄ ⦃p : Ord B⦄ where
  abbrev pair_cmp : A × B → A × B → Ordering
  pair_cmp (a, b) (c, d) = then_with (o.cmp a c) (p.cmp b d)

  pub pair_cmp_eq : (x y : A × B) → (pair_cmp x y ≡ Ordering.eq) ↔ (x ≡ y)
  pair_cmp_eq (a, b) (c, d) = ground (arith, o.cmp_eq a c, p.cmp_eq b d)

  pub pair_cmp_swap : (x y : A × B) → pair_cmp y x ≡ opposite (pair_cmp x y)
  pair_cmp_swap (a, b) (c, d) = ground (arith, o.cmp_swap a c, p.cmp_swap b d)

  pub pair_cmp_trans :
      (x y z : A × B)
      → pair_cmp x y ≡ Ordering.lt
      → pair_cmp y z ≡ Ordering.lt
      → pair_cmp x z ≡ Ordering.lt
  pair_cmp_trans (a, b) (c, d) (e, f) h k =
      ground (arith, o.cmp_eq a c, o.cmp_eq c e, o.cmp_trans a c e, p.cmp_trans b d f)

  instance abbrev pub pair_ord : Ord (A × B)
  pair_ord = record {
    cmp = pair_cmp;
    cmp_eq = pair_cmp_eq;
    cmp_swap = pair_cmp_swap;
    cmp_trans = pair_cmp_trans;
  }

module _ {ℓ} {A : Type ℓ} ⦃o : Ord A⦄ where
  -- `None` is below every `Some`.
  abbrev option_cmp : Option A → Option A → Ordering
  option_cmp none none = Ordering.eq
  option_cmp none (some b) = Ordering.lt
  option_cmp (some a) none = Ordering.gt
  option_cmp (some a) (some b) = o.cmp a b

  pub option_cmp_eq : (x y : Option A) → (option_cmp x y ≡ Ordering.eq) ↔ (x ≡ y)
  option_cmp_eq none y = ground arith
  option_cmp_eq (some a) none = ground arith
  option_cmp_eq (some a) (some b) = ground (arith, o.cmp_eq a b)

  pub option_cmp_swap : (x y : Option A) → option_cmp y x ≡ opposite (option_cmp x y)
  option_cmp_swap none y = ground arith
  option_cmp_swap (some a) none = refl
  option_cmp_swap (some a) (some b) = o.cmp_swap a b

  pub option_cmp_trans :
      (x y z : Option A)
      → option_cmp x y ≡ Ordering.lt
      → option_cmp y z ≡ Ordering.lt
      → option_cmp x z ≡ Ordering.lt
  option_cmp_trans none y z h k = ground arith
  option_cmp_trans (some a) none z h k = cc
  option_cmp_trans (some a) (some b) none h k = cc
  option_cmp_trans (some a) (some b) (some c) h k = o.cmp_trans a b c h k

  instance abbrev pub option_ord : Ord (Option A)
  option_ord = record {
    cmp = option_cmp;
    cmp_eq = option_cmp_eq;
    cmp_swap = option_cmp_swap;
    cmp_trans = option_cmp_trans;
  }

  -- The lexicographic order; a prefix is below what it begins.
  abbrev list_cmp : List A → List A → Ordering
  list_cmp [] [] = Ordering.eq
  list_cmp [] (y ∷ ys) = Ordering.lt
  list_cmp (x ∷ xs) [] = Ordering.gt
  list_cmp (x ∷ xs) (y ∷ ys) = then_with (o.cmp x y) (list_cmp xs ys)

  pub list_cmp_eq : (xs ys : List A) → (list_cmp xs ys ≡ Ordering.eq) ↔ (xs ≡ ys)
  list_cmp_eq [] [] = ground arith
  list_cmp_eq [] (y ∷ ys) = ground arith
  list_cmp_eq (x ∷ xs) [] = ground arith
  list_cmp_eq (x ∷ xs) (y ∷ ys) = ground (arith, o.cmp_eq x y, list_cmp_eq xs ys)

  pub list_cmp_swap : (xs ys : List A) → list_cmp ys xs ≡ opposite (list_cmp xs ys)
  list_cmp_swap [] [] = refl
  list_cmp_swap [] (y ∷ ys) = refl
  list_cmp_swap (x ∷ xs) [] = refl
  list_cmp_swap (x ∷ xs) (y ∷ ys) = ground (arith, o.cmp_swap x y, list_cmp_swap xs ys)

  pub list_cmp_trans :
      (xs ys zs : List A)
      → list_cmp xs ys ≡ Ordering.lt
      → list_cmp ys zs ≡ Ordering.lt
      → list_cmp xs zs ≡ Ordering.lt
  list_cmp_trans [] [] zs h k = cc
  list_cmp_trans [] (y ∷ ys) [] h k = cc
  list_cmp_trans [] (y ∷ ys) (z ∷ zs) h k = refl
  list_cmp_trans (x ∷ xs) [] zs h k = cc
  list_cmp_trans (x ∷ xs) (y ∷ ys) [] h k = cc
  list_cmp_trans (x ∷ xs) (y ∷ ys) (z ∷ zs) h k =
      ground (arith, o.cmp_eq x y, o.cmp_eq y z, o.cmp_trans x y z, list_cmp_trans xs ys zs)

  instance abbrev pub list_ord : Ord (List A)
  list_ord = record {
    cmp = list_cmp;
    cmp_eq = list_cmp_eq;
    cmp_swap = list_cmp_swap;
    cmp_trans = list_cmp_trans;
  }

-- `Reverse`: the larger number comes first.
pub record Reverse : Type 0 where
  pub value : ℕ

abbrev reverse_cmp : Reverse → Reverse → Ordering
reverse_cmp a b = compare b.value a.value

pub reverse_cmp_eq : (a b : Reverse) → (reverse_cmp a b ≡ Ordering.eq) ↔ (a ≡ b)
reverse_cmp_eq a b = ground arith

pub reverse_cmp_swap : (a b : Reverse) → reverse_cmp b a ≡ opposite (reverse_cmp a b)
reverse_cmp_swap a b = ground arith

pub reverse_cmp_trans :
    (a b c : Reverse)
    → reverse_cmp a b ≡ Ordering.lt
    → reverse_cmp b c ≡ Ordering.lt
    → reverse_cmp a c ≡ Ordering.lt
reverse_cmp_trans a b c h k = ground arith

instance abbrev pub reverse_ord : Ord Reverse
reverse_ord = record {
  cmp = reverse_cmp;
  cmp_eq = reverse_cmp_eq;
  cmp_swap = reverse_cmp_swap;
  cmp_trans = reverse_cmp_trans;
}
