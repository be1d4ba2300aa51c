-- ===== src/Common/Effects.antt =====
-- Code that changes a state and may fail: an error keeps the changes that came before it.
use mathlib.Core.Path.{◌≡◌, refl}
use tangle.Common.Results.{Result, ok, err}

abbrev pub Effect {ℓ κ μ} : Type ℓ → Type κ → Type μ → Type (ℓ ⊔ κ ⊔ μ)
Effect S E A = S → Result E A × S

module _ {ℓ κ μ ν} {S : Type ℓ} {E : Type κ} {A : Type μ} {B : Type ν} where
  abbrev pub continue : Result E A × S → (A → Effect S E B) → Result E B × S
  continue (err e, s) next = (err e, s)
  continue (ok a, s) next = next a s

  infixl 5 ◌>>=◌
  abbrev pub ◌>>=◌ : Effect S E A → (A → Effect S E B) → Effect S E B
  ◌>>=◌ m next s = continue (m s) next

module _ {ℓ κ μ} {S : Type ℓ} {E : Type κ} {B : Type μ} where
  infixl 5 ◌>>◌
  abbrev pub ◌>>◌ : Effect S E (Unit {0}) → Effect S E B → Effect S E B
  ◌>>◌ m after = m >>= λ done. after

module _ {ℓ κ μ} {S : Type ℓ} {E : Type κ} {A : Type μ} where
  abbrev pub pure : A → Effect S E A
  pure a s = (ok a, s)

  abbrev pub fail : E → Effect S E A
  fail e s = (err e, s)

  -- A computation that reads and changes nothing.
  abbrev pub lift : Result E A → Effect S E A
  lift r s = (r, s)

module _ {ℓ κ μ} {S : Type ℓ} {E : Type κ} {A : Type μ} where
  -- Whatever the outcome, the state after is related to the state before.
  abbrev pub Moves {ν} : (S → S → Type ν) → Effect S E A → Type (ℓ ⊔ ν)
  Moves R m = (s : S) → R s (m s).1

module _ {ℓ κ μ ν ρ} {S : Type ℓ} {E : Type κ} {A : Type μ} {B : Type ν} (R : S → S → Type ρ)
    (trans : (s t u : S) → R s t → R t u → R s u) where
  continue-Moves :
      (result : Result E A) (s t : S) (next : A → Effect S E B)
      → R s t
      → ((a : A) → Moves R (next a))
      → R s (continue (result, t) next).1
  continue-Moves (err e) s t next r rest = r
  continue-Moves (ok a) s t next r rest = trans s t (next a t).1 r (rest a t)

  pub >>=-Moves :
      (m : Effect S E A) (next : A → Effect S E B)
      → Moves R m
      → ((a : A) → Moves R (next a))
      → Moves R (m >>= next)
  >>=-Moves m next first rest s = continue-Moves (m s).0 s (m s).1 next (first s) rest

module _ {ℓ κ μ ν} {S : Type ℓ} {E : Type κ} {A : Type μ} {B : Type ν} where
  continue-ok :
      (result : Result E A) (s u : S) (next : A → Effect S E B) (b : B)
      → continue (result, s) next ≡ (ok b, u)
      → (a : A) × (result ≡ ok a) × (next a s ≡ (ok b, u))
  continue-ok (err e) s u next b h = absurd (cc (h))
  continue-ok (ok a) s u next b h = (a, refl, h)

  -- Inversion of a chain that succeeds.
  pub >>=-ok :
      (m : Effect S E A) (next : A → Effect S E B) (s u : S) (b : B)
      → (m >>= next) s ≡ (ok b, u)
      → (a : A) × ((m s).0 ≡ ok a) × (next a (m s).1 ≡ (ok b, u))
  >>=-ok m next s u b h = continue-ok (m s).0 (m s).1 u next b h
