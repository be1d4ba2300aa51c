-- ===== src/Groups/Signing/Printed.antt =====
-- Numbers printed by `to_string` (signing.rs) and read by `parse` (metadata.rs).
use tangle.Common.{
  ℕ, zero, suc, ◌+◌, ◌*◌, ◌-◌, ◌<◌, ◌≤◌, ◌≡◌, refl, inl, inr, ◌&&◌, Option, none, some, [], ◌∷◌,
  ◌++◌, leb, ltb, if◌then◌else◌, Bool-cases, arith, Text,
}
use Prim.Native.Nat.{◌/◌, ◌%◌}
use tangle.Protocol.{u64_max}
use tangle.Groups.Metadata.{parse_digits, parse_u64}
use tangle.Groups.Signing.{digits, decimal}

abbrev one_more : ℕ → Option ℕ → Option ℕ
one_more c none = none
one_more c (some value) = if leb b'0' c && leb c b'9' then some (value * 10 + (c - b'0')) else none

parse_digits-append :
    (value c : ℕ) (s : Text) → parse_digits value (s ++ c ∷ []) ≡ one_more c (parse_digits value s)
unfolding parse_digits
parse_digits-append value c [] = ground arith
parse_digits-append value c (d ∷ s) =
    ground (arith, parse_digits-append (value * 10 + (d - b'0')) c s)

parse_digits-digits : (fuel n : ℕ) → n < fuel → parse_digits 0 (digits fuel n) ≡ some n
unfolding parse_digits digits
parse_digits-digits zero n h = absurd (omega arith)
parse_digits-digits (suc fuel) n h = elim (Bool-cases (ltb n 10)) [
  | inl small ↦ ground arith
  | inr large ↦
      rw (digits, large)
        (ground (
          arith,
          parse_digits-append 0 (b'0' + n % 10) (digits fuel (n / 10)),
          parse_digits-digits fuel (n / 10) (ground arith),
        ))
]

digits-starts :
    (fuel n : ℕ) → n < fuel → (c : ℕ) × (s : Text) × (digits fuel n ≡ c ∷ s) × (b'0' ≤ c)
unfolding digits
digits-starts zero n h = absurd (omega arith)
digits-starts (suc fuel) n h = elim (Bool-cases (ltb n 10)) [
  | inl small ↦ (b'0' + n, [], rw (digits, small) refl, omega arith)
  | inr large ↦
      let (c, s, e, low) = digits-starts fuel (n / 10) (ground arith) in
      (c, s ++ (b'0' + n % 10) ∷ [], rw (digits, large, e) refl, low)
]

parse_u64_digits :
    (c n : ℕ) (s : Text)
    → b'0' ≤ c
    → n ≤ u64_max
    → parse_digits 0 (c ∷ s) ≡ some n
    → parse_u64 (c ∷ s) ≡ some n
unfolding parse_u64
parse_u64_digits c n s low bound h = ground arith

-- A number that is printed is read back.
pub parse_u64-decimal : (n : ℕ) → n ≤ u64_max → parse_u64 (decimal n) ≡ some n
parse_u64-decimal n bound =
    let (c, s, e, low) = digits-starts (n + 1) n (omega arith) in
    let read : parse_digits 0 (decimal n) ≡ some n = parse_digits-digits (n + 1) n (omega arith) in
    rw e (parse_u64_digits c n s low bound (rw e at read))
