-- ===== src/Groups/Ids/Valid.antt =====
-- Which texts are group ids.
use tangle.Common.{
  ℕ, ◌≤◌, ◌≡◌, refl, inl, inr, ◌↔◌, true, false, [], ◌∷◌, ok, Text, arith, All, byte_len,
  is_control, is_trimmed, Bool-cases,
}
use tangle.Groups.Ids.{
  GroupId, is_separator, check_characters, validate_group_id, new_group_id_with_max_bytes,
}

abbrev pub IsPlain : ℕ → Type 0
IsPlain c = (is_control c ≡ false) × (is_separator c ≡ false)

pub record IsGroupId (max_bytes : ℕ) (value : Text) : Type 0 where
  pub not_empty : 1 ≤ byte_len value
  pub not_long : byte_len value ≤ max_bytes
  pub trimmed : is_trimmed value ≡ true
  pub plain : All IsPlain value

characters_sound : (value : Text) → check_characters value ≡ ok tt → All IsPlain value
unfolding check_characters
characters_sound [] h = tt
characters_sound (c ∷ s) h = elim (Bool-cases (is_control c)) [
  | inl e ↦ absurd (ground arith)
  | inr e ↦ elim (Bool-cases (is_separator c)) [
    | inl e' ↦ absurd (ground arith)
    | inr e' ↦ ((e, e'), characters_sound s (ground arith))
  ]
]

characters_complete : (value : Text) → All IsPlain value → check_characters value ≡ ok tt
unfolding check_characters
characters_complete [] p = refl
characters_complete (c ∷ s) ((control, separator), p) = ground (arith, characters_complete s p)

-- A text becomes a group id exactly when its bytes are within the bounds, no whitespace stands around
-- it, and it has neither control characters, NUL among them, nor separators; the id is the text.
pub new_group_id_with_max_bytes_iff :
    (value : Text) (max_bytes : ℕ) (id : GroupId)
    → (new_group_id_with_max_bytes value max_bytes ≡ ok id)
      ↔ ((id ≡ value) × IsGroupId max_bytes value)
unfolding new_group_id_with_max_bytes validate_group_id
new_group_id_with_max_bytes_iff value max_bytes id = (
  λ h. (
    ground arith,
    record {
      not_empty = ground arith;
      not_long = ground arith;
      trimmed = ground arith;
      plain = characters_sound value (ground arith);
    },
  ),
  λ (e, i). ground (arith, characters_complete value i.plain),
)
