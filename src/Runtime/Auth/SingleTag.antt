-- ===== src/Runtime/Auth/SingleTag.antt =====
-- The value of a tag that must stand once.
use tangle.Common.{
  ◌≡◌, refl, ◌≢◌, ◌⊎◌, inl, inr, ◌↔◌, Option, none, some, List, [], ◌∷◌, ◌++◌, ok, Text, arith, eqb,
  eqb_iff, list_ord, nat_ord, All, >>=-eq-ok, Bool-cases,
}
use tangle.Groups.EventView.{PocketEvent}
use tangle.Runtime.Auth.{take_value, match_tag, match_tags, required_single_pocket_tag_value}

-- A tag that the search passes over: it is empty, or its name is another one.
abbrev pub IsOther : Text → List (Option Text) → Type 0
IsOther name [] = Unit
IsOther name (none ∷ rest) = ⊥
IsOther name (some tag_name ∷ rest) = tag_name ≢ name

pub record StandsOnce (name value : Text) (tags : List (List (Option Text))) : Type 0 where
  pub before : List (List (Option Text))
  pub rest : List (Option Text)
  pub after : List (List (Option Text))
  pub split : tags ≡ before ++ ((some name ∷ some value ∷ rest) ∷ after)
  pub others_before : All (IsOther name) before
  pub others_after : All (IsOther name) after

module _ (name : Text) where
  other_passes :
      (matched : Option Text) (tag : List (Option Text))
      → IsOther name tag
      → match_tag name matched tag ≡ ok matched
  unfolding match_tag
  other_passes matched [] other = refl
  other_passes matched (none ∷ rest) other = absurd other
  other_passes matched (some tag_name ∷ rest) other =
      ground (arith, eqb_iff {A = Text} tag_name name)

  others_pass :
      (matched : Option Text) (tags : List (List (Option Text)))
      → All (IsOther name) tags
      → match_tags name matched tags ≡ ok matched
  unfolding match_tags
  others_pass matched [] others = refl
  others_pass matched (tag ∷ tags) (other, others) =
      rw (other_passes matched tag other) (others_pass matched tags others)

  complete :
      (value : Text) (rest : List (Option Text)) (before after : List (List (Option Text)))
      → All (IsOther name) before
      → All (IsOther name) after
      → match_tags name none (before ++ ((some name ∷ some value ∷ rest) ∷ after)) ≡ ok (some value)
  unfolding match_tags match_tag
  complete value rest [] after b a =
      rw ((eqb_iff {A = Text} name name).1 refl) (others_pass (some value) after a)
  complete value rest (tag ∷ before) after (b, bs) a =
      rw (other_passes none tag b) (complete value rest before after bs a)

  -- Once a value was found, every further tag is another one.
  matched_passes :
      (value : Text) (tag : List (Option Text)) (m : Option Text)
      → match_tag name (some value) tag ≡ ok m
      → IsOther name tag × (m ≡ some value)
  unfolding match_tag
  matched_passes value [] m h = (tt, ground arith)
  matched_passes value (none ∷ rest) m h = absurd (ground arith)
  matched_passes value (some tag_name ∷ rest) m h =
      elim (Bool-cases (eqb {A = Text} tag_name name)) [
        | inl same ↦ absurd (ground arith)
        | inr different ↦
            (λ e. absurd (ground (arith, eqb_iff {A = Text} tag_name name)), ground arith)
      ]

  rest_passes :
      (value : Text) (tags : List (List (Option Text))) (m : Option Text)
      → match_tags name (some value) tags ≡ ok m
      → All (IsOther name) tags × (m ≡ some value)
  unfolding match_tags
  rest_passes value [] m h = (tt, ground arith)
  rest_passes value (tag ∷ tags) m h =
      let (next, first, later) = >>=-eq-ok (match_tag name (some value) tag) _ h in
      let (other, kept) = matched_passes value tag next first in
      let (others, last) = rest_passes value tags m (rw kept at later) in ((other, others), last)

  first_cases :
      (tag : List (Option Text)) (m : Option Text)
      → match_tag name none tag ≡ ok m
      → (IsOther name tag × (m ≡ none))
        ⊎ ((value : Text) × (rest : List (Option Text)) × (tag ≡ some name ∷ some value ∷ rest)
            × (m ≡ some value))
  unfolding match_tag
  first_cases [] m h = inl (tt, ground arith)
  first_cases (none ∷ rest) m h = absurd (ground arith)
  first_cases (some tag_name ∷ rest) m h = elim (Bool-cases (eqb {A = Text} tag_name name)) [
    | inr different ↦
        inl (λ e. absurd (ground (arith, eqb_iff {A = Text} tag_name name)), ground arith)
    | inl same ↦ inr (named rest ((eqb_iff {A = Text} tag_name name).0 same) (rw same at h))
  ]
    where
      named :
          (rest : List (Option Text))
          → tag_name ≡ name
          → take_value none rest ≡ ok m
          → (value : Text) × (more : List (Option Text)) × (some tag_name ∷ rest
              ≡ some name ∷ some value ∷ more)
            × (m ≡ some value)
      named [] e k = absurd (ground arith)
      named (none ∷ more) e k = absurd (ground arith)
      named (some value ∷ more) e k = (value, more, rw e refl, ground arith)

  sound :
      (value : Text) (tags : List (List (Option Text)))
      → match_tags name none tags ≡ ok (some value)
      → StandsOnce name value tags
  unfolding match_tags
  sound value [] h = absurd (ground arith)
  sound value (tag ∷ tags) h =
      let (next, first, later) = >>=-eq-ok (match_tag name none tag) _ h in
      elim (first_cases tag next first) [
        | inl (other, nothing) ↦
            let once = sound value tags (rw nothing at later) in
            record {
              before = tag ∷ once.before;
              rest = once.rest;
              after = once.after;
              split = rw once.split refl;
              others_before = (other, once.others_before);
              others_after = once.others_after;
            }
        | inr (found, rest, form, kept) ↦
            let (others, last) = rest_passes found tags (some value) (rw kept at later) in
            record {
              before = [];
              rest = rest;
              after = tags;
              split = ground arith;
              others_before = tt;
              others_after = others;
            }
      ]

  -- A value is found exactly when one tag of the event has the name, that tag has the value, and the
  -- name of every other tag can be read and is another one.
  pub required_single_pocket_tag_value_iff :
      (event : PocketEvent) (value : Text) (tags : List (List (Option Text)))
      → event.raw_tags ≡ some tags
      → (required_single_pocket_tag_value event name ≡ ok value) ↔ StandsOnce name value tags
  unfolding required_single_pocket_tag_value
  required_single_pocket_tag_value_iff event value tags e = (
    λ h. sound value tags (ground arith),
    λ o. ground (arith, complete value o.rest o.before o.after o.others_before o.others_after),
  )
