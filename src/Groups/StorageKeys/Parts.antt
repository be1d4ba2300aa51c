-- ===== src/Groups/StorageKeys/Parts.antt =====
-- Keys that are split at their separators.
use tangle.Common.{
  ℕ, zero, suc, ◌∙◌, ◌≡◌, ◌≢◌, refl, ap, sym, Option, none, some, List, [], ◌∷◌, ◌++◌, Text, All,
  arith, ok,
}
use mathlib.Core.List.{append-nil}
use tangle.Protocol.{PublicKeyHex}
use tangle.Groups.Outbox.{
  GroupOutboxKey, GroupOutboxEffect, effect_str, effect_from_label, metadata_snapshot,
  admin_list_snapshot, member_list_snapshot, role_list_snapshot, state_39004_snapshot,
  join_accepted, leave_accepted,
}
use tangle.Groups.Outbox.Documents.{effect_from_label-effect_str}
use tangle.Groups.StorageKeys.{
  prefixed_key, storage_key, push_first, projection_key_parts, pubkey_or_nothing,
}

-- No separator stands in the text.
abbrev pub IsPart : Text → Type 0
IsPart s = All (λ c. c ≢ 0) s

parts_of_part : (s : Text) → IsPart s → projection_key_parts s ≡ s ∷ []
unfolding projection_key_parts push_first
parts_of_part [] p = refl
parts_of_part (c ∷ s) (n, p) = ground (arith, parts_of_part s p)

parts-append :
    (s rest : Text)
    → IsPart s
    → projection_key_parts (s ++ 0 ∷ rest) ≡ s ∷ projection_key_parts rest
unfolding projection_key_parts push_first
parts-append [] rest p = refl
parts-append (c ∷ s) rest (n, p) = ground (arith, parts-append s rest p)

abbrev pub given : Option Text → List Text
given none = []
given (some second) = second ∷ []

abbrev pub IsOptionalPart : Option Text → Type 0
IsOptionalPart none = Unit
IsOptionalPart (some second) = IsPart second

-- A key of the projection table is split into the parts that it was made of, when none of them
-- holds the separator.
pub projection_key_parts-prefixed_key :
    (prefix first : Text) (second : Option Text)
    → IsPart prefix
    → IsPart first
    → IsOptionalPart second
    → projection_key_parts (prefixed_key prefix first second) ≡ prefix ∷ first ∷ given second
unfolding prefixed_key
projection_key_parts-prefixed_key prefix first none p q r =
    rw (parts-append prefix (first ++ []) p)
      (rw (append-nil first) (rw (parts_of_part first q) refl))
projection_key_parts-prefixed_key prefix first (some second) p q r =
    rw (parts-append prefix (first ++ 0 ∷ second) p)
      (rw (parts-append first second q) (rw (parts_of_part second r) refl))

pub record IsKey (k : GroupOutboxKey) : Type 0 where
  pub source : IsPart k.source_event_id
  pub group : IsPart k.group_id
  pub target : IsPart (pubkey_or_nothing k.target_pubkey)
  pub target_named : k.target_pubkey ≢ some []

effect_str-IsPart : (e : GroupOutboxEffect) → IsPart (effect_str e)
effect_str-IsPart metadata_snapshot = ground arith
effect_str-IsPart admin_list_snapshot = ground arith
effect_str-IsPart member_list_snapshot = ground arith
effect_str-IsPart role_list_snapshot = ground arith
effect_str-IsPart state_39004_snapshot = ground arith
effect_str-IsPart join_accepted = ground arith
effect_str-IsPart leave_accepted = ground arith

projection_key_parts-storage_key :
    (k : GroupOutboxKey)
    → IsKey k
    → projection_key_parts (storage_key k)
      ≡ k.source_event_id
        ∷ effect_str k.effect
        ∷ k.group_id
        ∷ pubkey_or_nothing k.target_pubkey
        ∷ []
unfolding storage_key
projection_key_parts-storage_key k v = rw (parts-append k.source_event_id _ v.source) (
    rw (parts-append (effect_str k.effect) _ (effect_str-IsPart k.effect)) (
      rw (parts-append k.group_id _ v.group)
        (rw (parts_of_part (pubkey_or_nothing k.target_pubkey) v.target) refl)))

effect_str-injective : (e f : GroupOutboxEffect) → effect_str e ≡ effect_str f → e ≡ f
effect_str-injective e f h =
    let same : ok e ≡ effect_from_label (effect_str f) =
      rw (← h) (sym (effect_from_label-effect_str e)) in
    ground (arith, same, effect_from_label-effect_str f)

pubkey_or_nothing-injective :
    (a b : Option PublicKeyHex)
    → a ≢ some []
    → b ≢ some []
    → pubkey_or_nothing a ≡ pubkey_or_nothing b
    → a ≡ b
pubkey_or_nothing-injective none none p q h = refl
pubkey_or_nothing-injective none (some b) p q h = absurd (q (ap some (sym h)))
pubkey_or_nothing-injective (some a) none p q h = absurd (p (ap some h))
pubkey_or_nothing-injective (some a) (some b) p q h = ap some h

abbrev nth_part : ℕ → List Text → Text
nth_part i [] = []
nth_part zero (part ∷ parts) = part
nth_part (suc i) (part ∷ parts) = nth_part i parts

-- Two records of the outbox are stored under the same key of the table only if their keys are the
-- same, when no id holds the separator and a target that is given is not empty.
pub storage_key-injective :
    (a b : GroupOutboxKey) → IsKey a → IsKey b → storage_key a ≡ storage_key b → a ≡ b
storage_key-injective a b v w h =
    let parts =
      sym (projection_key_parts-storage_key a v)
      ∙ ap projection_key_parts h
      ∙ projection_key_parts-storage_key b w in
    let effects = effect_str-injective a.effect b.effect (ap (nth_part 1) parts) in
    let targets =
      pubkey_or_nothing-injective a.target_pubkey b.target_pubkey v.target_named w.target_named
        (ap (nth_part 3) parts) in
    λ i. record {
      source_event_id = ap (nth_part 0) parts i;
      effect = effects i;
      group_id = ap (nth_part 2) parts i;
      target_pubkey = targets i;
    }
