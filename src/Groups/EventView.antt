-- ===== src/Groups/EventView.antt =====
-- crates/tangle_groups/src/event_view.rs. `PocketEvent` is of a library: here it is what the trait
-- `GroupEventView` reads of it. Its tag section may be malformed (`none`), and a value of a tag may
-- not be UTF-8 (`none`).
use tangle.Common.{
  ℕ, Bool, false, Option, none, some, List, [], ◌∷◌, Result, ok, err, ◌>>=◌, Text, get_elem?,
  if◌then◌else◌,
}
use tangle.Protocol.{
  EventId, PublicKeyHex, Kind, UnixTimestamp, is_ascii_alphabetic, new_event_id, new_public_key,
  new_kind,
}
use tangle.Groups.Errors.{GroupError, invalid, internal, map_err, malformed_group_tag}

abbrev pub GroupEventTag : Type 0
GroupEventTag = List Text

pub record PocketEvent : Type 0 where
  pub id_hex : Text
  pub pubkey_hex : Text
  pub kind_u32 : ℕ
  pub created_at : UnixTimestamp
  pub raw_tags : Option (List (List (Option Text)))

unfoldable pub event_id : PocketEvent → Result GroupError EventId
event_id event = map_err internal (new_event_id event.id_hex)

unfoldable pub event_pubkey : PocketEvent → Result GroupError PublicKeyHex
event_pubkey event = map_err internal (new_public_key event.pubkey_hex)

unfoldable pub event_kind : PocketEvent → Result GroupError Kind
event_kind event = map_err internal (new_kind event.kind_u32)

abbrev pub first_value : GroupEventTag → Option Text
first_value tag = get_elem? tag 0

abbrev pub tag_value : GroupEventTag → ℕ → Option Text
tag_value tag index = get_elem? tag index

unfoldable pub is_indexable_tag_name : Text → Bool
is_indexable_tag_name [] = false
is_indexable_tag_name (byte ∷ []) = is_ascii_alphabetic byte
is_indexable_tag_name (byte ∷ next ∷ rest) = false

unfoldable pub indexed_pair : GroupEventTag → Option (Text × Text)
unfolding is_indexable_tag_name
indexed_pair [] = none
indexed_pair (name ∷ []) = none
indexed_pair (name ∷ value ∷ rest) = if is_indexable_tag_name name then some (name, value) else none

-- Stops at the first value that is not UTF-8.
unfoldable pub from_pocket : List (Option Text) → Result GroupError GroupEventTag
from_pocket [] = ok []
from_pocket (none ∷ values) = err (invalid malformed_group_tag)
from_pocket (some value ∷ values) = do rest ← from_pocket values; ok (value ∷ rest)

-- The visitor is a closure over mutable variables: it takes their state and returns the next one.
unfoldable pub visit {ℓ} :
    {S : Type ℓ}
    → (S → GroupEventTag → Result GroupError S)
    → S
    → List (List (Option Text))
    → Result GroupError S
visit visitor state [] = ok state
visit visitor state (raw ∷ tags) = do
  tag ← from_pocket raw
  next ← visitor state tag
  visit visitor next tags

unfoldable pub visit_tags {ℓ} :
    {S : Type ℓ} → PocketEvent → S → (S → GroupEventTag → Result GroupError S) → Result GroupError S
unfolding visit from_pocket
visit_tags event state visitor = elim event.raw_tags [
  | none ↦ err (invalid malformed_group_tag)
  | some tags ↦ visit visitor state tags
]
