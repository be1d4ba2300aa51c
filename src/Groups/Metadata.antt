-- ===== src/Groups/Metadata.antt =====
-- crates/tangle_groups/src/metadata.rs
use tangle.Common.{
  ℕ, ◌+◌, ◌*◌, ◌-◌, Bool, true, false, ◌&&◌, Option, none, some, is_some, List, [], ◌∷◌, Result, ok,
  err, ◌>>=◌, ok_or, Text, codes, byte_len, length, eqb, list_ord, nat_ord, ltb, leb, ◌==◌,
  if◌then◌else◌, BTreeSet, add,
}
use tangle.Protocol.{Kind, new_kind, u64_max}
use tangle.Groups.Errors.{
  GroupError, invalid, map_err, metadata_too_large, too_many_supported_kinds,
  unsupported_group_kind,
}
use tangle.Groups.Config.{GroupLimitsConfig}
use tangle.Groups.EventView.{PocketEvent, GroupEventTag, first_value, tag_value, visit_tags}

abbrev pub max_metadata_name_bytes : ℕ
max_metadata_name_bytes = 128

abbrev pub max_metadata_picture_bytes : ℕ
max_metadata_picture_bytes = 2048

abbrev pub max_metadata_about_bytes : ℕ
max_metadata_about_bytes = 4096

pub data SupportedKinds : Type 0 where
  unspecified_all : SupportedKinds
  no_kinds : SupportedKinds
  only : BTreeSet Kind → SupportedKinds

pub record GroupMetadata : Type 0 where
  pub name : Option Text
  pub picture : Option Text
  pub about : Option Text
  pub private : Bool
  pub restricted : Bool
  pub hidden : Bool
  pub closed : Bool
  pub supported_kinds : SupportedKinds

pub record MetadataBuilder : Type 0 where
  pub name : Option Text
  pub picture : Option Text
  pub about : Option Text
  pub private : Bool
  pub restricted : Bool
  pub hidden : Bool
  pub closed : Bool
  pub supported_kinds : Option SupportedKinds

abbrev pub default_builder : MetadataBuilder
default_builder = record {
  name = none;
  picture = none;
  about = none;
  private = false;
  restricted = false;
  hidden = false;
  closed = false;
  supported_kinds = none;
}

abbrev pub is_too_long : ℕ → Option Text → Bool
is_too_long max_bytes none = false
is_too_long max_bytes (some value) = ltb max_bytes (byte_len value)

unfoldable pub parse_text_tag : GroupEventTag → ℕ → Result GroupError (Option Text)
parse_text_tag tag max_bytes =
    if is_too_long max_bytes (tag_value tag 1)
    then err (invalid metadata_too_large)
    else ok (tag_value tag 1)

-- `str::parse::<u64>`: an optional plus, and at least one decimal digit.
unfoldable pub parse_digits : ℕ → Text → Option ℕ
parse_digits value [] = some value
parse_digits value (c ∷ s) =
    let rest = parse_digits (value * 10 + (c - b'0')) s in
    if leb b'0' c && leb c b'9' then rest else none

abbrev drop_plus : Text → Text
drop_plus [] = []
drop_plus (c ∷ s) = if c == b'+' then s else c ∷ s

abbrev in_u64 : Option ℕ → Option ℕ
in_u64 none = none
in_u64 (some n) = if leb n u64_max then some n else none

unfoldable pub parse_u64 : Text → Option ℕ
unfolding parse_digits
parse_u64 value =
    if length (drop_plus value) == 0 then none else in_u64 (parse_digits 0 (drop_plus value))

-- The loop over the values of the tag.
unfoldable pub parse_kinds : BTreeSet Kind → List Text → Result GroupError (BTreeSet Kind)
parse_kinds kinds [] = ok kinds
parse_kinds kinds (value ∷ values) = do
  raw ← ok_or (parse_u64 value) (invalid unsupported_group_kind)
  kind ← map_err (invalid unsupported_group_kind) (new_kind raw)
  parse_kinds (add kind kinds) values

abbrev pub skip_name : GroupEventTag → List Text
skip_name [] = []
skip_name (name ∷ values) = values

unfoldable pub parse_supported_kinds_tag :
    GroupEventTag → GroupLimitsConfig → Result GroupError SupportedKinds
unfolding parse_kinds
parse_supported_kinds_tag tag limits =
    if length (skip_name tag) == 0
    then ok no_kinds
    else if ltb limits.max_supported_kinds (length (skip_name tag))
    then err (invalid too_many_supported_kinds)
    else (do kinds ← parse_kinds [] (skip_name tag); ok (only kinds))

-- The match on the tag's name.
unfoldable pub metadata_field :
    GroupLimitsConfig → MetadataBuilder → GroupEventTag → Text → Result GroupError MetadataBuilder
metadata_field limits builder tag name =
    if eqb name (codes "name")
    then (do
      value ← parse_text_tag tag max_metadata_name_bytes
      ok (record builder { name = value }))
    else if eqb name (codes "picture")
    then (do
      value ← parse_text_tag tag max_metadata_picture_bytes
      ok (record builder { picture = value }))
    else if eqb name (codes "about")
    then (do
      value ← parse_text_tag tag max_metadata_about_bytes
      ok (record builder { about = value }))
    else if eqb name (codes "private")
    then ok (record builder { private = true })
    else if eqb name (codes "restricted")
    then ok (record builder { restricted = true })
    else if eqb name (codes "hidden")
    then ok (record builder { hidden = true })
    else if eqb name (codes "closed")
    then ok (record builder { closed = true })
    else if eqb name (codes "supported_kinds")
    then (if is_some builder.supported_kinds then err (invalid too_many_supported_kinds) else (do
      kinds ← parse_supported_kinds_tag tag limits
      ok (record builder { supported_kinds = some kinds })))
    else ok builder

unfoldable pub metadata_visitor :
    GroupLimitsConfig → MetadataBuilder → GroupEventTag → Result GroupError MetadataBuilder
unfolding metadata_field
metadata_visitor limits builder tag = elim (first_value tag) [
  | none ↦ ok builder
  | some name ↦ metadata_field limits builder tag name
]

abbrev kinds_or_all : Option SupportedKinds → SupportedKinds
kinds_or_all none = unspecified_all
kinds_or_all (some kinds) = kinds

abbrev pub built : MetadataBuilder → GroupMetadata
built builder = record {
  name = builder.name;
  picture = builder.picture;
  about = builder.about;
  private = builder.private;
  restricted = builder.restricted;
  hidden = builder.hidden;
  closed = builder.closed;
  supported_kinds = kinds_or_all builder.supported_kinds;
}

unfoldable pub parse_group_metadata :
    PocketEvent → GroupLimitsConfig → Result GroupError GroupMetadata
unfolding metadata_visitor
parse_group_metadata event limits = do
  builder ← visit_tags event default_builder (metadata_visitor limits)
  ok (built builder)
