-- ===== src/Groups/Signing/Snapshot.antt =====
-- The tags of a metadata snapshot (signing.rs), read by the parser of metadata (metadata.rs).
use tangle.Common.{
  ◌≤◌, ◌<◌, ◌≡◌, sym, subst, ◌∙◌, refl, Bool, true, false, Option, none, some, List, [], ◌∷◌, ◌++◌,
  map, Result, ok, Text, codes, length, ltb, leb, All, BTreeSet, add, arith, nat_ord, list_ord,
  >>=-eq-ok,
}
use tangle.Protocol.{Kind, new_kind, u32_max}
use tangle.Groups.Errors.{GroupError}
use tangle.Groups.Config.{GroupLimitsConfig}
use tangle.Groups.EventView.{PocketEvent, visit, visit_tags, from_pocket}
use tangle.Groups.Ids.{GroupId}
use tangle.Groups.Metadata.{
  max_metadata_name_bytes, max_metadata_picture_bytes, max_metadata_about_bytes, SupportedKinds,
  unspecified_all, no_kinds, only, GroupMetadata, MetadataBuilder, default_builder, is_too_long,
  parse_text_tag, parse_kinds, parse_supported_kinds_tag, metadata_field, metadata_visitor, built,
  parse_group_metadata,
}
use tangle.Groups.Signing.{
  decimal, text_tag, flag_tag, kinds_tag, pushed_tags, metadata_tags, validate_pocket_tags,
}
use tangle.Groups.Signing.Printed.{parse_u64-decimal}
use tangle.Groups.Signing.Stays.{IsKindSet, KindsFit, Fits, parse_group_metadata-Fits}

-- What the library hands to the visitor of a tag that it encoded.
abbrev pub encoded : List (List Text) → List (List (Option Text))
encoded tags = map (map some) tags

from_pocket-some : (values : List Text) → from_pocket (map some values) ≡ ok values
unfolding from_pocket
from_pocket-some [] = refl
from_pocket-some (value ∷ values) = rw (from_pocket-some values) refl

abbrev Below : Kind → BTreeSet Kind → Type 0
Below k s = All (λ j. j < k) s

add_last : (k : Kind) (s : BTreeSet Kind) → Below k s → add k s ≡ s ++ k ∷ []
unfolding add
add_last k [] h = refl
add_last k (j ∷ s) (h, a) = ground (arith, add_last k s a)

append_assoc_one : (acc s : BTreeSet Kind) (k : Kind) → (acc ++ k ∷ []) ++ s ≡ acc ++ k ∷ s
append_assoc_one [] s k = refl
append_assoc_one (j ∷ acc) s k = rw (append_assoc_one acc s k) refl

append_nil : (s : BTreeSet Kind) → s ++ [] ≡ s
append_nil [] = refl
append_nil (k ∷ s) = rw (append_nil s) refl

Below-append : (k j : Kind) (s : BTreeSet Kind) → Below k s → j < k → Below k (s ++ j ∷ [])
Below-append k j [] h l = (l, tt)
Below-append k j (i ∷ s) (h, a) l = (h, Below-append k j s a l)

abbrev AllBelow : BTreeSet Kind → BTreeSet Kind → Type 0
AllBelow acc s = All (λ k. Below k acc) s

AllBelow-append :
    (acc s : BTreeSet Kind) (j : Kind)
    → All (λ k. j < k) s
    → AllBelow acc s
    → AllBelow (acc ++ j ∷ []) s
AllBelow-append acc [] j h a = tt
AllBelow-append acc (k ∷ s) j (h, hs) (b, a) =
    (Below-append k j acc b h, AllBelow-append acc s j hs a)

parse_kinds-decimal :
    (kinds acc : BTreeSet Kind)
    → IsKindSet kinds
    → AllBelow acc kinds
    → parse_kinds acc (map decimal kinds) ≡ ok (acc ++ kinds)
unfolding parse_kinds new_kind
parse_kinds-decimal [] acc s b = rw (append_nil acc) refl
parse_kinds-decimal (k ∷ kinds) acc (bound, above, s) (b, a) =
    rw (parse_u64-decimal k (omega arith)) (
      rw (let in_range : leb k u32_max ≡ true = ground arith in in_range) (
        rw
          (
            add_last k acc b,
            parse_kinds-decimal kinds (acc ++ k ∷ []) s (AllBelow-append acc kinds k above a),
          )
          (rw (append_assoc_one acc kinds k) refl)))

AllBelow-nil : (s : BTreeSet Kind) → AllBelow [] s
AllBelow-nil [] = tt
AllBelow-nil (k ∷ s) = (tt, AllBelow-nil s)

length-map : (kinds : BTreeSet Kind) → length (map decimal kinds) ≡ length kinds
length-map [] = refl
length-map (k ∷ kinds) = omega (arith, length-map kinds)

module _ (limits : GroupLimitsConfig) where
  abbrev read : MetadataBuilder → List (List Text) → Result GroupError MetadataBuilder
  read builder tags = visit (metadata_visitor limits) builder (encoded tags)

  read-append :
      (builder next : MetadataBuilder) (tags rest : List (List Text))
      → read builder tags ≡ ok next
      → read builder (tags ++ rest) ≡ read next rest
  unfolding visit
  read-append builder next [] rest h = let same : builder ≡ next = ground arith in rw same refl
  read-append builder next (tag ∷ tags) rest h =
      let (values, e, h1) = >>=-eq-ok (from_pocket (map some tag)) _ h in
      let (between, f, h2) = >>=-eq-ok (metadata_visitor limits builder values) _ h1 in
      rw (e, f) (read-append between next tags rest h2)

  read_one :
      (builder next : MetadataBuilder) (tag : List Text)
      → metadata_visitor limits builder tag ≡ ok next
      → read builder (tag ∷ []) ≡ ok next
  unfolding visit
  read_one builder next tag h = rw (from_pocket-some tag, h) refl

  read_name :
      (builder : MetadataBuilder) (value : Option Text)
      → builder.name ≡ none
      → is_too_long max_metadata_name_bytes value ≡ false
      → read builder (text_tag (codes "name") value) ≡ ok (record builder { name = value })
  unfolding visit metadata_visitor metadata_field parse_text_tag
  read_name builder none e h = ground arith
  read_name builder (some value) e h =
      read_one builder (record builder { name = some value }) (codes "name" ∷ value ∷ [])
        (rw h refl)

  read_picture :
      (builder : MetadataBuilder) (value : Option Text)
      → builder.picture ≡ none
      → is_too_long max_metadata_picture_bytes value ≡ false
      → read builder (text_tag (codes "picture") value) ≡ ok (record builder { picture = value })
  unfolding visit metadata_visitor metadata_field parse_text_tag
  read_picture builder none e h = ground arith
  read_picture builder (some value) e h =
      read_one builder (record builder { picture = some value }) (codes "picture" ∷ value ∷ [])
        (rw h refl)

  read_about :
      (builder : MetadataBuilder) (value : Option Text)
      → builder.about ≡ none
      → is_too_long max_metadata_about_bytes value ≡ false
      → read builder (text_tag (codes "about") value) ≡ ok (record builder { about = value })
  unfolding visit metadata_visitor metadata_field parse_text_tag
  read_about builder none e h = ground arith
  read_about builder (some value) e h =
      read_one builder (record builder { about = some value }) (codes "about" ∷ value ∷ [])
        (rw h refl)

  read_private :
      (builder : MetadataBuilder) (flag : Bool)
      → builder.private ≡ false
      → read builder (flag_tag (codes "private") flag) ≡ ok (record builder { private = flag })
  unfolding visit metadata_visitor metadata_field from_pocket
  read_private builder false e = ground arith
  read_private builder true e = refl

  read_restricted :
      (builder : MetadataBuilder) (flag : Bool)
      → builder.restricted ≡ false
      → read builder (flag_tag (codes "restricted") flag)
        ≡ ok (record builder { restricted = flag })
  unfolding visit metadata_visitor metadata_field from_pocket
  read_restricted builder false e = ground arith
  read_restricted builder true e = refl

  read_hidden :
      (builder : MetadataBuilder) (flag : Bool)
      → builder.hidden ≡ false
      → read builder (flag_tag (codes "hidden") flag) ≡ ok (record builder { hidden = flag })
  unfolding visit metadata_visitor metadata_field from_pocket
  read_hidden builder false e = ground arith
  read_hidden builder true e = refl

  read_closed :
      (builder : MetadataBuilder) (flag : Bool)
      → builder.closed ≡ false
      → read builder (flag_tag (codes "closed") flag) ≡ ok (record builder { closed = flag })
  unfolding visit metadata_visitor metadata_field from_pocket
  read_closed builder false e = ground arith
  read_closed builder true e = refl

  abbrev asked : SupportedKinds → Option SupportedKinds
  asked unspecified_all = none
  asked no_kinds = some no_kinds
  asked (only kinds) = some (only kinds)

  skip_d :
      (group_id : GroupId)
      → read default_builder ((codes "d" ∷ group_id ∷ []) ∷ []) ≡ ok default_builder
  unfolding visit metadata_visitor metadata_field from_pocket
  skip_d group_id = refl

  not_many :
      (k : Kind) (kinds : BTreeSet Kind)
      → length (k ∷ kinds) ≤ limits.max_supported_kinds
      → ltb limits.max_supported_kinds (length (map decimal (k ∷ kinds))) ≡ false
  not_many k kinds h = ground (arith, length-map kinds)

  read_kinds :
      (builder : MetadataBuilder) (kinds : SupportedKinds)
      → builder.supported_kinds ≡ none
      → KindsFit limits kinds
      → read builder (kinds_tag kinds) ≡ ok (record builder { supported_kinds = asked kinds })
  unfolding visit metadata_visitor metadata_field parse_supported_kinds_tag from_pocket
  read_kinds builder unspecified_all e f = ground arith
  read_kinds builder no_kinds e f = rw e refl
  read_kinds builder (only []) e (s, some_kind, few) = absurd (omega arith)
  read_kinds builder (only (k ∷ kinds)) e (s, some_kind, few) =
      read_one builder (record builder { supported_kinds = some (only (k ∷ kinds)) })
        (codes "supported_kinds" ∷ map decimal (k ∷ kinds))
        (rw e (
          rw (not_many k kinds few)
            (rw (parse_kinds-decimal (k ∷ kinds) [] s (AllBelow-nil (k ∷ kinds))) (ground arith))))

  abbrev builder_of : GroupMetadata → MetadataBuilder
  builder_of m = record {
    name = m.name;
    picture = m.picture;
    about = m.about;
    private = m.private;
    restricted = m.restricted;
    hidden = m.hidden;
    closed = m.closed;
    supported_kinds = asked m.supported_kinds;
  }

  built-builder_of :
      (m : GroupMetadata) (kinds : SupportedKinds)
      → m.supported_kinds ≡ kinds
      → built (builder_of m) ≡ m
  built-builder_of m unspecified_all e = ground arith
  built-builder_of m no_kinds e = ground arith
  built-builder_of m (only kinds) e = ground arith

  read_pushed :
      (group_id : GroupId) (m : GroupMetadata)
      → Fits limits m
      → read default_builder (pushed_tags group_id m) ≡ ok (builder_of m)
  unfolding pushed_tags
  read_pushed group_id m f =
      let b1 = record default_builder { name = m.name } in
      let b2 = record b1 { picture = m.picture } in
      let b3 = record b2 { about = m.about } in
      let b4 = record b3 { private = m.private } in
      let b5 = record b4 { restricted = m.restricted } in
      let b6 = record b5 { hidden = m.hidden } in
      let b7 = record b6 { closed = m.closed } in
      read-append default_builder default_builder ((codes "d" ∷ group_id ∷ []) ∷ []) _
        (skip_d group_id)
      ∙ read-append default_builder b1 _ _ (read_name default_builder m.name refl f.name)
      ∙ read-append b1 b2 _ _ (read_picture b1 m.picture refl f.picture)
      ∙ read-append b2 b3 _ _ (read_about b2 m.about refl f.about)
      ∙ read-append b3 b4 _ _ (read_private b3 m.private refl)
      ∙ read-append b4 b5 _ _ (read_restricted b4 m.restricted refl)
      ∙ read-append b5 b6 _ _ (read_hidden b5 m.hidden refl)
      ∙ read-append b6 b7 _ _ (read_closed b6 m.closed refl)
      ∙ read_kinds b7 m.supported_kinds refl f.supported_kinds

  parse_snapshot :
      (snapshot : PocketEvent) (group_id : GroupId) (m : GroupMetadata)
      → Fits limits m
      → snapshot.raw_tags ≡ some (encoded (pushed_tags group_id m))
      → parse_group_metadata snapshot limits ≡ ok m
  unfolding parse_group_metadata visit_tags
  parse_snapshot snapshot group_id m f e =
      rw e (rw (read_pushed group_id m f) (rw (built-builder_of m m.supported_kinds refl) refl))

-- The metadata that an event gives to a group is read back, field by field, from the tags of the
-- snapshot that the relay publishes of the group, when the encoding accepts the tags.
pub parse_group_metadata-metadata_tags :
    (encodes : List (List Text) → Bool) (limits : GroupLimitsConfig) (event snapshot : PocketEvent)
    (group_id : GroupId) (m : GroupMetadata) (tags : List (List Text))
    → parse_group_metadata event limits ≡ ok m
    → metadata_tags encodes group_id m ≡ ok tags
    → snapshot.raw_tags ≡ some (encoded tags)
    → parse_group_metadata snapshot limits ≡ ok m
unfolding metadata_tags validate_pocket_tags
parse_group_metadata-metadata_tags encodes limits event snapshot group_id m tags parsed made e =
    let same : pushed_tags group_id m ≡ tags = ground arith in
    parse_snapshot limits snapshot group_id m (parse_group_metadata-Fits event limits m parsed)
      (subst (λ t. snapshot.raw_tags ≡ some (encoded t)) (sym same) e)
