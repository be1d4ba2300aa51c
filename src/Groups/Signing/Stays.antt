-- ===== src/Groups/Signing/Stays.antt =====
-- What parsing (metadata.rs) ensures of the metadata that a snapshot publishes.
use tangle.Common.{
  ℕ, ◌+◌, ◌≤◌, ◌<◌, ◌≡◌, refl, inl, inr, Bool, true, false, Option, none, some, is_some, List, [],
  ◌∷◌, Result, ok, ◌>>=◌, ok_or, Text, codes, length, eqb, ltb, ◌==◌, if◌then◌else◌, All, BTreeSet,
  add, arith, nat_ord, list_ord, >>=-eq-ok, Bool-cases, Option-cases, subst, ◌≢◌,
}
use tangle.Protocol.{Kind, new_kind, u32_max}
use tangle.Groups.Errors.{GroupError, map_err, invalid, unsupported_group_kind}
use tangle.Groups.Config.{GroupLimitsConfig}
use tangle.Groups.EventView.{
  PocketEvent, GroupEventTag, first_value, tag_value, visit, visit_tags, from_pocket,
}
use tangle.Groups.Metadata.{
  max_metadata_name_bytes, max_metadata_picture_bytes, max_metadata_about_bytes, SupportedKinds,
  unspecified_all, no_kinds, only, GroupMetadata, MetadataBuilder, default_builder, is_too_long,
  parse_text_tag, parse_u64, parse_kinds, skip_name, parse_supported_kinds_tag, metadata_field,
  metadata_visitor, built, parse_group_metadata,
}

-- The order of a set of kinds, none of which is above the bound of a kind.
abbrev pub IsKindSet : BTreeSet Kind → Type 0
IsKindSet [] = Unit
IsKindSet (k ∷ s) = (k ≤ u32_max) × All (λ j. k < j) s × IsKindSet s

abbrev pub KindsFit : GroupLimitsConfig → SupportedKinds → Type 0
KindsFit limits unspecified_all = Unit
KindsFit limits no_kinds = Unit
KindsFit limits (only kinds) =
    IsKindSet kinds × (0 < length kinds) × (length kinds ≤ limits.max_supported_kinds)

abbrev MaybeFit : GroupLimitsConfig → Option SupportedKinds → Type 0
MaybeFit limits none = Unit
MaybeFit limits (some kinds) = KindsFit limits kinds

pub record Fits (limits : GroupLimitsConfig) (m : GroupMetadata) : Type 0 where
  pub name : is_too_long max_metadata_name_bytes m.name ≡ false
  pub picture : is_too_long max_metadata_picture_bytes m.picture ≡ false
  pub about : is_too_long max_metadata_about_bytes m.about ≡ false
  pub supported_kinds : KindsFit limits m.supported_kinds

record BuilderFits (limits : GroupLimitsConfig) (m : MetadataBuilder) : Type 0 where
  name : is_too_long max_metadata_name_bytes m.name ≡ false
  picture : is_too_long max_metadata_picture_bytes m.picture ≡ false
  about : is_too_long max_metadata_about_bytes m.about ≡ false
  supported_kinds : MaybeFit limits m.supported_kinds

Above-add : (i k : ℕ) (s : BTreeSet Kind) → i < k → All (λ j. i < j) s → All (λ j. i < j) (add k s)
unfolding add
Above-add i k [] h a = (h, tt)
Above-add i k (j ∷ s) h (b, a) = ground (arith, Above-add i k s h a)

All-lt_trans : (i k : ℕ) (s : BTreeSet Kind) → i < k → All (λ j. k < j) s → All (λ j. i < j) s
All-lt_trans i k [] h a = tt
All-lt_trans i k (j ∷ s) h (b, a) = (omega arith, All-lt_trans i k s h a)

add-IsKindSet : (k : ℕ) (s : BTreeSet Kind) → k ≤ u32_max → IsKindSet s → IsKindSet (add k s)
unfolding add
add-IsKindSet k [] h a = (h, tt, tt)
add-IsKindSet k (j ∷ s) h (b, above, a) =
    ground (arith, add-IsKindSet k s h a, Above-add j k s, All-lt_trans k j s)

length-add :
    (k : ℕ) (s : BTreeSet Kind) → (length (add k s) ≤ length s + 1) × (0 < length (add k s))
unfolding add
length-add k [] = ground arith
length-add k (j ∷ s) = ground (arith, length-add k s)

new_kind-le :
    (raw kind : ℕ)
    → map_err (invalid unsupported_group_kind) (new_kind raw) ≡ ok kind
    → kind ≤ u32_max
unfolding new_kind
new_kind-le raw kind h = ground arith

parse_kinds-IsKindSet :
    (values : List Text) (acc kinds : BTreeSet Kind)
    → parse_kinds acc values ≡ ok kinds
    → IsKindSet acc
    → IsKindSet kinds
      × (length kinds ≤ length acc + length values)
      × (length acc + length values ≢ 0 → 0 < length kinds)
unfolding parse_kinds
parse_kinds-IsKindSet [] acc kinds h a = ground arith
parse_kinds-IsKindSet (value ∷ values) acc kinds h a =
    let (raw, e, h1) = >>=-eq-ok (ok_or (parse_u64 value) (invalid unsupported_group_kind)) _ h in
    let (kind, f, h2) = >>=-eq-ok (map_err (invalid unsupported_group_kind) (new_kind raw)) _ h1 in
    let (set, most, least) =
      parse_kinds-IsKindSet values (add kind acc) kinds h2
        (add-IsKindSet kind acc (new_kind-le raw kind f) a) in
    let (longer, some_kind) = length-add kind acc in
    (set, omega arith, λ n. least (λ z. absurd (omega arith)))

parse_supported_kinds_tag-KindsFit :
    (tag : GroupEventTag) (limits : GroupLimitsConfig) (kinds : SupportedKinds)
    → parse_supported_kinds_tag tag limits ≡ ok kinds
    → KindsFit limits kinds
unfolding parse_supported_kinds_tag
parse_supported_kinds_tag-KindsFit tag limits kinds h =
    elim (Bool-cases (length (skip_name tag) == 0)) [
      | inl none_given ↦
          let same : no_kinds ≡ kinds = ground arith in subst (KindsFit limits) same tt
      | inr given ↦ elim (Bool-cases (ltb limits.max_supported_kinds (length (skip_name tag)))) [
        | inl too_many ↦ absurd (ground arith)
        | inr few ↦
            let h' = rw (given, few) at h in
            let (set, e, f) = >>=-eq-ok (parse_kinds [] (skip_name tag)) _ h' in
            let (ordered, most, least) = parse_kinds-IsKindSet (skip_name tag) [] set e tt in
            let same : only set ≡ kinds = ground arith in
            subst (KindsFit limits) same (ordered, least (λ z. ground arith), ground arith)
      ]
    ]

parse_text_tag-fits :
    (tag : GroupEventTag) (max_bytes : ℕ) (value : Option Text)
    → parse_text_tag tag max_bytes ≡ ok value
    → is_too_long max_bytes value ≡ false
unfolding parse_text_tag
parse_text_tag-fits tag max_bytes value h =
    elim (Bool-cases (is_too_long max_bytes (tag_value tag 1))) [
      | inl long ↦ absurd (ground arith)
      | inr short ↦ let same : tag_value tag 1 ≡ value = ground arith in rw (← same) short
    ]

module _ (limits : GroupLimitsConfig) (builder : MetadataBuilder) (tag : GroupEventTag) where
  with_name :
      (next : MetadataBuilder)
      → BuilderFits limits builder
      → (parse_text_tag tag max_metadata_name_bytes >>= λ value.
          ok (record builder { name = value }))
        ≡ ok next
      → BuilderFits limits next
  with_name next f h =
      let (value, e, g) = >>=-eq-ok (parse_text_tag tag max_metadata_name_bytes) _ h in
      ground (arith, parse_text_tag-fits tag max_metadata_name_bytes value e)

  with_picture :
      (next : MetadataBuilder)
      → BuilderFits limits builder
      → (parse_text_tag tag max_metadata_picture_bytes >>= λ value.
          ok (record builder { picture = value }))
        ≡ ok next
      → BuilderFits limits next
  with_picture next f h =
      let (value, e, g) = >>=-eq-ok (parse_text_tag tag max_metadata_picture_bytes) _ h in
      ground (arith, parse_text_tag-fits tag max_metadata_picture_bytes value e)

  with_about :
      (next : MetadataBuilder)
      → BuilderFits limits builder
      → (parse_text_tag tag max_metadata_about_bytes >>= λ value.
          ok (record builder { about = value }))
        ≡ ok next
      → BuilderFits limits next
  with_about next f h =
      let (value, e, g) = >>=-eq-ok (parse_text_tag tag max_metadata_about_bytes) _ h in
      ground (arith, parse_text_tag-fits tag max_metadata_about_bytes value e)

  with_kinds :
      (next : MetadataBuilder)
      → BuilderFits limits builder
      → (parse_supported_kinds_tag tag limits >>= λ kinds.
          ok (record builder { supported_kinds = some kinds }))
        ≡ ok next
      → BuilderFits limits next
  with_kinds next f h =
      let (kinds, e, g) = >>=-eq-ok (parse_supported_kinds_tag tag limits) _ h in
      ground (arith, parse_supported_kinds_tag-KindsFit tag limits kinds e)

  abbrev Keeps : Result GroupError MetadataBuilder → Type 0
  Keeps result = (next : MetadataBuilder) → result ≡ ok next → BuilderFits limits next

  Keeps-either :
      (b : Bool) (x y : Result GroupError MetadataBuilder)
      → Keeps x
      → Keeps y
      → Keeps (if b then x else y)
  Keeps-either true x y p q = p
  Keeps-either false x y p q = q

  Keeps-flag : (next : MetadataBuilder) → BuilderFits limits next → Keeps (ok next)
  Keeps-flag next f after h =
      let same : next ≡ after = ground arith in subst (BuilderFits limits) same f

  metadata_field-Keeps :
      (name : Text) → BuilderFits limits builder → Keeps (metadata_field limits builder tag name)
  unfolding metadata_field
  metadata_field-Keeps name f =
      Keeps-either (eqb name (codes "name")) _ _ (λ next. with_name next f)
        (Keeps-either (eqb name (codes "picture")) _ _ (λ next. with_picture next f)
          (Keeps-either (eqb name (codes "about")) _ _ (λ next. with_about next f)
            (Keeps-either (eqb name (codes "private")) _ _
              (Keeps-flag (record builder { private = true }) (ground arith))
              (Keeps-either (eqb name (codes "restricted")) _ _
                (Keeps-flag (record builder { restricted = true }) (ground arith))
                (Keeps-either (eqb name (codes "hidden")) _ _
                  (Keeps-flag (record builder { hidden = true }) (ground arith))
                  (Keeps-either (eqb name (codes "closed")) _ _
                    (Keeps-flag (record builder { closed = true }) (ground arith))
                    (Keeps-either (eqb name (codes "supported_kinds")) _ _
                      (Keeps-either (is_some builder.supported_kinds) _ _
                        (λ next h. absurd (ground arith)) (λ next. with_kinds next f))
                      (Keeps-flag builder f))))))))

metadata_visitor-fits :
    (limits : GroupLimitsConfig) (builder next : MetadataBuilder) (tag : GroupEventTag)
    → BuilderFits limits builder
    → metadata_visitor limits builder tag ≡ ok next
    → BuilderFits limits next
unfolding metadata_visitor
metadata_visitor-fits limits builder next tag f h = elim (Option-cases (first_value tag)) [
  | inl unnamed ↦ Keeps-flag limits builder tag builder f next (rw (metadata_visitor, unnamed) at h)
  | inr (name, e) ↦
      metadata_field-Keeps limits builder tag name f next (rw (metadata_visitor, e) at h)
]

visit-fits :
    (limits : GroupLimitsConfig) (tags : List (List (Option Text))) (builder next : MetadataBuilder)
    → BuilderFits limits builder
    → visit (metadata_visitor limits) builder tags ≡ ok next
    → BuilderFits limits next
unfolding visit
visit-fits limits [] builder next f h =
    let same : builder ≡ next = ground arith in subst (BuilderFits limits) same f
visit-fits limits (raw ∷ tags) builder next f h =
    let (tag, e, h1) = >>=-eq-ok (from_pocket raw) _ h in
    let (between, g, h2) = >>=-eq-ok (metadata_visitor limits builder tag) _ h1 in
    visit-fits limits tags between next (metadata_visitor-fits limits builder between tag f g) h2

built-Fits :
    (limits : GroupLimitsConfig) (builder : MetadataBuilder) (kinds : Option SupportedKinds)
    → builder.supported_kinds ≡ kinds
    → BuilderFits limits builder
    → Fits limits (built builder)
built-Fits limits builder none e f = ground arith
built-Fits limits builder (some kinds) e f = ground arith

pub parse_group_metadata-Fits :
    (event : PocketEvent) (limits : GroupLimitsConfig) (m : GroupMetadata)
    → parse_group_metadata event limits ≡ ok m
    → Fits limits m
unfolding parse_group_metadata visit_tags
parse_group_metadata-Fits event limits m h = elim (Option-cases event.raw_tags) [
  | inl unreadable ↦ absurd (cc (rw unreadable at h))
  | inr (tags, e) ↦
      let (builder, g, k) =
        >>=-eq-ok (visit (metadata_visitor limits) default_builder tags) _ (rw e at h) in
      let start : BuilderFits limits default_builder = ground arith in
      let same : built builder ≡ m = ground arith in
      subst (Fits limits) same (
        built-Fits limits builder builder.supported_kinds refl
          (visit-fits limits tags default_builder builder start g))
]
