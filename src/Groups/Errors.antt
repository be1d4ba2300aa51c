-- ===== src/Groups/Errors.antt =====
-- crates/tangle_groups/src/errors.rs. An error is its kind and its reply prefix; the text that
-- follows the prefix is left out, since no code that is modelled reads it.
use tangle.Common.{Result, err, ok}

pub data GroupReplyPrefix : Type 0 where
  duplicate_prefix blocked_prefix rate_limited_prefix invalid_prefix : GroupReplyPrefix
  restricted_prefix auth_required_prefix error_prefix : GroupReplyPrefix

pub data GroupErrorKind : Type 0 where
  invalid_group_id malformed_group_tag missing_group_tag conflicting_group_tag : GroupErrorKind
  too_many_group_tags unsupported_group_kind direct_relay_generated_submission : GroupErrorKind
  missing_target_tag malformed_target_tag metadata_too_large : GroupErrorKind
  too_many_supported_kinds invalid_role missing_capability authentication_required : GroupErrorKind
  group_unavailable group_deleted group_already_exists duplicate_member : GroupErrorKind
  internal_error : GroupErrorKind

pub record GroupError : Type 0 where
  pub kind : GroupErrorKind
  pub prefix : GroupReplyPrefix

abbrev pub invalid : GroupErrorKind → GroupError
invalid k = record { kind = k; prefix = invalid_prefix }

abbrev pub duplicate : GroupErrorKind → GroupError
duplicate k = record { kind = k; prefix = duplicate_prefix }

abbrev pub blocked : GroupErrorKind → GroupError
blocked k = record { kind = k; prefix = blocked_prefix }

abbrev pub restricted : GroupErrorKind → GroupError
restricted k = record { kind = k; prefix = restricted_prefix }

abbrev pub auth_required : GroupError
auth_required = record { kind = authentication_required; prefix = auth_required_prefix }

abbrev pub internal : GroupError
internal = record { kind = internal_error; prefix = error_prefix }

-- `map_err` with a constant error.
abbrev pub map_err {ℓ κ μ} : {E : Type ℓ} {F : Type μ} {A : Type κ} → F → Result E A → Result F A
map_err f (ok a) = ok a
map_err f (err e) = err f
