-- ===== src/Runtime/Errors.antt =====
-- crates/tangle_runtime/src/errors.rs: the prefixes of errors, without their messages.
use tangle.Common.{Text, codes, Result}
use tangle.Groups.Errors.{GroupError, map_err}

pub data BaseRelayError : Type 0 where
  invalid auth_required rate_limited restricted error : BaseRelayError

-- The prefix of `prefixed_message`.
abbrev pub prefix_str : BaseRelayError → Text
prefix_str invalid = codes "invalid"
prefix_str auth_required = codes "auth-required"
prefix_str rate_limited = codes "rate-limited"
prefix_str restricted = codes "restricted"
prefix_str error = codes "error"

-- `From<GroupError>`.
abbrev pub from_group {ℓ} : {A : Type ℓ} → Result GroupError A → Result BaseRelayError A
from_group result = map_err error result
