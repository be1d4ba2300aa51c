-- ===== src/Protocol.antt =====
-- crates/tangle_protocol/src/lib.rs: the scalars of the protocol. A newtype of a string is the text
-- that it wraps, one of an integer the number; the checks of its constructor are the function here.
use tangle.Common.{
  ℕ, ◌+◌, Bool, ◌&&◌, ◌||◌, Result, ok, err, ◌>>◌, Text, any, length, ltb, leb, ◌==◌, if◌then◌else◌,
  not,
}

abbrev pub EventId : Type 0
EventId = Text

abbrev pub PublicKeyHex : Type 0
PublicKeyHex = Text

abbrev pub SubscriptionId : Type 0
SubscriptionId = Text

abbrev pub UnixTimestamp : Type 0
UnixTimestamp = ℕ

abbrev pub Kind : Type 0
Kind = ℕ

abbrev pub hex_length : ℕ
hex_length = 64

abbrev pub max_subscription_id_length : ℕ
max_subscription_id_length = 64

-- One constructor for each function that makes a message.
pub data ScalarError : Type 0 where
  empty invalid_length too_long non_lowercase_hex kind_out_of_range : ScalarError

-- `u64::saturating_add` and `u32::saturating_add`.
abbrev pub saturating_add : ℕ → ℕ → ℕ → ℕ
saturating_add max a b = if leb (a + b) max then a + b else max

abbrev pub u64_max : ℕ
u64_max = 0xffff_ffff_ffff_ffff

abbrev pub u32_max : ℕ
u32_max = 0xffff_ffff

abbrev pub is_ascii_uppercase : ℕ → Bool
is_ascii_uppercase c = leb b'A' c && leb c b'Z'

abbrev pub is_ascii_alphabetic : ℕ → Bool
is_ascii_alphabetic c = is_ascii_uppercase c || (leb b'a' c && leb c b'z')

abbrev pub is_ascii_hexdigit : ℕ → Bool
is_ascii_hexdigit c =
    (leb b'0' c && leb c b'9') || (leb b'A' c && leb c b'F') || (leb b'a' c && leb c b'f')

-- A character above 0x7f has bytes above 0x7f only, and these are no hexadecimal digits.
unfoldable pub require_lowercase_hex : Text → ℕ → Result ScalarError (Unit {0})
require_lowercase_hex value expected =
    if not (length value == expected)
    then err invalid_length
    else if any (λ byte. not (is_ascii_hexdigit byte) || is_ascii_uppercase byte) value
    then err non_lowercase_hex
    else ok tt

unfoldable pub new_event_id : Text → Result ScalarError EventId
unfolding require_lowercase_hex
new_event_id value = do require_lowercase_hex value hex_length; ok value

unfoldable pub new_public_key : Text → Result ScalarError PublicKeyHex
unfolding require_lowercase_hex
new_public_key value = do require_lowercase_hex value hex_length; ok value

unfoldable pub new_subscription_id : Text → Result ScalarError SubscriptionId
new_subscription_id value =
    if length value == 0
    then err empty
    else if ltb max_subscription_id_length (length value)
    then err too_long
    else ok value

unfoldable pub new_kind : ℕ → Result ScalarError Kind
new_kind value = if leb value u32_max then ok value else err kind_out_of_range

pub data KindClass : Type 0 where
  regular replaceable ephemeral addressable : KindClass

unfoldable pub kind_class : Kind → KindClass
kind_class kind =
    if kind == 0 || kind == 3 || (leb 10000 kind && leb kind 19999)
    then replaceable
    else if leb 20000 kind && leb kind 29999
    then ephemeral
    else if leb 30000 kind && leb kind 39999
    then addressable
    else regular
