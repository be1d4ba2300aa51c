-- ===== src/Runtime/Auth.antt =====
-- crates/tangle_runtime/src/relay/auth.rs: the authentication of a connection. `verified` is the
-- check of an event's id and signature by the library of the store.
pub mod Spec
pub mod SingleTag
pub mod History
use tangle.Common.{
  ℕ, Bool, true, false, ◌||◌, not, Option, none, some, is_some, List, [], ◌∷◌, Result, ok, err,
  ◌>>=◌, ◌>>◌, ok_or, Text, codes, String, eqb, list_ord, nat_ord, ltb, leb, ◌==◌, if◌then◌else◌,
  BTreeSet, add, contains, all_whitespace,
}
use tangle.Protocol.{PublicKeyHex, UnixTimestamp, saturating_add, u64_max, new_public_key, new_kind}
use tangle.Groups.Errors.{map_err}
use tangle.Groups.EventView.{PocketEvent}
use tangle.Runtime.Errors.{BaseRelayError, invalid, auth_required}

pub record BaseAuthChallenge : Type 0 where
  pub value : Text
  pub issued_at : UnixTimestamp

pub record BaseAuthState : Type 0 where
  pub relay_url : Text
  pub accepted_relay_urls : BTreeSet Text
  pub challenge_ttl_seconds : ℕ
  pub created_at_skew_seconds : ℕ
  pub challenge : Option BaseAuthChallenge
  pub authenticated_pubkeys : BTreeSet PublicKeyHex

unfoldable pub new_auth_state : Text → ℕ → ℕ → Result BaseRelayError BaseAuthState
new_auth_state relay_url challenge_ttl_seconds created_at_skew_seconds =
    if all_whitespace relay_url
    then err invalid
    else if challenge_ttl_seconds == 0
    then err invalid
    else if created_at_skew_seconds == 0
    then err invalid
    else ok (record {
      relay_url = relay_url;
      accepted_relay_urls = [];
      challenge_ttl_seconds = challenge_ttl_seconds;
      created_at_skew_seconds = created_at_skew_seconds;
      challenge = none;
      authenticated_pubkeys = [];
    })

unfoldable pub accept_relay_url : Text → BaseAuthState → Result BaseRelayError BaseAuthState
accept_relay_url relay_url s =
    if all_whitespace relay_url
    then err invalid
    else ok (record s { accepted_relay_urls = add relay_url s.accepted_relay_urls })

abbrev pub is_empty : Text → Bool
is_empty [] = true
is_empty (_ ∷ _) = false

-- The answer is the message that carries the challenge.
unfoldable pub issue_challenge :
    Text → UnixTimestamp → BaseAuthState → Result BaseRelayError (BaseAuthState × Text)
issue_challenge challenge issued_at s =
    if is_empty challenge
    then err invalid
    else ok (
      record s { challenge = some (record { value = challenge; issued_at = issued_at }) },
      challenge,
    )

pub record BaseRelayAuthEvent : Type 0 where
  pub pubkey : PublicKeyHex
  pub created_at : UnixTimestamp
  pub relay : Text
  pub challenge : Text

-- The value of a tag that has the name, where none was found before it.
abbrev pub take_value : Option Text → List (Option Text) → Result BaseRelayError (Option Text)
take_value (some _) rest = err invalid
take_value none [] = err invalid
take_value none (none ∷ rest) = err invalid
take_value none (some value ∷ rest) = ok (some value)

unfoldable pub match_tag :
    Text → Option Text → List (Option Text) → Result BaseRelayError (Option Text)
match_tag name matched [] = ok matched
match_tag name matched (none ∷ rest) = err invalid
match_tag name matched (some tag_name ∷ rest) =
    if not (eqb tag_name name) then ok matched else take_value matched rest

unfoldable pub match_tags :
    Text → Option Text → List (List (Option Text)) → Result BaseRelayError (Option Text)
unfolding match_tag
match_tags name matched [] = ok matched
match_tags name matched (tag ∷ tags) = do
  next ← match_tag name matched tag
  match_tags name next tags

unfoldable pub required_single_pocket_tag_value : PocketEvent → Text → Result BaseRelayError Text
required_single_pocket_tag_value event name = do
  tags ← ok_or event.raw_tags invalid
  matched ← match_tags name none tags
  ok_or matched invalid

unfoldable pub parse_base_relay_pocket_auth_event :
    PocketEvent → Result BaseRelayError (Option BaseRelayAuthEvent)
parse_base_relay_pocket_auth_event event = do
  kind ← map_err invalid (new_kind event.kind_u32)
  if not (kind == 22242) then ok none else (do
    relay ← required_single_pocket_tag_value event (codes "relay")
    challenge ← required_single_pocket_tag_value event (codes "challenge")
    if is_empty relay then err invalid else if is_empty challenge then err invalid else (do
      pubkey ← map_err invalid (new_public_key event.pubkey_hex)
      ok (
          some (record {
            pubkey = pubkey;
            created_at = event.created_at;
            relay = relay;
            challenge = challenge;
          }))))

unfoldable pub accepts_relay_url : BaseAuthState → Text → Bool
accepts_relay_url s url = eqb url s.relay_url || contains url s.accepted_relay_urls

-- The tests of `authenticate_pocket` on a parsed event and the challenge.
unfoldable pub check_auth :
    BaseAuthState
    → BaseRelayAuthEvent
    → BaseAuthChallenge
    → UnixTimestamp
    → Result BaseRelayError (Unit {0})
check_auth s auth challenge now =
    if not (accepts_relay_url s auth.relay)
    then err auth_required
    else if not (eqb auth.challenge challenge.value)
    then err auth_required
    else if ltb (saturating_add u64_max challenge.issued_at s.challenge_ttl_seconds) now
    then err auth_required
    else if ltb (saturating_add u64_max auth.created_at s.created_at_skew_seconds) now
        || ltb (saturating_add u64_max now s.created_at_skew_seconds) auth.created_at
    then err auth_required
    else ok tt

unfoldable pub authenticate_pocket :
    (PocketEvent → Bool)
    → PocketEvent
    → UnixTimestamp
    → BaseAuthState
    → Result BaseRelayError (BaseAuthState × PublicKeyHex)
authenticate_pocket verified event now s = if not (verified event) then err invalid else (do
  parsed ← parse_base_relay_pocket_auth_event event
  auth ← ok_or parsed invalid
  challenge ← ok_or s.challenge auth_required
  check_auth s auth challenge now
  ok (record s { authenticated_pubkeys = add auth.pubkey s.authenticated_pubkeys }, auth.pubkey))
