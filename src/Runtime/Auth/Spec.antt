-- ===== src/Runtime/Auth/Spec.antt =====
-- What an event must be to authenticate its author, stated without the order of the tests.
use tangle.Common.{
  ◌≤◌, ◌≡◌, inl, inr, ◌↔◌, Bool, true, false, none, some, ok, Text, codes, arith, eqb_iff, list_ord,
  nat_ord, add, Result-cases, Option-cases,
}
use tangle.Protocol.{PublicKeyHex, UnixTimestamp, saturating_add, u64_max, new_public_key, new_kind}
use tangle.Groups.EventView.{PocketEvent}
use tangle.Runtime.Auth.{
  BaseAuthState, BaseAuthChallenge, BaseRelayAuthEvent, required_single_pocket_tag_value, is_empty,
  parse_base_relay_pocket_auth_event, accepts_relay_url, check_auth, authenticate_pocket,
}

-- The fields that an authentication carries.
pub record Answers (event : PocketEvent) (auth : BaseRelayAuthEvent) : Type 0 where
  pub kind : event.kind_u32 ≡ 22242
  pub relay : required_single_pocket_tag_value event (codes "relay") ≡ ok auth.relay
  pub challenge : required_single_pocket_tag_value event (codes "challenge") ≡ ok auth.challenge
  pub some_relay : is_empty auth.relay ≡ false
  pub some_challenge : is_empty auth.challenge ≡ false
  pub author : new_public_key event.pubkey_hex ≡ ok auth.pubkey
  pub time : event.created_at ≡ auth.created_at

pub record Authenticates (verified : PocketEvent → Bool) (event : PocketEvent) (now : UnixTimestamp)
    (s : BaseAuthState) (auth : BaseRelayAuthEvent) : Type 0 where
  pub signed : verified event ≡ true
  pub answers : Answers event auth
  pub issued : BaseAuthChallenge
  pub asked : s.challenge ≡ some issued
  pub answered : auth.challenge ≡ issued.value
  pub accepted : accepts_relay_url s auth.relay ≡ true
  pub in_time : now ≤ saturating_add u64_max issued.issued_at s.challenge_ttl_seconds
  pub not_before : now ≤ saturating_add u64_max auth.created_at s.created_at_skew_seconds
  pub not_after : auth.created_at ≤ saturating_add u64_max now s.created_at_skew_seconds

abbrev pub authenticated : BaseAuthState → BaseRelayAuthEvent → BaseAuthState
authenticated s auth = record s { authenticated_pubkeys = add auth.pubkey s.authenticated_pubkeys }

parse_sound :
    (event : PocketEvent) (auth : BaseRelayAuthEvent)
    → parse_base_relay_pocket_auth_event event ≡ ok (some auth)
    → Answers event auth
unfolding parse_base_relay_pocket_auth_event new_kind
parse_sound event auth h = record {
  kind = ground arith;
  relay = ground arith;
  challenge = ground arith;
  some_relay = ground arith;
  some_challenge = ground arith;
  author = ground arith;
  time = ground arith;
}

parse_complete :
    (event : PocketEvent) (auth : BaseRelayAuthEvent)
    → Answers event auth
    → parse_base_relay_pocket_auth_event event ≡ ok (some auth)
unfolding parse_base_relay_pocket_auth_event new_kind
parse_complete event auth a = ground arith

module _ (verified : PocketEvent → Bool) (event : PocketEvent) (now : UnixTimestamp)
    (s : BaseAuthState) where
  authenticate_complete :
      (auth : BaseRelayAuthEvent)
      → Authenticates verified event now s auth
      → authenticate_pocket verified event now s ≡ ok (authenticated s auth, auth.pubkey)
  unfolding authenticate_pocket check_auth
  authenticate_complete auth a =
      ground (
        arith,
        parse_complete event auth a.answers,
        eqb_iff {A = Text} auth.challenge a.issued.value,
      )

  authenticate_sound :
      (t : BaseAuthState) (key : PublicKeyHex)
      → authenticate_pocket verified event now s ≡ ok (t, key)
      → (auth : BaseRelayAuthEvent) × Authenticates verified event now s auth
        × (t ≡ authenticated s auth)
        × (key ≡ auth.pubkey)
  unfolding authenticate_pocket check_auth
  authenticate_sound t key h = elim (Result-cases (parse_base_relay_pocket_auth_event event)) [
    | inr (x, e) ↦ absurd (ground arith)
    | inl (none, e) ↦ absurd (ground arith)
    | inl (some auth, e) ↦ elim (Option-cases s.challenge) [
      | inl n ↦ absurd (ground arith)
      | inr (issued, asked) ↦ (
        auth,
        record {
          signed = ground arith;
          answers = parse_sound event auth e;
          issued = issued;
          asked = asked;
          answered = (eqb_iff {A = Text} auth.challenge issued.value).0 (ground arith);
          accepted = ground arith;
          in_time = ground arith;
          not_before = ground arith;
          not_after = ground arith;
        },
        ground arith,
        ground arith,
      )
    ]
  ]

  -- An event authenticates its author exactly when its signature holds, it is of the kind of
  -- authentications, it names a URL of the relay, answers the challenge issued last within its time,
  -- and its own time is near; the author is then added to the keys of the connection.
  pub authenticate_pocket_iff :
      (t : BaseAuthState) (key : PublicKeyHex)
      → (authenticate_pocket verified event now s ≡ ok (t, key)) ↔ (
          (auth : BaseRelayAuthEvent) × Authenticates verified event now s auth
          × (t ≡ authenticated s auth)
          × (key ≡ auth.pubkey))
  authenticate_pocket_iff t key =
      (authenticate_sound t key, λ (auth, a, e, k). rw (e, k) (authenticate_complete auth a))
