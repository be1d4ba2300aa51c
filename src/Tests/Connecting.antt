-- ===== src/Tests/Connecting.antt =====
-- The authentication and the subscriptions of concrete connections.
use tangle.Common.{
  ℕ, ◌≤◌, ◌≡◌, ◌↔◌, refl, Bool, true, false, Option, none, some, List, [], ◌∷◌, Result, ok, err,
  contains, add, codes, Text, length, ◌==◌, In, list_ord, nat_ord,
}
use tangle.Groups.EventView.{PocketEvent}
use tangle.Groups.WriteGate.{GroupAuthContext}
use tangle.Runtime.Errors.{BaseRelayError, auth_required, invalid}
use tangle.Runtime.Auth.{
  BaseAuthState, BaseRelayAuthEvent, new_auth_state, accept_relay_url, issue_challenge, match_tag,
  match_tags, required_single_pocket_tag_value, parse_base_relay_pocket_auth_event,
  accepts_relay_url, check_auth, authenticate_pocket,
}
use tangle.Runtime.Auth.Spec.{Authenticates, authenticated, authenticate_pocket_iff}
use tangle.Runtime.Auth.SingleTag.{StandsOnce, required_single_pocket_tag_value_iff}
use tangle.Runtime.Auth.History.{
  AuthOperation, issue, authenticate, after_operation, after_operations, Login,
  authenticated_by_answer,
}
use tangle.Runtime.Live.{
  LiveSubscriptionSet, LiveSubscriptionMatch, new_set, ensure_can_subscribe, subscribe, close,
  close_all, match_filters, fanout_loop, fanout,
}
use tangle.Runtime.Live.Bounds.{LiveOperation, subscribing, closing, subscriptions_bounded}
use tangle.Runtime.Live.Bounds
use tangle.Runtime.Live.Fanout.{Reached, Subscribed, fanout_iff}
use tangle.Tests.{projecting, sixty_four, owner, tag}

connecting : Unit {0}
unfolding projecting add new_auth_state accept_relay_url issue_challenge match_tag match_tags
    required_single_pocket_tag_value parse_base_relay_pocket_auth_event accepts_relay_url check_auth
    authenticate_pocket after_operation after_operations new_set ensure_can_subscribe subscribe
    close close_all match_filters fanout_loop fanout Bounds.after_operation Bounds.after_operations
connecting = tt

abbrev verified : PocketEvent → Bool
verified event = true

abbrev answer_tags : List (List (Option Text))
answer_tags = tag ("relay" ∷ "wss://farm" ∷ []) ∷ tag ("challenge" ∷ "seed" ∷ []) ∷ []

abbrev answer : PocketEvent
answer = record {
  id_hex = sixty_four b'1';
  pubkey_hex = owner;
  kind_u32 = 22242;
  created_at = 105;
  raw_tags = some answer_tags;
}

abbrev fresh : BaseAuthState
fresh = record {
  relay_url = codes "wss://farm";
  accepted_relay_urls = [];
  challenge_ttl_seconds = 60;
  created_at_skew_seconds = 30;
  challenge = none;
  authenticated_pubkeys = [];
}

abbrev asked : BaseAuthState
asked = record fresh { challenge = some (record { value = codes "seed"; issued_at = 100 }) }

abbrev logged_in : BaseAuthState
logged_in = record asked { authenticated_pubkeys = owner ∷ [] }

authentication_tests :
    (authenticate_pocket verified answer 110 asked ≡ ok (logged_in, owner))
    × (authenticate_pocket verified answer 161 asked ≡ err auth_required)
    × (authenticate_pocket verified answer 110 fresh ≡ err auth_required)
    × (authenticate_pocket (λ event. false) answer 110 asked ≡ err invalid)
unfolding connecting
authentication_tests = (refl, refl, refl, refl)

authenticate_pocket_iff_example :
    (authenticate_pocket verified answer 110 asked ≡ ok (logged_in, owner)) ↔ (
      (auth : BaseRelayAuthEvent) × Authenticates verified answer 110 asked auth
      × (logged_in ≡ authenticated asked auth)
      × (owner ≡ auth.pubkey))
authenticate_pocket_iff_example = authenticate_pocket_iff verified answer 110 asked logged_in owner

required_single_pocket_tag_value_iff_example :
    (required_single_pocket_tag_value answer (codes "challenge") ≡ ok (codes "seed"))
    ↔ StandsOnce (codes "challenge") (codes "seed") answer_tags
required_single_pocket_tag_value_iff_example =
    required_single_pocket_tag_value_iff (codes "challenge") answer (codes "seed") answer_tags refl

abbrev conversation : List AuthOperation
conversation = authenticate answer 90 ∷ issue (codes "seed") 100 ∷ authenticate answer 110 ∷ []

made : new_auth_state (codes "wss://farm") 60 30 ≡ ok fresh
unfolding connecting
made = refl

contained :
    contains owner (after_operations verified conversation fresh).authenticated_pubkeys ≡ true
unfolding connecting
contained = refl

authenticated_by_answer_example : Login verified (λ o. In o conversation) 60 owner
authenticated_by_answer_example =
    authenticated_by_answer verified (codes "wss://farm") 60 30 fresh conversation owner made
      contained

abbrev no_subscription : LiveSubscriptionSet ℕ
no_subscription = record { subscriptions = []; max_subscriptions = 1 }

abbrev client : List (LiveOperation ℕ)
client =
    subscribing (codes "a") (11 ∷ [])
    ∷ subscribing (codes "b") (12 ∷ [])
    ∷ closing (codes "a")
    ∷ subscribing (codes "c") (22242 ∷ 7 ∷ [])
    ∷ []

set_made : new_set {PocketFilter = ℕ} 5 1 ≡ ok no_subscription
unfolding connecting
set_made = refl

subscriptions_bounded_example :
    length (Bounds.after_operations client no_subscription).subscriptions ≤ 1
subscriptions_bounded_example = subscriptions_bounded 5 1 no_subscription client set_made

-- A filter is here a kind.
abbrev by_kind : ℕ → PocketEvent → Result BaseRelayError Bool
by_kind kind event = ok (kind == event.kind_u32)

abbrev everybody : PocketEvent → GroupAuthContext → Bool
everybody event auth = true

abbrev nobody : GroupAuthContext
nobody = record { authenticated_pubkeys = [] }

abbrev subscribed : LiveSubscriptionSet ℕ
subscribed = record {
  subscriptions = (codes "c", 22242 ∷ 7 ∷ []) ∷ (codes "d", 7 ∷ []) ∷ [];
  max_subscriptions = 2;
}

abbrev reached : List (LiveSubscriptionMatch ℕ)
reached = record { subscription_id = codes "c"; matched_filters = (0, 22242) ∷ [] } ∷ []

fanned_out : fanout by_kind answer everybody nobody subscribed ≡ ok reached
unfolding connecting
fanned_out = refl

fanout_iff_example : Reached by_kind answer (codes "c") reached ↔ (
    (everybody answer nobody ≡ true)
    × Subscribed by_kind answer (codes "c") subscribed.subscriptions)
fanout_iff_example =
    fanout_iff by_kind answer everybody nobody subscribed reached (codes "c") fanned_out
