-- ===== src/Runtime/Relay/Events.antt =====
-- The handling of an event that a client sends: crates/tangle_runtime/src/relay/core.rs and
-- pocket_event_validation.rs. The log is left out. Of the texts that answer a client, the prefix of
-- an error is kept.
use tangle.Common.{
  ℕ, ◌&&◌, Bool, true, false, not, Option, none, some, List, [], ◌∷◌, Result, ok, err, Text, codes,
  eqb, any, length, leb, list_ord, nat_ord, if◌then◌else◌,
}
use tangle.Protocol.{
  EventId, PublicKeyHex, Kind, ephemeral, kind_class, new_event_id, new_public_key, new_kind,
}
use tangle.Groups.Errors.{GroupError, map_err}
use tangle.Groups.Config.{GroupLimitsConfig}
use tangle.Groups.EventView.{PocketEvent}
use tangle.Groups.Classification.{GroupEventClass}
use tangle.Groups.Projection.{StoreOffset}
use tangle.Groups.WriteGate.{
  GroupAuthContext, auth_contains, is_non_group, validate_client_group_event_structure,
}
use tangle.Runtime.Errors.{BaseRelayError, invalid, auth_required, error}
use tangle.Runtime.Store.{Pocket, PocketSyncPolicy, event_by_id, store_event}
use tangle.Runtime.Relay.{BaseRelayLimits}
use tangle.Runtime.GroupService.State.{GroupService, ServiceState, on_store}
use tangle.Runtime.GroupService.Writes.{
  GroupEventWrite, stored_write, duplicate_write, GroupEventWriteError, rejected, storage,
  store_group_pocket_event,
}

abbrev pub default_group_limits : GroupLimitsConfig
default_group_limits = record {
  max_group_id_bytes = 128;
  max_group_tags_per_event = 8;
  max_supported_kinds = 512;
  max_member_list_pubkeys = 100_000;
  max_outbox_replay_batch = 1_000;
}

-- What a text that answers an event says.
pub data OkMessage : Type 0 where
  nothing duplicate_event no_group_service : OkMessage
  relay_error : BaseRelayError → OkMessage
  group_error : GroupError → OkMessage

pub record OkReply : Type 0 where
  pub event_id : EventId
  pub accepted : Bool
  pub message : OkMessage

pub record BaseRelayEventWrite : Type 0 where
  pub reply : OkReply
  pub stored_offsets : List StoreOffset

abbrev pub ok_accepted : EventId → OkMessage → OkReply
ok_accepted id message = record { event_id = id; accepted = true; message = message }

abbrev pub ok_rejected : EventId → OkMessage → OkReply
ok_rejected id message = record { event_id = id; accepted = false; message = message }

abbrev pub unstored : OkReply → BaseRelayEventWrite
unstored reply = record { reply = reply; stored_offsets = [] }

abbrev pub stored_at : OkReply → List StoreOffset → BaseRelayEventWrite
stored_at reply offsets = record { reply = reply; stored_offsets = offsets }

-- What the library reads of an event beside its view: the length of its content, and whether its
-- id and its signature hold.
pub record EventReads : Type 0 where
  pub content_len : PocketEvent → ℕ
  pub verifies : PocketEvent → Bool

abbrev is_dash : List (Option Text) → Bool
is_dash [] = false
is_dash (none ∷ values) = false
is_dash (some value ∷ values) = eqb value (codes "-")

unfoldable pub is_pocket_nip70_protected_event : PocketEvent → Result BaseRelayError Bool
is_pocket_nip70_protected_event event = elim event.raw_tags [
  | none ↦ err invalid
  | some tags ↦ ok (any is_dash tags)
]

unfoldable pub pocket_event_id : PocketEvent → Result BaseRelayError EventId
pocket_event_id event = map_err error (new_event_id event.id_hex)

unfoldable pub pocket_event_pubkey : PocketEvent → Result BaseRelayError PublicKeyHex
pocket_event_pubkey event = map_err error (new_public_key event.pubkey_hex)

unfoldable pub pocket_event_kind : PocketEvent → Result BaseRelayError Kind
pocket_event_kind event = map_err error (new_kind event.kind_u32)

abbrev pub is_ephemeral : Kind → Bool
is_ephemeral kind = elim (kind_class kind) [ ephemeral ↦ true | _ ↦ false ]

module _ (reads : EventReads) where
  unfoldable pub validate_pocket_event_shape :
      PocketEvent → ℕ → ℕ → Result BaseRelayError (Unit {0})
  validate_pocket_event_shape event max_event_tags max_content_length = elim event.raw_tags [
    | none ↦ err invalid
    | some tags ↦
        if leb (length tags) max_event_tags
        then (if leb (reads.content_len event) max_content_length then ok tt else err invalid)
        else err invalid
  ]

  abbrev pub validate_pocket_event :
      BaseRelayLimits → PocketEvent → Result BaseRelayError (Unit {0})
  validate_pocket_event limits event =
      validate_pocket_event_shape event limits.max_event_tags limits.max_content_length

  unfoldable pub verify_pocket_event_signature : PocketEvent → Result BaseRelayError (Unit {0})
  verify_pocket_event_signature event = if reads.verifies event then ok tt else err invalid

-- What the checks before the store decide.
pub data Screening : Type 0 where
  screen_fails : BaseRelayError → Screening
  screen_rejects : OkMessage → Screening
  screen_passes : GroupEventClass → Screening

abbrev check_structure : Result GroupError GroupEventClass → Screening
check_structure (err e) = screen_rejects (group_error e)
check_structure (ok class) = screen_passes class

module _ (reads : EventReads) (limits : BaseRelayLimits) (group_limits : GroupLimitsConfig) where
  abbrev check_protected :
      PocketEvent → GroupAuthContext → PublicKeyHex → Result BaseRelayError Bool → Screening
  check_protected event auth pubkey (err e) = screen_fails e
  check_protected event auth pubkey (ok protected) =
      if protected && not (auth_contains auth pubkey)
      then screen_rejects (relay_error auth_required)
      else check_structure (validate_client_group_event_structure event group_limits)

  -- The checks in their order, up to the class of the event.
  unfoldable pub screen_client_event : PocketEvent → GroupAuthContext → Screening
  unfolding validate_pocket_event_shape verify_pocket_event_signature
  screen_client_event event auth = elim (validate_pocket_event reads limits event) [
    | err e ↦ screen_rejects (relay_error e)
    | ok shaped ↦ elim (verify_pocket_event_signature reads event) [
      | err e ↦ screen_rejects (relay_error e)
      | ok verified ↦ elim (pocket_event_pubkey event) [
        | err e ↦ screen_fails e
        | ok pubkey ↦ check_protected event auth pubkey (is_pocket_nip70_protected_event event)
      ]
    ]
  ]

module _ (pocket : Pocket) (sync_policy : PocketSyncPolicy) where
  abbrev pub Handled : Type 0
  Handled = Result BaseRelayError BaseRelayEventWrite × ServiceState pocket

  abbrev pub group_answer :
      EventId → Result GroupEventWriteError GroupEventWrite × ServiceState pocket → Handled
  group_answer id (ok (stored_write offsets), s) =
      (ok (stored_at (ok_accepted id nothing) offsets), s)
  group_answer id (ok duplicate_write, s) = (ok (unstored (ok_accepted id duplicate_event)), s)
  group_answer id (err (rejected e), s) = (ok (unstored (ok_rejected id (group_error e))), s)
  group_answer id (err (storage e), s) = (err e, s)

  abbrev pub group_limits_of : Option GroupService → GroupLimitsConfig
  group_limits_of none = default_group_limits
  group_limits_of (some service) = service.limits

  abbrev pub stored_answer :
      EventId → Result BaseRelayError StoreOffset × ServiceState pocket → Handled
  stored_answer id (err e, s) = (err e, s)
  stored_answer id (ok offset, s) = (ok (stored_at (ok_accepted id nothing) (offset ∷ [])), s)

  abbrev pub store_unless_stored :
      EventId
      → PocketEvent
      → ServiceState pocket
      → Result BaseRelayError (Option PocketEvent)
      → Handled
  store_unless_stored id event s (err e) = (err e, s)
  store_unless_stored id event s (ok (some stored)) =
      (ok (unstored (ok_accepted id duplicate_event)), s)
  store_unless_stored id event s (ok none) =
      stored_answer id (on_store pocket (store_event pocket sync_policy event) s)

  -- An event of no group.
  unfoldable pub store_plain_event : EventId → PocketEvent → ServiceState pocket → Handled
  store_plain_event id event s = elim (pocket_event_kind event) [
    | err e ↦ (err e, s)
    | ok kind ↦
        if is_ephemeral kind
        then (ok (unstored (ok_accepted id nothing)), s)
        else store_unless_stored id event s (event_by_id pocket event.id_hex s.database).0
  ]

  unfoldable pub store_group_event :
      Option GroupService
      → EventId
      → PocketEvent
      → GroupEventClass
      → GroupAuthContext
      → ServiceState pocket
      → Handled
  store_group_event none id event class auth s =
      (ok (unstored (ok_rejected id no_group_service)), s)
  store_group_event (some service) id event class auth s =
      group_answer id (store_group_pocket_event pocket sync_policy service event class auth s)

  abbrev pub store_screened :
      Option GroupService
      → EventId
      → PocketEvent
      → GroupAuthContext
      → ServiceState pocket
      → Screening
      → Handled
  store_screened groups id event auth s (screen_fails e) = (err e, s)
  store_screened groups id event auth s (screen_rejects message) =
      (ok (unstored (ok_rejected id message)), s)
  store_screened groups id event auth s (screen_passes class) =
      if is_non_group class
      then store_plain_event id event s
      else store_group_event groups id event class auth s

  -- `handle_pocket_event_with_group_auth_and_services`.
  unfoldable pub handle_pocket_event :
      EventReads
      → BaseRelayLimits
      → Option GroupService
      → PocketEvent
      → GroupAuthContext
      → ServiceState pocket
      → Handled
  unfolding screen_client_event store_plain_event store_group_event
  handle_pocket_event reads limits groups event auth s = elim (pocket_event_id event) [
    | err e ↦ (err e, s)
    | ok id ↦
        store_screened groups id event auth s
          (screen_client_event reads limits (group_limits_of groups) event auth)
  ]
