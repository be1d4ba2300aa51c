-- ===== src/Groups/Outbox.antt =====
-- crates/tangle_groups/src/outbox.rs: the records of the events that the relay has to generate.
pub mod Merges
pub mod Distinct
pub mod Plan
pub mod Documents
use tangle.Common.{
  ℕ, ◌≡◌, refl, ap, Bool, true, false, ◌&&◌, Option, none, some, List, [], ◌∷◌, map, Result, ok,
  err, ◌>>=◌, ◌>>◌, Text, codes, String, Ord, Ord_by, nat_ord, pair_ord, option_ord, list_ord, eqb,
  geb, if◌then◌else◌, ◌==◌, BTreeMap, get, insert, filter, sort_by,
}
use tangle.Protocol.{
  EventId, PublicKeyHex, UnixTimestamp, saturating_add, u32_max, new_event_id, new_public_key,
}
use tangle.Groups.Errors.{GroupError, internal, map_err}
use tangle.Groups.Ids.{GroupId, new_group_id}

pub data GroupOutboxEffect : Type 0 where
  metadata_snapshot admin_list_snapshot member_list_snapshot role_list_snapshot : GroupOutboxEffect
  state_39004_snapshot join_accepted leave_accepted : GroupOutboxEffect

-- The derived order is that of the declaration.
abbrev pub effect_rank : GroupOutboxEffect → ℕ
effect_rank metadata_snapshot = 0
effect_rank admin_list_snapshot = 1
effect_rank member_list_snapshot = 2
effect_rank role_list_snapshot = 3
effect_rank state_39004_snapshot = 4
effect_rank join_accepted = 5
effect_rank leave_accepted = 6

abbrev effect_of_rank : ℕ → GroupOutboxEffect
effect_of_rank n =
    if n == 0
    then metadata_snapshot
    else if n == 1
    then admin_list_snapshot
    else if n == 2
    then member_list_snapshot
    else if n == 3
    then role_list_snapshot
    else if n == 4
    then state_39004_snapshot
    else if n == 5
    then join_accepted
    else leave_accepted

effect_of_rank-effect_rank : (e : GroupOutboxEffect) → effect_of_rank (effect_rank e) ≡ e
effect_of_rank-effect_rank metadata_snapshot = refl
effect_of_rank-effect_rank admin_list_snapshot = refl
effect_of_rank-effect_rank member_list_snapshot = refl
effect_of_rank-effect_rank role_list_snapshot = refl
effect_of_rank-effect_rank state_39004_snapshot = refl
effect_of_rank-effect_rank join_accepted = refl
effect_of_rank-effect_rank leave_accepted = refl

pub effect_rank-injective : (a b : GroupOutboxEffect) → effect_rank a ≡ effect_rank b → a ≡ b
effect_rank-injective a b e =
    cc (ap effect_of_rank e, effect_of_rank-effect_rank a, effect_of_rank-effect_rank b)

abbrev pub effect_str : GroupOutboxEffect → Text
effect_str metadata_snapshot = codes "metadata_snapshot"
effect_str admin_list_snapshot = codes "admin_list_snapshot"
effect_str member_list_snapshot = codes "member_list_snapshot"
effect_str role_list_snapshot = codes "role_list_snapshot"
effect_str state_39004_snapshot = codes "state_39004_snapshot"
effect_str join_accepted = codes "join_accepted"
effect_str leave_accepted = codes "leave_accepted"

-- The match on the labels, tried in the order of the source.
unfoldable pub find_effect : Text → List GroupOutboxEffect → Result GroupError GroupOutboxEffect
find_effect value [] = err internal
find_effect value (e ∷ effects) =
    if eqb value (effect_str e) then ok e else find_effect value effects

unfoldable pub effect_from_label : Text → Result GroupError GroupOutboxEffect
unfolding find_effect
effect_from_label value = find_effect value (
    metadata_snapshot ∷ admin_list_snapshot ∷ member_list_snapshot ∷ role_list_snapshot
    ∷ state_39004_snapshot ∷ join_accepted ∷ leave_accepted ∷ [])

pub record GroupOutboxKey : Type 0 where
  pub source_event_id : EventId
  pub effect : GroupOutboxEffect
  pub group_id : GroupId
  pub target_pubkey : Option PublicKeyHex

abbrev pub key_fields : GroupOutboxKey → EventId × (ℕ × (GroupId × Option PublicKeyHex))
key_fields k = (k.source_event_id, (effect_rank k.effect, (k.group_id, k.target_pubkey)))

pub key_fields-injective : (a b : GroupOutboxKey) → key_fields a ≡ key_fields b → a ≡ b
key_fields-injective a b e =
    let same =
      effect_rank-injective a.effect b.effect
        (ap (λ (x : EventId × (ℕ × (GroupId × Option PublicKeyHex))). x.1.0) e) in
    λ i. record {
      source_event_id = (e i).0;
      effect = same i;
      group_id = (e i).1.1.0;
      target_pubkey = (e i).1.1.1;
    }

instance unfoldable pub key_ord : Ord GroupOutboxKey
key_ord = Ord_by pair_ord key_fields key_fields-injective

pub data GroupOutboxStatus : Type 0 where
  pending : GroupOutboxStatus
  stored : (generated_event_id : EventId) → GroupOutboxStatus
  skipped : (reason : Text) → GroupOutboxStatus
  failed : (retryable : Bool) → GroupOutboxStatus

pub record GroupOutboxPayload : Type 0 where
  pub generated_kind : ℕ
  pub generated_created_at : UnixTimestamp
  pub tags : List (List Text)
  pub content : Text

abbrev pub payload_eq : GroupOutboxPayload → GroupOutboxPayload → Bool
payload_eq a b =
    a.generated_kind == b.generated_kind
    && a.generated_created_at == b.generated_created_at
    && eqb a.tags b.tags
    && eqb a.content b.content

pub record GroupOutboxRecord : Type 0 where
  pub key : GroupOutboxKey
  pub status : GroupOutboxStatus
  pub payload : GroupOutboxPayload
  pub attempts : ℕ
  pub last_error : Option Text

abbrev pub pending_record : GroupOutboxKey → GroupOutboxPayload → GroupOutboxRecord
pending_record key payload = record {
  key = key;
  status = pending;
  payload = payload;
  attempts = 0;
  last_error = none;
}

abbrev pub mark_stored : EventId → GroupOutboxRecord → GroupOutboxRecord
mark_stored generated_event_id r = record r {
  status = stored generated_event_id;
  last_error = none;
}

abbrev pub mark_skipped : Text → GroupOutboxRecord → GroupOutboxRecord
mark_skipped reason r = record r { status = skipped reason }

abbrev pub mark_failed : Bool → Text → GroupOutboxRecord → GroupOutboxRecord
mark_failed retryable error r = record r {
  status = failed retryable;
  attempts = saturating_add u32_max r.attempts 1;
  last_error = some error;
}

abbrev pub is_retryable_status : GroupOutboxStatus → Bool
is_retryable_status pending = true
is_retryable_status (stored _) = false
is_retryable_status (skipped _) = false
is_retryable_status (failed retryable) = retryable

abbrev pub is_retryable : GroupOutboxRecord → Bool
is_retryable r = is_retryable_status r.status

abbrev pub GroupOutbox : Type 0
GroupOutbox = BTreeMap GroupOutboxKey GroupOutboxRecord

unfoldable pub merge_idempotent :
    GroupOutboxRecord → GroupOutbox → Result GroupError (GroupOutbox × Bool)
merge_idempotent r records = elim (get r.key records) [
  | none ↦ ok (insert r.key r records, true)
  | some existing ↦
      if payload_eq existing.payload r.payload then ok (records, false) else err internal
]

abbrev pub update : GroupOutboxRecord → GroupOutbox → GroupOutbox
update r records = insert r.key r records

-- The comparison of the replay plan: the fields of a record in the order of the `then_with`.
abbrev pub PlanFields : Type 0
PlanFields = GroupId × (UnixTimestamp × (EventId × (ℕ × Option PublicKeyHex)))

abbrev pub plan_fields : GroupOutboxRecord → PlanFields
plan_fields r = (
  r.key.group_id,
  (
    r.payload.generated_created_at,
    (r.key.source_event_id, (effect_rank r.key.effect, r.key.target_pubkey)),
  ),
)

unfoldable pub plan_sort : List GroupOutboxRecord → List GroupOutboxRecord
plan_sort = sort_by {K = PlanFields} plan_fields

abbrev pub values : GroupOutbox → List GroupOutboxRecord
values [] = []
values ((k, r) ∷ records) = r ∷ values records

unfoldable pub replay_plan_matching :
    (GroupOutboxRecord → Bool) → GroupOutbox → List GroupOutboxRecord
unfolding plan_sort
replay_plan_matching include records =
    plan_sort (filter (λ r. is_retryable r && include r) (values records))

abbrev pub replay_plan : GroupOutbox → List GroupOutboxRecord
replay_plan = replay_plan_matching (λ r. true)

abbrev pub replay_plan_for_group : GroupId → GroupOutbox → List GroupOutboxRecord
replay_plan_for_group group_id = replay_plan_matching (λ r. eqb r.key.group_id group_id)

-- The document of a key.
pub record GroupOutboxKeyDocument : Type 0 where
  pub source_event_id : Text
  pub effect : Text
  pub group_id : Text
  pub target_pubkey : Option Text

abbrev pub from_key : GroupOutboxKey → GroupOutboxKeyDocument
from_key k = record {
  source_event_id = k.source_event_id;
  effect = effect_str k.effect;
  group_id = k.group_id;
  target_pubkey = k.target_pubkey;
}

abbrev pub optional_pubkey : Option Text → Result GroupError (Option PublicKeyHex)
optional_pubkey none = ok none
optional_pubkey (some value) = do pubkey ← map_err internal (new_public_key value); ok (some pubkey)

unfoldable pub into_key : GroupOutboxKeyDocument → Result GroupError GroupOutboxKey
unfolding effect_from_label
into_key document = do
  source_event_id ← map_err internal (new_event_id document.source_event_id)
  effect ← effect_from_label document.effect
  group_id ← new_group_id document.group_id
  target_pubkey ← optional_pubkey document.target_pubkey
  ok (record {
    source_event_id = source_event_id;
    effect = effect;
    group_id = group_id;
    target_pubkey = target_pubkey;
  })
