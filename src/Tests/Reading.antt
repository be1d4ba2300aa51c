-- ===== src/Tests/Reading.antt =====
-- The read gate on concrete groups.
use tangle.Common.{◌≡◌, ◌≢◌, ◌↔◌, refl, true, false, none, some, List, [], ◌∷◌, ok, codes}
use tangle.Groups.Metadata.{unspecified_all}
use tangle.Groups.EventView.{PocketEvent, event_id}
use tangle.Groups.Projection.{GroupState, GroupTombstone, group_of, tombstone_of, new_group_state}
use tangle.Groups.Projection.Rebuild.{CanonicalGroupEvent, empty_report, rebuild_loop}
use tangle.Groups.Classification.{normal, moderation, class_group_id, classify_group_event}
use tangle.Groups.WriteGate.{GroupAuthContext}
use tangle.Groups.ReadGate.{
  GroupReadGate, visible, hidden, reader_can_read, screen_snapshot_event, screen_normal_event,
  screen_delete_group_marker, screen_class, screen_event, visible_to_any, event_visible_to_auth,
}
use tangle.Groups.ReadGate.Spec.{MayRead}
use tangle.Groups.ReadGate.Decides.{screen_event_iff}
use tangle.Groups.ReadGate.Viewers.{IsShown, event_visible_to_auth_iff}
use tangle.Groups.ReadGate.Privacy.{hidden_group_unseen, deleted_group_unseen}
use tangle.Tests.{
  projecting, limits, created, admitted, erased, farm, owner, guest, report_of, farm_event,
}

unfoldable pub reading : Unit {0}
unfolding projecting reader_can_read screen_snapshot_event screen_normal_event
    screen_delete_group_marker screen_class screen_event visible_to_any event_visible_to_auth
reading = tt

abbrev pub gate_after : List CanonicalGroupEvent → GroupReadGate
unfolding projecting
gate_after items = record {
  projection = (report_of (rebuild_loop limits empty_report items)).projection;
  authority = record { owner_pubkeys = owner ∷ []; admin_pubkeys = [] };
}

abbrev pub note : PocketEvent
note = farm_event b'9' 11 50 owner []

abbrev pub both : GroupAuthContext
both = record { authenticated_pubkeys = owner ∷ guest ∷ [] }

abbrev pub before : GroupReadGate
before = gate_after (created ∷ [])

abbrev after : GroupReadGate
after = gate_after (created ∷ erased ∷ [])

-- `created` makes a hidden group.
visibility_tests :
    (screen_event before note none limits ≡ ok hidden)
    × (screen_event before note (some guest) limits ≡ ok hidden)
    × (screen_event before note (some owner) limits ≡ ok visible)
    × (screen_event (gate_after (created ∷ admitted ∷ [])) note (some guest) limits ≡ ok visible)
    × (screen_event after erased.event (some owner) limits ≡ ok visible)
    × (screen_event after note (some owner) limits ≡ ok hidden)
    × (event_visible_to_auth before note both limits ≡ ok true)
unfolding reading
visibility_tests = (refl, refl, refl, refl, refl, refl, refl)

screen_event_iff_example :
    (screen_event before note (some owner) limits ≡ ok visible)
    ↔ MayRead before note limits (some owner)
screen_event_iff_example = screen_event_iff before note limits (some owner)

event_visible_to_auth_iff_example :
    (event_visible_to_auth before note both limits ≡ ok true) ↔ IsShown before note limits both
event_visible_to_auth_iff_example = event_visible_to_auth_iff before note limits both

abbrev farm_state : GroupState
unfolding reading
farm_state =
    new_group_state farm
      (record {
        name = some (codes "Farm");
        picture = none;
        about = none;
        private = false;
        restricted = false;
        hidden = true;
        closed = false;
        supported_kinds = unspecified_all;
      })
      owner created.event.id_hex
      (record { created_at = 10; event_id = created.event.id_hex; store_offset = 1 })

classified : classify_group_event note limits ≡ ok (normal farm)
unfolding reading
classified = refl

classed : class_group_id (normal farm) ≡ some farm
unfolding reading
classed = refl

found : group_of before.projection farm ≡ some farm_state
unfolding reading
found = refl

is_hidden : farm_state.metadata.hidden ≡ true
unfolding reading
is_hidden = refl

outside : reader_can_read before farm (some guest) ≡ false
unfolding reading
outside = refl

hidden_group_unseen_example : screen_event before note (some guest) limits ≢ ok visible
hidden_group_unseen_example =
    hidden_group_unseen before note limits (some guest) (normal farm) farm classified classed
      farm_state found is_hidden outside

abbrev erased_tombstone : GroupTombstone
erased_tombstone = record {
  group_id = farm;
  delete_event_id = erased.event.id_hex;
  deleted_at = 40;
  deleted_by = owner;
  last_tuple = record { created_at = 40; event_id = erased.event.id_hex; store_offset = 4 };
}

erased_class : classify_group_event erased.event limits ≡ ok (moderation 9008 farm)
unfolding reading
erased_class = refl

erased_group : class_group_id (moderation 9008 farm) ≡ some farm
unfolding reading
erased_group = refl

buried : tombstone_of after.projection farm ≡ some erased_tombstone
unfolding reading
buried = refl

marker_shown : screen_event after erased.event (some owner) limits ≡ ok visible
unfolding reading
marker_shown = refl

deleted_group_unseen_example : event_id erased.event ≡ ok erased_tombstone.delete_event_id
deleted_group_unseen_example =
    deleted_group_unseen after erased.event limits (some owner) (moderation 9008 farm) farm
      erased_class erased_group erased_tombstone buried marker_shown
