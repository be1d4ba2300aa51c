-- ===== src/Groups/ReadGate/Decides.antt =====
-- The read gate (read_gate.rs) against its specification.
use tangle.Common.{
  ◌≡◌, refl, ◌⊎◌, inl, inr, ◌↔◌, Option, ok, arith, Option-cases, Bool-cases, Result-cases, eqb,
  eqb_iff, list_ord, nat_ord, ◌≡◌, ◌==◌, >>=-eq-ok,
}
use tangle.Protocol.{EventId, PublicKeyHex, Kind}
use tangle.Groups.Config.{GroupLimitsConfig}
use tangle.Groups.Ids.{GroupId}
use tangle.Groups.Kinds.{delete_group}
use tangle.Groups.EventView.{PocketEvent, event_id}
use tangle.Groups.Classification.{
  GroupEventClass, non_group, normal, moderation, relay_generated_snapshot, classify_group_event,
}
use tangle.Groups.Projection.{group_of, tombstone_of, event_deletion_of}
use tangle.Groups.ReadGate.{
  GroupReadGate, visible, screen_snapshot_event, screen_normal_event, screen_delete_group_marker,
  screen_class, screen_event,
}
use tangle.Groups.ReadGate.Spec.{ReadsGroup, ReadsMarker, ReadsSnapshot, MayReadClass, MayRead}

module _ (gate : GroupReadGate) where
  reads_complete :
      (g : GroupId) (reader : Option PublicKeyHex)
      → ReadsGroup gate g reader
      → screen_normal_event gate g reader ≡ ok visible
  unfolding screen_normal_event
  reads_complete g reader m = ground arith

  reads_sound :
      (g : GroupId) (reader : Option PublicKeyHex)
      → screen_normal_event gate g reader ≡ ok visible
      → ReadsGroup gate g reader
  unfolding screen_normal_event
  reads_sound g reader h = elim (Option-cases (group_of gate.projection g)) [
    | inl n ↦ absurd (ground arith)
    | inr (group, e) ↦ record {
      group = group;
      found = e;
      unburied = ground arith;
      admits = ground arith;
    }
  ]

  snapshot_complete :
      (kind : Kind) (g : GroupId) (reader : Option PublicKeyHex)
      → ReadsSnapshot gate kind g reader
      → screen_snapshot_event gate kind g reader ≡ ok visible
  unfolding screen_snapshot_event
  snapshot_complete kind g reader m = ground arith

  snapshot_sound :
      (kind : Kind) (g : GroupId) (reader : Option PublicKeyHex)
      → screen_snapshot_event gate kind g reader ≡ ok visible
      → ReadsSnapshot gate kind g reader
  unfolding screen_snapshot_event
  snapshot_sound kind g reader h = elim (Option-cases (group_of gate.projection g)) [
    | inl n ↦ absurd (ground arith)
    | inr (group, e) ↦ record {
      group = group;
      found = e;
      unburied = ground arith;
      admits = ground arith;
    }
  ]

  marker_complete :
      (id : EventId) (g : GroupId) (reader : Option PublicKeyHex)
      → ReadsGroup gate g reader ⊎ ReadsMarker gate id g reader
      → screen_delete_group_marker gate id g reader ≡ ok visible
  unfolding screen_delete_group_marker
  marker_complete id g reader (inl m) = ground (arith, reads_complete g reader m)
  marker_complete id g reader (inr m) =
      ground (arith, eqb_iff {A = EventId} m.tombstone.delete_event_id id)

  marker_sound :
      (id : EventId) (g : GroupId) (reader : Option PublicKeyHex)
      → screen_delete_group_marker gate id g reader ≡ ok visible
      → ReadsGroup gate g reader ⊎ ReadsMarker gate id g reader
  unfolding screen_delete_group_marker
  marker_sound id g reader h = elim (Option-cases (group_of gate.projection g)) [
    | inl n ↦ absurd (ground arith)
    | inr (group, e) ↦ elim (Option-cases (tombstone_of gate.projection g)) [
      | inl n ↦ inl (reads_sound g reader (ground arith))
      | inr (t, et) ↦ elim (Bool-cases (eqb {A = EventId} t.delete_event_id id)) [
        | inr other ↦ inl (reads_sound g reader (ground arith))
        | inl marks ↦ inr (record {
          group = group;
          found = e;
          tombstone = t;
          buried = et;
          marks = (eqb_iff {A = EventId} t.delete_event_id id).0 marks;
          admits = ground arith;
        })
      ]
    ]
  ]

  class_sound :
      (event : PocketEvent) (id : EventId) (reader : Option PublicKeyHex) (class : GroupEventClass)
      → screen_class gate event id reader class ≡ ok visible
      → MayReadClass gate event id reader class
  unfolding screen_class
  class_sound event id reader non_group h = tt
  class_sound event id reader (normal g) h = reads_sound g reader h
  class_sound event id reader (moderation kind g) h =
      elim (Bool-cases (event.kind_u32 == delete_group)) [
        | inr k ↦ inl (reads_sound g reader (rw k at h))
        | inl k ↦ elim (marker_sound id g reader (rw k at h)) [
          | inl m ↦ inl m
          | inr m ↦ inr (ground arith, m)
        ]
      ]
  class_sound event id reader (relay_generated_snapshot kind g) h = snapshot_sound kind g reader h

  class_complete :
      (event : PocketEvent) (id : EventId) (reader : Option PublicKeyHex) (class : GroupEventClass)
      → MayReadClass gate event id reader class
      → screen_class gate event id reader class ≡ ok visible
  unfolding screen_class
  class_complete event id reader non_group m = refl
  class_complete event id reader (normal g) m = reads_complete g reader m
  class_complete event id reader (moderation kind g) (inl m) =
      ground (arith, reads_complete g reader m, marker_complete id g reader (inl m))
  class_complete event id reader (moderation kind g) (inr (k, m)) =
      ground (arith, marker_complete id g reader (inr m))
  class_complete event id reader (relay_generated_snapshot kind g) m =
      snapshot_complete kind g reader m

  module _ (event : PocketEvent) (limits : GroupLimitsConfig) where
    pub read_sound :
        (reader : Option PublicKeyHex)
        → screen_event gate event reader limits ≡ ok visible
        → MayRead gate event limits reader
    unfolding screen_event
    read_sound reader h =
        let (id, id_of, rest) = >>=-eq-ok (event_id event) _ h in
        elim (Option-cases (event_deletion_of gate.projection id)) [
          | inr (d, deletion) ↦ absurd (ground arith)
          | inl kept ↦ elim (Result-cases (classify_group_event event limits)) [
            | inr (x, e) ↦ absurd (ground arith)
            | inl (class, e) ↦ record {
              id = id;
              class = class;
              id_of = id_of;
              kept = kept;
              class_of = e;
              permitted = class_sound event id reader class (ground arith);
            }
          ]
        ]

    pub read_complete :
        (reader : Option PublicKeyHex)
        → MayRead gate event limits reader
        → screen_event gate event reader limits ≡ ok visible
    unfolding screen_event
    read_complete reader m = ground (arith, class_complete event m.id reader m.class m.permitted)

    -- The read gate shows an event to a reader exactly when the specification allows it: the event
    -- was not deleted, and its group is there, has no tombstone and is open to the reader.
    pub screen_event_iff :
        (reader : Option PublicKeyHex)
        → (screen_event gate event reader limits ≡ ok visible) ↔ MayRead gate event limits reader
    screen_event_iff reader = (read_sound reader, read_complete reader)
