-- ===== src/Groups/Projection/Deletion.antt =====
-- The tombstones of deleted groups under further events.
use tangle.Common.{
  ◌≡◌, true, Option, none, some, ok, List, [], ◌∷◌, arith, geb, geb_self, geb_trans, list_ord,
  nat_ord, >>=-eq-ok,
}
use tangle.Groups.Config.{GroupLimitsConfig}
use tangle.Groups.Ids.{GroupId}
use tangle.Groups.Projection.{tuple_ord, GroupTombstone, GroupProjection, tombstone_of}
use tangle.Groups.Projection.Apply.{ProjectionApplyOutcome, apply_canonical_event}
use tangle.Groups.Projection.Rebuild.{
  CanonicalGroupEvent, ProjectionRebuildReport, rebuild_step, rebuild_loop,
}
use tangle.Groups.Projection.Registers.{put_update, put_latest_grows}
use tangle.Groups.Projection.Effects.{tombstones_effect}
use tangle.Groups.Projection.Updates.{tombstone_update}

-- Every tombstone of the first projection is in the second, or one that is not older.
abbrev pub Buries : GroupProjection → GroupProjection → Type 0
Buries p q =
    (g : GroupId) (t : GroupTombstone)
    → tombstone_of p g ≡ some t
    → (u : GroupTombstone) × (tombstone_of q g ≡ some u) × (geb u.last_tuple t.last_tuple ≡ true)

pub Buries-of_eq : (p q : GroupProjection) → q.tombstones ≡ p.tombstones → Buries p q
Buries-of_eq p q e g t h = (t, rw e h, geb_self t.last_tuple)

pub Buries-trans : (p q r : GroupProjection) → Buries p q → Buries q r → Buries p r
Buries-trans p q r a b g t h =
    let (u, found, newer) = a g t h in
    let (v, found', newer') = b g u found in
    (v, found', geb_trans v.last_tuple u.last_tuple t.last_tuple newer' newer)

put_update-Buries :
    (p q : GroupProjection) (u : Option (GroupId × GroupTombstone))
    → q.tombstones ≡ put_update (λ (t : GroupTombstone). t.last_tuple) u p.tombstones
    → Buries p q
put_update-Buries p q none e g t h = Buries-of_eq p q e g t h
put_update-Buries p q (some (k, v)) e g t h =
    rw e (put_latest_grows (λ (x : GroupTombstone). x.last_tuple) k g v t p.tombstones h)

pub event-Buries :
    (l : GroupLimitsConfig) (item : CanonicalGroupEvent) (p q : GroupProjection)
    (o : ProjectionApplyOutcome)
    → apply_canonical_event item.event item.store_offset l p ≡ ok (q, o)
    → Buries p q
event-Buries l item p q o h =
    put_update-Buries p q (tombstone_update l item) (tombstones_effect l item p q o h)

-- A tombstone is there after any further events, and it is the same one or one of a delete event
-- that is not older.
pub loop-Buries :
    (l : GroupLimitsConfig) (items : List CanonicalGroupEvent) (from to : ProjectionRebuildReport)
    → rebuild_loop l from items ≡ ok to
    → Buries from.projection to.projection
unfolding rebuild_loop rebuild_step
loop-Buries l [] from to e = Buries-of_eq from.projection to.projection cc
loop-Buries l (item ∷ items) from to e =
    let (next, stepped, rest) = >>=-eq-ok (rebuild_step l from item) _ e in
    let ((q, o), done, counted) =
      >>=-eq-ok (apply_canonical_event item.event item.store_offset l from.projection) _ stepped in
    let same : next.projection ≡ q = ground arith in
    Buries-trans from.projection next.projection to.projection
      (rw same (event-Buries l item from.projection q o done)) (loop-Buries l items next to rest)
