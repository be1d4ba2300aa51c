-- ===== src/Groups/Projection/Rebuild.antt =====
-- crates/tangle_groups/src/projection.rs: the rebuild of the projection from all stored events.
use tangle.Common.{
  ℕ, ◌+◌, Option, none, some, List, [], ◌∷◌, Result, ok, ◌>>=◌, geb, leb, if◌then◌else◌,
}
use tangle.Protocol.{UnixTimestamp}
use tangle.Groups.Errors.{GroupError}
use tangle.Groups.Config.{GroupLimitsConfig}
use tangle.Groups.EventView.{PocketEvent}
use tangle.Groups.Projection.{
  StoreOffset, ProjectionOrderTuple, tuple_ord, GroupProjection, new_projection, current_checkpoint,
}
use tangle.Groups.Projection.Apply.{
  ProjectionApplyOutcome, applied, ignored, skipped, apply_canonical_event,
}

pub record CanonicalGroupEvent : Type 0 where
  pub event : PocketEvent
  pub store_offset : StoreOffset

-- The source panics where the event's id is no event id. Pocket's ids print as 64 lowercase
-- hexadecimal digits, so that this does not occur.
abbrev pub canonical_tuple : CanonicalGroupEvent → ProjectionOrderTuple
canonical_tuple item = record {
  created_at = item.event.created_at;
  event_id = item.event.id_hex;
  store_offset = item.store_offset;
}

-- `sort_by_key`, which is stable.
unfoldable pub sort_insert :
    CanonicalGroupEvent → List CanonicalGroupEvent → List CanonicalGroupEvent
sort_insert x [] = x ∷ []
sort_insert x (y ∷ ys) =
    let rest = sort_insert x ys in
    if geb (canonical_tuple y) (canonical_tuple x) then x ∷ y ∷ ys else y ∷ rest

unfoldable pub sort_by_tuple : List CanonicalGroupEvent → List CanonicalGroupEvent
unfolding sort_insert
sort_by_tuple [] = []
sort_by_tuple (x ∷ xs) = sort_insert x (sort_by_tuple xs)

pub record ProjectionRebuildReport : Type 0 where
  pub projection : GroupProjection
  pub applied_events : ℕ
  pub ignored_events : ℕ
  pub skipped_events : ℕ
  pub last_offset : Option StoreOffset

abbrev pub empty_report : ProjectionRebuildReport
empty_report = record {
  projection = new_projection;
  applied_events = 0;
  ignored_events = 0;
  skipped_events = 0;
  last_offset = none;
}

abbrev pub max_offset : Option StoreOffset → StoreOffset → Option StoreOffset
max_offset none offset = some offset
max_offset (some current) offset = some (if leb current offset then offset else current)

abbrev pub count_outcome :
    ProjectionApplyOutcome → ProjectionRebuildReport → ProjectionRebuildReport
count_outcome applied r = record r { applied_events = r.applied_events + 1 }
count_outcome ignored r = record r { ignored_events = r.ignored_events + 1 }
count_outcome skipped r = record r { skipped_events = r.skipped_events + 1 }

-- The body of the loop.
unfoldable pub rebuild_step :
    GroupLimitsConfig
    → ProjectionRebuildReport
    → CanonicalGroupEvent
    → Result GroupError ProjectionRebuildReport
rebuild_step limits r item = do
  (projection, outcome) ← apply_canonical_event item.event item.store_offset limits r.projection
  ok (
      count_outcome outcome (record r {
        projection = projection;
        last_offset = max_offset r.last_offset item.store_offset;
      }))

unfoldable pub rebuild_loop :
    GroupLimitsConfig
    → ProjectionRebuildReport
    → List CanonicalGroupEvent
    → Result GroupError ProjectionRebuildReport
unfolding rebuild_step
rebuild_loop limits r [] = ok r
rebuild_loop limits r (item ∷ items) = do
  next ← rebuild_step limits r item
  rebuild_loop limits next items

unfoldable pub rebuild_group_projection :
    List CanonicalGroupEvent
    → GroupLimitsConfig
    → UnixTimestamp
    → Result GroupError ProjectionRebuildReport
unfolding sort_by_tuple rebuild_loop
rebuild_group_projection events limits rebuilt_at = do
  r ← rebuild_loop limits empty_report (sort_by_tuple events)
  let projection = r.projection
  ok (record r {
    projection = record projection {
      checkpoint = some (current_checkpoint r.last_offset rebuilt_at);
    };
  })
