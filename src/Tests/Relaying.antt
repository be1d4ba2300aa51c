-- ===== src/Tests/Relaying.antt =====
-- The counters of resources, a query and the handling of an event on concrete inputs.
use tangle.Common.{
  ◌≤◌, ◌≡◌, ◌∙◌, ◌==◌, refl, inl, inr, Bool, true, false, Option, some, List, [], ◌∷◌, ok, err,
  arith, any, contains, In, In-uncons, here, subst, sym, list_ord, nat_ord, sort_by, add, ap,
}
use tangle.Protocol.{u32_max, u64_max, kind_class}
use tangle.Groups.EventView.{PocketEvent}
use tangle.Groups.WriteGate.{
  validate_client_group_event_structure, require_indexed_tag_value, require_valid_p_tag,
  validate_moderation_targets,
}
use tangle.Groups.Tags.{ensure_group_tag_limit, group_identity_tag_count}
use tangle.Runtime.ResourceLimits.{
  Resources, new_resources, attempt, check_count, load, acquire, Reach, start, follow, first,
}
use tangle.Runtime.ResourceLimits.Interleaved.{IsCounted, Reach-IsCounted}
use tangle.Runtime.Relay.{
  PocketFilter, BaseRelayLimits, new_limits, tag_value_count, tag_score, pocket_filter_complexity,
  complexity_score, validate_pocket_query_complexity, validate_pocket_filter, validate_each,
  validate_pocket_filters,
}
use tangle.Runtime.Relay.Queries.{
  Search, Screen, Screened, PocketScreenResult, match, mismatch, redacted, GroupReads,
  BaseRelayEventQueryReport, dedupe, sort_and_dedupe_query_events, pocket_filter_with_limit_mode,
  screen, query_filter_events_report, query_loop, query_events_report,
}
use tangle.Runtime.Relay.Bounded.{query_events_report_bounded}
use tangle.Runtime.Relay.Visible.{ReturnsMatches, AnswersOne, query_events_report_visible}
use tangle.Runtime.Relay.Ordered.{
  IsNewestFirst, NoRepeats, Covered, sort_and_dedupe_query_events_lem,
}
use tangle.Runtime.Relay.Events.{
  BaseRelayEventWrite, EventReads, group_answer, unstored, ok_rejected, group_error,
  is_pocket_nip70_protected_event, pocket_event_id, pocket_event_pubkey, pocket_event_kind,
  validate_pocket_event_shape, verify_pocket_event_signature, screen_client_event,
  store_plain_event, store_group_event, handle_pocket_event,
}
use tangle.Runtime.GroupService.Writes.{rejected, store_group_pocket_event}
use tangle.Runtime.Relay.Answers.{handle_pocket_event-rejected}
use tangle.Runtime.Store.{flush_on_write}
use tangle.Groups.Errors.{invalid, group_already_exists}
use tangle.Tests.Writing.{logged_in}
use tangle.Tests.Serving.{serving, in_memory, service, creation, after_creation}
use tangle.Tests.{sixty_four, limits, created, guest, farm_event}
use tangle.Tests.Reading.{reading, note, both, before}

unfoldable pub relaying : Unit {0}
unfolding reading attempt check_count new_limits tag_value_count tag_score pocket_filter_complexity
    complexity_score validate_pocket_query_complexity validate_pocket_filter validate_each
    validate_pocket_filters dedupe sort_and_dedupe_query_events pocket_filter_with_limit_mode screen
    query_filter_events_report query_loop query_events_report sort_by add contains
relaying = tt

unfoldable handling : Unit {0}
unfolding relaying is_pocket_nip70_protected_event pocket_event_id pocket_event_pubkey
    pocket_event_kind validate_pocket_event_shape verify_pocket_event_signature screen_client_event
    store_plain_event store_group_event handle_pocket_event kind_class
    validate_client_group_event_structure ensure_group_tag_limit group_identity_tag_count
    require_indexed_tag_value require_valid_p_tag validate_moderation_targets
handling = tt

-- A thread loads the counter, and takes three of five.
abbrev three_taken : Resources
three_taken = record { active = 3; trying = []; permits = 3 ∷ [] }

three_taken_reached : Reach 5 new_resources three_taken
unfolding relaying
three_taken_reached =
    follow _ three_taken (follow new_resources _ start (load new_resources 3 refl))
      (acquire _ (record { amount = 3; current = 0 }) [] 3 (first []) refl)

Reach-IsCounted_example : IsCounted 5 three_taken
Reach-IsCounted_example = Reach-IsCounted 5 three_taken (omega arith) three_taken_reached

abbrev pub settings : BaseRelayLimits
settings = record {
  max_pending_events = 10;
  max_subscription_id_length = 64;
  max_subscriptions = 5;
  max_filters_per_request = 3;
  max_tag_values_per_filter = 4;
  max_query_complexity = 30;
  max_event_tags = 10;
  max_content_length = 100;
  max_limit = 20;
  default_limit = 10;
}

abbrev pub notes : PocketFilter
notes = record {
  ids = [];
  authors = [];
  kinds = 11 ∷ [];
  tags = some [];
  since = 0;
  until = u64_max;
  limit = u32_max;
}

settings_test : (new_limits settings ≡ ok settings) × (pocket_filter_complexity settings notes ≡ 12)
unfolding relaying
settings_test = (refl, refl)

-- A search that screens every event of a list.
abbrev pub collect :
    PocketEvent
    → Screened × PocketScreenResult
    → (Screened → Screened × List PocketEvent × Bool)
    → Screened × List PocketEvent × Bool
collect event (cells, match) go =
    let (after, events, denied) = go cells in (after, event ∷ events, denied)
collect event (cells, mismatch) go = go cells
collect event (cells, redacted) go = let (after, events, denied) = go cells in (after, events, true)

abbrev pub search_list : List PocketEvent → Screen → Screened → Screened × List PocketEvent × Bool
search_list [] test cells = (cells, [], false)
search_list (event ∷ events) test cells = collect event (test cells event) (search_list events test)

abbrev pub older : PocketEvent
older = farm_event b'8' 11 40 guest []

abbrev pub search : Search
search = record {
  find_events =
      λ filter test cells. some (search_list (older ∷ note ∷ created.event ∷ []) test cells);
  event_matches = λ filter event. some (any (λ kind. kind == event.kind_u32) filter.kinds);
  new_filter = λ filter. some filter;
}

module _ (test : Screen) (event : PocketEvent) where
  abbrev Matched : Type 0
  Matched = (found : Screened) × ((test found event).1 ≡ match)

  abbrev second : Screened × PocketScreenResult → PocketScreenResult
  second (cells, result) = result

  abbrev ListsMatched : (Screened → Screened × List PocketEvent × Bool) → Type 0
  ListsMatched go = (cells : Screened) → In event (go cells).1 → Matched

  collect-ListsMatched :
      (x : PocketEvent) (cells : Screened) (made : Screened × PocketScreenResult)
      (go : Screened → Screened × List PocketEvent × Bool)
      → test cells x ≡ made
      → ListsMatched go
      → In event (collect x made go).1
      → Matched
  collect-ListsMatched x cells (after, match) go e h n = elim (In-uncons n) [
    | inl same ↦ (cells, rw (← same) (ap second e))
    | inr later ↦ h after later
  ]
  collect-ListsMatched x cells (after, mismatch) go e h n = h after n
  collect-ListsMatched x cells (after, redacted) go e h n = h after n

  search_list-ListsMatched :
      (events : List PocketEvent) (cells : Screened)
      → In event (search_list events test cells).1
      → Matched
  search_list-ListsMatched [] cells n = elim n [ ]
  search_list-ListsMatched (x ∷ events) cells n =
      collect-ListsMatched x cells (test cells x) (search_list events test) refl
        (search_list-ListsMatched events) n

pub search-ReturnsMatches : ReturnsMatches search
search-ReturnsMatches filter test cells after events denied event e n =
    let listed = older ∷ note ∷ created.event ∷ [] in
    let same : search_list listed test cells ≡ (after, events, denied) = cc e in
    search_list-ListsMatched test event listed cells
      (subst (λ (r : Screened × List PocketEvent × Bool). In event r.1) (sym same) n)

abbrev pub reads_groups : Option GroupReads
reads_groups = some (record { gate = before; group_limits = limits })

abbrev ten : PocketFilter
ten = record notes { limit = 10 }

abbrev pub answer : BaseRelayEventQueryReport
answer = record {
  events = note ∷ older ∷ [];
  group_read_denied = false;
  query_metrics = record { candidates_scanned = 3; returned_events = 2; redacted_events = 0 };
}

answered : query_events_report search reads_groups both settings (notes ∷ []) ≡ ok answer
unfolding relaying
answered = refl

notes_valid : validate_pocket_filters settings (notes ∷ []) ≡ ok tt
unfolding relaying
notes_valid = refl

query_events_report_bounded_example : 2 ≤ 30
query_events_report_bounded_example =
    query_events_report_bounded settings search reads_groups both (notes ∷ []) answer (omega arith)
      notes_valid answered

query_events_report_visible_example :
    AnswersOne search reads_groups both search-ReturnsMatches settings (notes ∷ []) note
query_events_report_visible_example =
    query_events_report_visible search reads_groups both search-ReturnsMatches settings (notes ∷ [])
      answer note answered (here refl)

sort_and_dedupe_query_events_lem_example :
    IsNewestFirst (sort_and_dedupe_query_events (older ∷ note ∷ older ∷ []))
    × NoRepeats (sort_and_dedupe_query_events (older ∷ note ∷ older ∷ []))
    × ((event : PocketEvent)
        → In event (older ∷ note ∷ older ∷ [])
        → Covered event.id_hex (sort_and_dedupe_query_events (older ∷ note ∷ older ∷ [])))
sort_and_dedupe_query_events_lem_example =
    sort_and_dedupe_query_events_lem (older ∷ note ∷ older ∷ [])

abbrev verifies_all : EventReads
verifies_all = record { content_len = λ event. 0; verifies = λ event. true }

abbrev refusal : BaseRelayEventWrite
refusal = unstored (ok_rejected (sixty_four b'1') (group_error (invalid group_already_exists)))

handed_over :
    handle_pocket_event in_memory flush_on_write verifies_all settings
      (some service)
      created.event
      logged_in
      after_creation
    ≡ group_answer in_memory flush_on_write (sixty_four b'1') (
        store_group_pocket_event in_memory flush_on_write service created.event creation logged_in
          after_creation)
unfolding handling
handed_over = refl

not_created_again :
    store_group_pocket_event in_memory flush_on_write service created.event creation logged_in
      after_creation
    ≡ (err (rejected (invalid group_already_exists)), after_creation)
unfolding serving
not_created_again = refl

refused_again :
    handle_pocket_event in_memory flush_on_write verifies_all settings
      (some service)
      created.event
      logged_in
      after_creation
    ≡ (ok refusal, after_creation)
refused_again =
    handed_over ∙ ap (group_answer in_memory flush_on_write (sixty_four b'1')) not_created_again

handle_pocket_event-rejected_example :
    (after_creation ≡ after_creation) × (refusal.stored_offsets ≡ [])
handle_pocket_event-rejected_example =
    handle_pocket_event-rejected in_memory flush_on_write verifies_all settings (some service)
      created.event logged_in after_creation after_creation refusal refused_again refl
