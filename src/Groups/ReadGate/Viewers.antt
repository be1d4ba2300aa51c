-- ===== src/Groups/ReadGate/Viewers.antt =====
-- Which of the keys of a connection decides on an event.
use tangle.Common.{
  ◌≡◌, refl, ◌≢◌, ◌⊎◌, inl, inr, ◌↔◌, true, Option, none, some, ok, err, List, [], ◌∷◌, arith,
  Result-cases, list_ord, nat_ord, In, here, there, In-uncons, ◌≡◌, List-cases, >>=-eq-ok,
}
use tangle.Protocol.{EventId, PublicKeyHex}
use tangle.Groups.Errors.{GroupError}
use tangle.Groups.Config.{GroupLimitsConfig}
use tangle.Groups.EventView.{PocketEvent}
use tangle.Groups.Classification.{
  GroupEventClass, non_group, normal, moderation, relay_generated_snapshot,
}
use tangle.Groups.WriteGate.{GroupAuthContext}
use tangle.Groups.ReadGate.{
  GroupReadGate, GroupReadDecision, visible, hidden, screen_snapshot_event, screen_normal_event,
  screen_delete_group_marker, screen_class, screen_event, visible_to_any, event_visible_to_auth,
}
use tangle.Groups.ReadGate.Spec.{MayRead}
use tangle.Groups.ReadGate.Decides.{read_sound, read_complete}

module _ (gate : GroupReadGate) (event : PocketEvent) (limits : GroupLimitsConfig) where
  class-ne-err :
      (id : EventId) (reader : Option PublicKeyHex) (class : GroupEventClass) (e : GroupError)
      → screen_class gate event id reader class ≢ err e
  unfolding screen_class screen_normal_event screen_snapshot_event screen_delete_group_marker
  class-ne-err id reader non_group e h = cc
  class-ne-err id reader (normal g) e h = ground arith
  class-ne-err id reader (moderation kind g) e h = ground arith
  class-ne-err id reader (relay_generated_snapshot kind g) e h = ground arith

  -- Whether the screening fails does not depend on the reader.
  screen-no-err :
      (a b : Option PublicKeyHex) (e : GroupError)
      → screen_event gate event a limits ≡ ok visible
      → screen_event gate event b limits ≢ err e
  unfolding screen_event
  screen-no-err a b e h k =
      let m = read_sound gate event limits a h in ground (arith, class-ne-err m.id b m.class e)

  decision_cases : (decision : GroupReadDecision) → (decision ≡ visible) ⊎ (decision ≡ hidden)
  decision_cases visible = inl refl
  decision_cases hidden = inr refl

  any_sound :
      (keys : List PublicKeyHex)
      → visible_to_any gate event keys limits ≡ ok true
      → (key : PublicKeyHex) × In key keys × MayRead gate event limits (some key)
  unfolding visible_to_any
  any_sound [] h = cc
  any_sound (key ∷ keys) h =
      let (decision, shown, rest) = >>=-eq-ok (screen_event gate event (some key) limits) _ h in
      elim (decision_cases decision) [
        | inl v ↦ (key, here refl, read_sound gate event limits (some key) cc)
        | inr v ↦ let (k, i, m) = any_sound keys (rw v at rest) in (k, there i, m)
      ]

  any_complete :
      (keys : List PublicKeyHex) (key : PublicKeyHex)
      → In key keys
      → MayRead gate event limits (some key)
      → visible_to_any gate event keys limits ≡ ok true
  unfolding visible_to_any
  any_complete [] key i m = elim i [ ]
  any_complete (first ∷ keys) key i m =
      elim (Result-cases (screen_event gate event (some first) limits)) [
        | inr (e, failed) ↦ absurd (
            screen-no-err (some key) (some first) e (read_complete gate event limits (some key) m)
              failed)
        | inl (decision, shown) ↦ elim (decision_cases decision) [
          | inl v ↦ ground arith
          | inr v ↦ elim (In-uncons i) [
            | inl same ↦ absurd (ground (arith, read_complete gate event limits (some key) m))
            | inr later ↦ ground (arith, any_complete keys key later m)
          ]
        ]
      ]

  -- Some reader of the connection sees the event: the anonymous one when none authenticated.
  abbrev pub IsShown : GroupAuthContext → Type 0
  IsShown auth =
      ((auth.authenticated_pubkeys ≡ []) × MayRead gate event limits none)
      ⊎ ((key : PublicKeyHex) × In key auth.authenticated_pubkeys
          × MayRead gate event limits (some key))

  visitors_sound :
      (auth : GroupAuthContext)
      → event_visible_to_auth gate event auth limits ≡ ok true
      → IsShown auth
  unfolding event_visible_to_auth
  visitors_sound auth h = elim (List-cases auth.authenticated_pubkeys) [
    | inl empty ↦
        let (decision, shown, rest) =
          >>=-eq-ok (screen_event gate event none limits) _ (rw empty at h) in
        elim (decision_cases decision) [
          | inl v ↦ inl (empty, read_sound gate event limits none cc)
          | inr v ↦ absurd (ground arith)
        ]
    | inr (key, keys, e) ↦ inr (rw e (any_sound (key ∷ keys) (rw e at h)))
  ]

  visitors_complete :
      (auth : GroupAuthContext)
      → IsShown auth
      → event_visible_to_auth gate event auth limits ≡ ok true
  unfolding event_visible_to_auth
  visitors_complete auth (inl (empty, m)) =
      rw empty (ground (arith, read_complete gate event limits none m))
  visitors_complete auth (inr (key, i, m)) = elim (List-cases auth.authenticated_pubkeys) [
    | inl empty ↦ absurd (elim (rw empty at i) [ ])
    | inr (first, keys, e) ↦ rw e (any_complete (first ∷ keys) key (rw e at i) m)
  ]

  -- A stored event is shown on a connection exactly when one of its authenticated keys may read it,
  -- or the anonymous reader may and no key authenticated; a reader whom the gate hides the event
  -- from does not stop the search.
  pub event_visible_to_auth_iff :
      (auth : GroupAuthContext)
      → (event_visible_to_auth gate event auth limits ≡ ok true) ↔ IsShown auth
  event_visible_to_auth_iff auth = (visitors_sound auth, visitors_complete auth)
