-- ===== src/Runtime/Live/Bounds.antt =====
-- The number of the subscriptions of a connection (relay/live.rs) under its operations.
use tangle.Common.{
  ℕ, ◌≤◌, ◌≡◌, refl, inl, inr, List, [], ◌∷◌, ok, err, arith, leb, get, IsSorted, insert-IsSorted,
  remove-IsSorted, length, length-insert, length-insert_present, length-remove-le, list_ord,
  nat_ord, Option-cases, Bool-cases,
}
use tangle.Protocol.{SubscriptionId}
use tangle.Runtime.Live.{
  LiveSubscriptionSet, new_set, no_filter, ensure_can_subscribe, subscribe, close, close_all,
}

pub data LiveOperation (F : Type 0) : Type 0 where
  subscribing : SubscriptionId → List F → LiveOperation F
  closing : SubscriptionId → LiveOperation F
  closing_all : LiveOperation F

module _ {F : Type 0} where
  -- A subscription that is refused leaves the set.
  unfoldable pub after_operation : LiveOperation F → LiveSubscriptionSet F → LiveSubscriptionSet F
  after_operation (subscribing id filters) s = elim (subscribe id filters s) [
    | ok t ↦ t
    | err e ↦ s
  ]
  after_operation (closing id) s = (close id s).0
  after_operation closing_all s = (close_all s).0

  unfoldable pub after_operations :
      List (LiveOperation F) → LiveSubscriptionSet F → LiveSubscriptionSet F
  unfolding after_operation
  after_operations [] s = s
  after_operations (operation ∷ operations) s =
      after_operations operations (after_operation operation s)

  pub record IsBounded (max : ℕ) (s : LiveSubscriptionSet F) : Type 0 where
    pub sorted : IsSorted s.subscriptions
    pub bounded : length s.subscriptions ≤ max
    pub fixed : s.max_subscriptions ≡ max

  subscribe-IsBounded :
      (max : ℕ) (id : SubscriptionId) (filters : List F) (s : LiveSubscriptionSet F)
      → IsBounded max s
      → IsBounded max (after_operation (subscribing id filters) s)
  unfolding after_operation subscribe ensure_can_subscribe
  subscribe-IsBounded max id filters s b = elim (Bool-cases (no_filter filters)) [
    | inl e ↦ rw (after_operation, subscribe, ensure_can_subscribe, e) b
    | inr e ↦ elim (Option-cases (get id s.subscriptions)) [
      | inr (old, present) ↦
          rw (after_operation, subscribe, ensure_can_subscribe, e, present)
            (record {
              sorted = insert-IsSorted id filters s.subscriptions b.sorted;
              bounded =
                  ground
                    (arith, length-insert_present id filters old s.subscriptions b.sorted present);
              fixed = b.fixed;
            })
      | inl absent ↦ elim (Bool-cases (leb s.max_subscriptions (length s.subscriptions))) [
        | inl full ↦ rw (after_operation, subscribe, ensure_can_subscribe, e, absent, full) b
        | inr room ↦
            rw (after_operation, subscribe, ensure_can_subscribe, e, absent, room)
              (record {
                sorted = insert-IsSorted id filters s.subscriptions b.sorted;
                bounded = ground (arith, length-insert id filters s.subscriptions);
                fixed = b.fixed;
              })
      ]
    ]
  ]

  operation-IsBounded :
      (max : ℕ) (operation : LiveOperation F) (s : LiveSubscriptionSet F)
      → IsBounded max s
      → IsBounded max (after_operation operation s)
  unfolding after_operation close close_all
  operation-IsBounded max (subscribing id filters) s b = subscribe-IsBounded max id filters s b
  operation-IsBounded max (closing id) s b = record {
    sorted = remove-IsSorted id s.subscriptions b.sorted;
    bounded = ground (arith, length-remove-le id s.subscriptions);
    fixed = b.fixed;
  }
  operation-IsBounded max closing_all s b = record {
    sorted = tt;
    bounded = ground arith;
    fixed = b.fixed;
  }

  operations-IsBounded :
      (max : ℕ) (operations : List (LiveOperation F)) (s : LiveSubscriptionSet F)
      → IsBounded max s
      → IsBounded max (after_operations operations s)
  unfolding after_operations
  operations-IsBounded max [] s b = b
  operations-IsBounded max (operation ∷ operations) s b =
      operations-IsBounded max operations (after_operation operation s)
        (operation-IsBounded max operation s b)

  -- Whatever a client subscribes to and closes, its connection never holds more subscriptions than
  -- the bound it was made with.
  pub subscriptions_bounded :
      (pending max : ℕ) (fresh : LiveSubscriptionSet F) (operations : List (LiveOperation F))
      → new_set pending max ≡ ok fresh
      → length (after_operations operations fresh).subscriptions ≤ max
  unfolding new_set
  subscriptions_bounded pending max fresh operations made =
      let empty : fresh ≡ record { subscriptions = []; max_subscriptions = max } = ground arith in
      (operations-IsBounded max operations fresh
        (rw empty (record { sorted = tt; bounded = ground arith; fixed = refl }))).bounded
