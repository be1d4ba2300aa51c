-- ===== src/Runtime/GroupService/Counts.antt =====
-- The number of records that a replay has still to generate (groups.rs, outbox.rs).
use tangle.Common.{
  ℕ, ◌≤◌, ◌<◌, ◌≡◌, ◌∙◌, refl, sym, ap, inl, inr, Bool, true, false, ◌&&◌, some, [], ◌∷◌, filter,
  length, In, here, there, In-uncons, arith, get, insert, IsSorted, get-Above, Above-trans,
  insert-IsSorted, In-get, length-sort_by, nat_ord, pair_ord, option_ord, list_ord, cmp_cases,
}
use tangle.Groups.Outbox.{
  GroupOutboxKey, key_ord, GroupOutboxRecord, GroupOutbox, update, values, is_retryable, PlanFields,
  plan_fields, plan_sort, replay_plan_matching,
}
use tangle.Groups.Outbox.Distinct.{IsKeyed, IsWellFormed}
use tangle.Groups.Outbox.Plan.{In-replay_plan_matching}

insert-IsKeyed :
    (k : GroupOutboxKey) (r : GroupOutboxRecord) (outbox : GroupOutbox)
    → r.key ≡ k
    → IsKeyed outbox
    → IsKeyed (insert k r outbox)
unfolding insert
insert-IsKeyed k r [] e h = (e, tt)
insert-IsKeyed k r ((j, x) ∷ outbox) e (f, h) = elim (cmp_cases {K = GroupOutboxKey} k j) [
  | inl l ↦ rw (insert, l) (e, (f, h))
  | inr (inl q) ↦ rw (insert, q) (e, h)
  | inr (inr g) ↦ rw (insert, g) (f, insert-IsKeyed k r outbox e h)
]

pub update-IsWellFormed :
    (r : GroupOutboxRecord) (outbox : GroupOutbox)
    → IsWellFormed outbox
    → IsWellFormed (update r outbox)
update-IsWellFormed r outbox (s, k) =
    (insert-IsSorted r.key r outbox s, insert-IsKeyed r.key r outbox refl k)

pub In-values :
    (r : GroupOutboxRecord) (outbox : GroupOutbox)
    → IsKeyed outbox
    → In r (values outbox)
    → In {A = GroupOutboxKey × GroupOutboxRecord} (r.key, r) outbox
In-values r [] h n = elim n [ ]
In-values r ((k, x) ∷ outbox) (e, h) n = elim (In-uncons n) [
  | inl same ↦
      let key_same : k ≡ r.key = sym e ∙ ap (λ (y : GroupOutboxRecord). y.key) same in
      here (λ i. (key_same i, same i))
  | inr later ↦ there (In-values r outbox h later)
]

module _ (include : GroupOutboxRecord → Bool) where
  abbrev due : GroupOutboxRecord → Bool
  due r = is_retryable r && include r

  abbrev pub due_count : GroupOutbox → ℕ
  due_count outbox = length (filter due (values outbox))

  due_count-insert-le :
      (k : GroupOutboxKey) (r : GroupOutboxRecord) (outbox : GroupOutbox)
      → due r ≡ false
      → due_count (insert k r outbox) ≤ due_count outbox
  unfolding insert
  due_count-insert-le k r [] h = rw h (omega arith)
  due_count-insert-le k r ((j, x) ∷ outbox) h = elim (cmp_cases {K = GroupOutboxKey} k j) [
    | inl l ↦ rw (insert, l) (rw h (omega arith))
    | inr (inl q) ↦ rw (insert, q) (rw h (ground arith))
    | inr (inr g) ↦ rw (insert, g) (ground (arith, due_count-insert-le k r outbox h))
  ]

  due_count-insert-lt :
      (k : GroupOutboxKey) (r old : GroupOutboxRecord) (outbox : GroupOutbox)
      → IsSorted outbox
      → get k outbox ≡ some old
      → due old ≡ true
      → due r ≡ false
      → due_count (insert k r outbox) < due_count outbox
  unfolding insert get
  due_count-insert-lt k r old [] s found d h = absurd (cc found)
  due_count-insert-lt k r old ((j, x) ∷ outbox) (above, s) found d h =
      elim (cmp_cases {K = GroupOutboxKey} k j) [
        | inl l ↦ absurd (
            ground (
              arith,
              get-Above {K = GroupOutboxKey} k outbox
                  (Above-trans {K = GroupOutboxKey} k j outbox l above),
            ))
        | inr (inl q) ↦
            let same : x ≡ old = ground arith in rw (insert, q) (rw (h, same, d) (omega arith))
        | inr (inr g) ↦
            let rest : get k outbox ≡ some old = ground arith in
            rw (insert, g) (ground (arith, due_count-insert-lt k r old outbox s rest d h))
      ]

  pub due_count-update-le :
      (r : GroupOutboxRecord) (outbox : GroupOutbox)
      → is_retryable r ≡ false
      → due_count (update r outbox) ≤ due_count outbox
  due_count-update-le r outbox h = due_count-insert-le r.key r outbox (rw h refl)

  -- Settling a record of the plan leaves fewer to generate.
  pub due_count-update-lt :
      (r old : GroupOutboxRecord) (outbox : GroupOutbox)
      → IsWellFormed outbox
      → In old (replay_plan_matching include outbox)
      → r.key ≡ old.key
      → is_retryable r ≡ false
      → due_count (update r outbox) < due_count outbox
  due_count-update-lt r old outbox (s, k) planned same h =
      let (is_due, n) = In-replay_plan_matching include outbox old in
      let (value, chosen) = is_due planned in
      let entry = In-values old outbox k value in
      due_count-insert-lt r.key r old outbox s
        (rw same ((In-get {K = GroupOutboxKey} old.key old outbox s).0 entry)) chosen (rw h refl)

  pub length-replay_plan :
      (outbox : GroupOutbox) → length (replay_plan_matching include outbox) ≡ due_count outbox
  unfolding replay_plan_matching plan_sort
  length-replay_plan outbox =
      length-sort_by {K = PlanFields} plan_fields (filter due (values outbox))
