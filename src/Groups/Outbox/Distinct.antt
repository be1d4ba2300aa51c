-- ===== src/Groups/Outbox/Distinct.antt =====
-- The records of an outbox have different keys, also in a plan of them.
use tangle.Common.{
  ◌≡◌, ◌≢◌, refl, inl, inr, ◌↔◌, Bool, true, List, All, IsSorted, Above, ◌∙◌, subst, sorted_insert,
  sort_by, In-sorted_insert, geb, [], ◌∷◌, In, here, there, In-uncons, sym, ap, filter, Bool-cases,
  In-sort_by, nat_ord, pair_ord, option_ord, list_ord,
}
use tangle.Groups.Outbox.{
  GroupOutboxKey, key_ord, GroupOutboxRecord, GroupOutbox, PlanFields, plan_fields, values,
}

pub In-filter :
    (p : GroupOutboxRecord → Bool) (a : GroupOutboxRecord) (xs : List GroupOutboxRecord)
    → In a (filter p xs) ↔ (In a xs × (p a ≡ true))
In-filter p a [] = (λ m. elim m [ ], λ (m, e). elim m [ ])
In-filter p a (x ∷ xs) =
    let (into, from) = In-filter p a xs in
    elim (Bool-cases (p x)) [
      | inl e ↦ rw e (
        λ m. elim (In-uncons m) [
          | inl same ↦ (here same, rw (sym same) e)
          | inr old ↦ let (i, f) = into old in (there i, f)
        ],
        λ (m, f). elim (In-uncons m) [ inl same ↦ here same | inr old ↦ there (from (old, f)) ],
      )
      | inr e ↦ rw e (
        λ m. let (i, f) = into m in (there i, f),
        λ (m, f). elim (In-uncons m) [
          | inl same ↦ absurd (cc (ap p same, e, f))
          | inr old ↦ from (old, f)
        ],
      )
    ]

-- Every record stands under its key, and the keys stand in order.
abbrev pub IsKeyed : GroupOutbox → Type 0
IsKeyed outbox = All (λ (entry : GroupOutboxKey × GroupOutboxRecord). entry.1.key ≡ entry.0) outbox

abbrev pub IsWellFormed : GroupOutbox → Type 0
IsWellFormed outbox = IsSorted outbox × IsKeyed outbox

-- No two records have the same key.
abbrev pub IsDistinct : List GroupOutboxRecord → Type 0
IsDistinct [] = Unit
IsDistinct (r ∷ records) =
    All (λ (q : GroupOutboxRecord). r.key ≢ q.key) records × IsDistinct records

All-filter :
    (P : GroupOutboxRecord → Type 0) (p : GroupOutboxRecord → Bool) (xs : List GroupOutboxRecord)
    → All P xs
    → All P (filter p xs)
All-filter P p [] a = tt
All-filter P p (x ∷ xs) (h, a) = elim (Bool-cases (p x)) [
  | inl e ↦ rw e (h, All-filter P p xs a)
  | inr e ↦ rw e (All-filter P p xs a)
]

pub filter-IsDistinct :
    (p : GroupOutboxRecord → Bool) (xs : List GroupOutboxRecord)
    → IsDistinct xs
    → IsDistinct (filter p xs)
filter-IsDistinct p [] d = tt
filter-IsDistinct p (x ∷ xs) (a, d) = elim (Bool-cases (p x)) [
  | inl e ↦ rw e (All-filter _ p xs a, filter-IsDistinct p xs d)
  | inr e ↦ rw e (filter-IsDistinct p xs d)
]

pub All-In :
    (P : GroupOutboxRecord → Type 0) (xs : List GroupOutboxRecord)
    → ((x : GroupOutboxRecord) → In x xs → P x)
    → All P xs
All-In P [] h = tt
All-In P (x ∷ xs) h = (h x (here refl), All-In P xs (λ y m. h y (there m)))

In-All :
    (P : GroupOutboxRecord → Type 0) (x : GroupOutboxRecord) (xs : List GroupOutboxRecord)
    → All P xs
    → In x xs
    → P x
In-All P x [] a m = elim m [ ]
In-All P x (y ∷ xs) (h, a) m = elim (In-uncons m) [
  | inl same ↦ subst P same h
  | inr later ↦ In-All P x xs a later
]

sorted_insert-IsDistinct :
    (x : GroupOutboxRecord) (xs : List GroupOutboxRecord)
    → All (λ (q : GroupOutboxRecord). x.key ≢ q.key) xs
    → IsDistinct xs
    → IsDistinct (sorted_insert {K = PlanFields} plan_fields x xs)
unfolding sorted_insert
sorted_insert-IsDistinct x [] a d = (tt, tt)
sorted_insert-IsDistinct x (y ∷ ys) (n, a) (b, d) =
    elim (Bool-cases (geb {A = PlanFields} (plan_fields y) (plan_fields x))) [
      | inl e ↦ rw (sorted_insert, e) ((n, a), (b, d))
      | inr e ↦
          rw (sorted_insert, e)
            (
              All-In _ (sorted_insert {K = PlanFields} plan_fields x ys) (λ q m.
                  elim ((In-sorted_insert {K = PlanFields} plan_fields q x ys).0 m) [
                    | inl new ↦ λ same. n (ap (λ (z : GroupOutboxRecord). z.key) new ∙ sym same)
                    | inr old ↦ In-All (λ (z : GroupOutboxRecord). y.key ≢ z.key) q ys b old
                  ]),
              sorted_insert-IsDistinct x ys a d,
            )
    ]

pub sort_by-IsDistinct :
    (xs : List GroupOutboxRecord)
    → IsDistinct xs
    → IsDistinct (sort_by {K = PlanFields} plan_fields xs)
unfolding sort_by
sort_by-IsDistinct [] d = tt
sort_by-IsDistinct (x ∷ xs) (a, d) =
    sorted_insert-IsDistinct x (sort_by {K = PlanFields} plan_fields xs)
      (All-In _ (sort_by {K = PlanFields} plan_fields xs) (λ q m.
        In-All (λ (z : GroupOutboxRecord). x.key ≢ z.key) q xs a
          ((In-sort_by {K = PlanFields} plan_fields q xs).0 m)))
      (sort_by-IsDistinct xs d)

Above-values :
    (k : GroupOutboxKey) (outbox : GroupOutbox)
    → Above k outbox
    → IsKeyed outbox
    → All (λ (q : GroupOutboxRecord). k ≢ q.key) (values outbox)
Above-values k [] a e = tt
Above-values k ((j, r) ∷ outbox) (l, a) (e, f) =
    (λ same. cc ((key_ord.cmp_eq k j).1 (same ∙ e), l), Above-values k outbox a f)

pub values-IsDistinct : (outbox : GroupOutbox) → IsWellFormed outbox → IsDistinct (values outbox)
values-IsDistinct [] w = tt
values-IsDistinct ((k, r) ∷ outbox) ((a, s), (e, f)) =
    (rw e (Above-values k outbox a f), values-IsDistinct outbox (s, f))
