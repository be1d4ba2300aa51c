-- ===== src/Groups/Outbox/Merges.antt =====
-- Merges into the outbox (outbox.rs), one after another.
use tangle.Common.{
  ◌≡◌, inl, inr, Bool, some, List, [], ◌∷◌, Result, ok, err, arith, eqb_iff, get, get-insert,
  Result-cases, nat_ord, pair_ord, option_ord, list_ord,
}
use tangle.Groups.Errors.{GroupError}
use tangle.Groups.Outbox.{GroupOutboxKey, key_ord, GroupOutboxRecord, GroupOutbox, merge_idempotent}

-- A merge that is refused leaves the outbox.
abbrev pub outbox_after : GroupOutbox → Result GroupError (GroupOutbox × Bool) → GroupOutbox
outbox_after outbox (ok (next, _)) = next
outbox_after outbox (err _) = outbox

unfoldable pub merge_all : List GroupOutboxRecord → GroupOutbox → GroupOutbox
merge_all [] outbox = outbox
merge_all (r ∷ records) outbox = merge_all records (outbox_after outbox (merge_idempotent r outbox))

pub merge_keeps :
    (r existing : GroupOutboxRecord) (k : GroupOutboxKey) (outbox next : GroupOutbox) (new : Bool)
    → get k outbox ≡ some existing
    → merge_idempotent r outbox ≡ ok (next, new)
    → get k next ≡ some existing
unfolding merge_idempotent
merge_keeps r existing k outbox next new found h =
    ground (
      arith,
      get-insert {K = GroupOutboxKey} r.key k r outbox,
      eqb_iff {A = GroupOutboxKey} k r.key,
    )

-- A record of the outbox stays as it is, its status included, whatever records are merged: the
-- effects of a source event that is processed again are not generated again.
pub merge_all_keeps :
    (records : List GroupOutboxRecord) (existing : GroupOutboxRecord) (k : GroupOutboxKey)
    (outbox : GroupOutbox)
    → get k outbox ≡ some existing
    → get k (merge_all records outbox) ≡ some existing
unfolding merge_all
merge_all_keeps [] existing k outbox found = found
merge_all_keeps (r ∷ records) existing k outbox found =
    merge_all_keeps records existing k (outbox_after outbox (merge_idempotent r outbox))
      (elim (Result-cases (merge_idempotent r outbox)) [
        | inr (x, e) ↦ rw e found
        | inl ((next, new), e) ↦ rw e (merge_keeps r existing k outbox next new found e)
      ])
