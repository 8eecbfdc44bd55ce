-- ===== src/Extraction/Claims.antt =====
-- What a claim of pending entries returns.
use vici.Base.{
  ℕ, zero, suc, ◌≡◌, refl, ap, ◌∙◌, inl, inr, Bool, false, ◌||◌, some, List, [], ◌∷◌, arith, ltb,
  any_of, keep_if, take, Bool-cases, Option-cases,
}
use vici.Base.Floats.{Floats}
use vici.Store.{PineconeSyncQueue, Db}
use vici.Extraction.SyncQueue.{
  PendingJobEmbedding, has_id, insert_by_id, order_by_id, join_user, join_message, join_job, joined,
  claim_pending,
}

-- No id stands twice in the queue.
abbrev pub HasUniqueIds : List PineconeSyncQueue → Type 0
HasUniqueIds [] = Unit
HasUniqueIds (e ∷ es) = (any_of (has_id e.id) es ≡ false) × HasUniqueIds es

abbrev pub is_row_of : ℕ → PendingJobEmbedding → Bool
is_row_of i r = has_id i r.entry

-- No entry is claimed twice.
abbrev pub AreClaimedOnce : List PendingJobEmbedding → Type 0
AreClaimedOnce [] = Unit
AreClaimedOnce (r ∷ rs) = (any_of (is_row_of r.entry.id) rs ≡ false) × AreClaimedOnce rs

keep_if_stays_absent :
    {A : Type 0} (p q : A → Bool) (xs : List A)
    → any_of p xs ≡ false
    → any_of p (keep_if q xs) ≡ false
keep_if_stays_absent p q [] h = refl
keep_if_stays_absent p q (x ∷ xs) h = ground (arith, keep_if_stays_absent p q xs)

take_stays_absent :
    {A : Type 0} (p : A → Bool) (n : ℕ) (xs : List A)
    → any_of p xs ≡ false
    → any_of p (take n xs) ≡ false
take_stays_absent p zero xs h = refl
take_stays_absent p (suc n) [] h = refl
take_stays_absent p (suc n) (x ∷ xs) h = ground (arith, take_stays_absent p n xs)

pub keep_if-HasUniqueIds :
    (q : PineconeSyncQueue → Bool) (es : List PineconeSyncQueue)
    → HasUniqueIds es
    → HasUniqueIds (keep_if q es)
keep_if-HasUniqueIds q [] h = tt
keep_if-HasUniqueIds q (e ∷ es) h = elim (Bool-cases (q e)) [
  | inl kept ↦ rw kept (keep_if_stays_absent (has_id e.id) q es h.0, keep_if-HasUniqueIds q es h.1)
  | inr out ↦ rw out (keep_if-HasUniqueIds q es h.1)
]

any_of-insert_by_id :
    (p : PineconeSyncQueue → Bool) (e : PineconeSyncQueue) (es : List PineconeSyncQueue)
    → any_of p (insert_by_id e es) ≡ (p e || any_of p es)
unfolding insert_by_id
any_of-insert_by_id p e [] = refl
any_of-insert_by_id p e (d ∷ ds) = ground (arith, any_of-insert_by_id p e ds)

any_of-order_by_id :
    (p : PineconeSyncQueue → Bool) (es : List PineconeSyncQueue)
    → any_of p (order_by_id es) ≡ any_of p es
unfolding order_by_id
any_of-order_by_id p [] = refl
any_of-order_by_id p (e ∷ es) =
    any_of-insert_by_id p e (order_by_id es) ∙ ap (λ b. p e || b) (any_of-order_by_id p es)

differ : (e d : PineconeSyncQueue) → has_id e.id d ≡ false → has_id d.id e ≡ false
differ e d h = ground arith

insert_by_id-HasUniqueIds :
    (e : PineconeSyncQueue) (es : List PineconeSyncQueue)
    → any_of (has_id e.id) es ≡ false
    → HasUniqueIds es
    → HasUniqueIds (insert_by_id e es)
unfolding insert_by_id
insert_by_id-HasUniqueIds e [] f h = (refl, tt)
insert_by_id-HasUniqueIds e (d ∷ ds) f h = elim (Bool-cases (ltb e.id d.id)) [
  | inl first ↦ rw first (f, h)
  | inr later ↦ rw later (
    any_of-insert_by_id (has_id d.id) e ds ∙ ground (arith, differ e d, h.0),
    insert_by_id-HasUniqueIds e ds (ground arith) h.1,
  )
]

pub order_by_id-HasUniqueIds :
    (es : List PineconeSyncQueue) → HasUniqueIds es → HasUniqueIds (order_by_id es)
unfolding order_by_id
order_by_id-HasUniqueIds [] h = tt
order_by_id-HasUniqueIds (e ∷ es) h =
    insert_by_id-HasUniqueIds e (order_by_id es) (any_of-order_by_id (has_id e.id) es ∙ h.0)
      (order_by_id-HasUniqueIds es h.1)

take-AreClaimedOnce :
    (n : ℕ) (rs : List PendingJobEmbedding) → AreClaimedOnce rs → AreClaimedOnce (take n rs)
take-AreClaimedOnce zero rs h = tt
take-AreClaimedOnce (suc n) [] h = tt
take-AreClaimedOnce (suc n) (r ∷ rs) h =
    (take_stays_absent (is_row_of r.entry.id) n rs h.0, take-AreClaimedOnce n rs h.1)

module _ {fl : Floats} where
  -- A row of the join is about its entry.
  pub join_job-entry :
      (e : PineconeSyncQueue) (db : Db fl) (r : PendingJobEmbedding)
      → join_job e db ≡ some r
      → r.entry ≡ e
  unfolding join_job join_message join_user
  join_job-entry e db r h = ground arith

  joined_stays_absent :
      (i : ℕ) (es : List PineconeSyncQueue) (db : Db fl)
      → any_of (has_id i) es ≡ false
      → any_of (is_row_of i) (joined es db) ≡ false
  unfolding joined
  joined_stays_absent i [] db h = refl
  joined_stays_absent i (e ∷ es) db h = elim (Option-cases (join_job e db)) [
    | inl missing ↦ rw (missing, joined) (joined_stays_absent i es db (ground arith))
    | inr (r, found) ↦
        rw (found, joined)
          (rw (join_job-entry e db r found) (ground (arith, joined_stays_absent i es db)))
  ]

  joined-AreClaimedOnce :
      (es : List PineconeSyncQueue) (db : Db fl) → HasUniqueIds es → AreClaimedOnce (joined es db)
  unfolding joined
  joined-AreClaimedOnce [] db h = tt
  joined-AreClaimedOnce (e ∷ es) db h = elim (Option-cases (join_job e db)) [
    | inl missing ↦ rw (missing, joined) (joined-AreClaimedOnce es db h.1)
    | inr (r, found) ↦
        rw (found, joined)
          (
            rw (join_job-entry e db r found) (joined_stays_absent e.id es db h.0),
            joined-AreClaimedOnce es db h.1,
          )
  ]

  pub claim_pending-AreClaimedOnce :
      (locked : List ℕ) (limit : ℕ) (db : Db fl)
      → HasUniqueIds db.sync_queue
      → AreClaimedOnce (claim_pending locked limit db)
  unfolding claim_pending
  claim_pending-AreClaimedOnce locked limit db h = take-AreClaimedOnce limit (joined _ db) (
      joined-AreClaimedOnce _ db
        (order_by_id-HasUniqueIds _ (keep_if-HasUniqueIds _ db.sync_queue h)))
