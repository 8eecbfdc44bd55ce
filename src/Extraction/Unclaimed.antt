-- ===== src/Extraction/Unclaimed.antt =====
-- The pending entries that a claim without foreign locks leaves behind.
use vici.Base.{
  ℕ, zero, suc, ◌-◌, ◌≡◌, refl, sym, ap, subst, ◌∙◌, Bool, true, false, not, ◌&&◌, none, some, List,
  [], ◌∷◌, ◌∈◌, inl, inr, arith, any_of, count_if, keep_if, take, Bool-cases, Option-cases,
}
use vici.Base.Floats.{Floats}
use vici.Base.Members.{any_of_of_mem, keep_if-congr, count_if-congr, count_if-keep_if}
use vici.Store.{PineconeSyncQueue, Db}
use vici.Extraction.SyncQueue.{
  PendingJobEmbedding, is_pending, has_id, insert_by_id, order_by_id, join_job, joined,
  claim_pending,
}
use vici.Extraction.Claims.{HasUniqueIds, is_row_of, join_job-entry}

count_if-insert_by_id :
    (p : PineconeSyncQueue → Bool) (e : PineconeSyncQueue) (es : List PineconeSyncQueue)
    → count_if p (insert_by_id e es) ≡ count_if p (e ∷ es)
unfolding insert_by_id
count_if-insert_by_id p e [] = refl
count_if-insert_by_id p e (d ∷ ds) = ground (arith, count_if-insert_by_id p e ds)

count_if-order_by_id :
    (p : PineconeSyncQueue → Bool) (es : List PineconeSyncQueue)
    → count_if p (order_by_id es) ≡ count_if p es
unfolding order_by_id
count_if-order_by_id p [] = refl
count_if-order_by_id p (e ∷ es) =
    ground (arith, count_if-order_by_id p es, count_if-insert_by_id p e (order_by_id es))

abbrev pub is_claimed : List PendingJobEmbedding → PineconeSyncQueue → Bool
is_claimed rows e = any_of (is_row_of e.id) rows

-- Beside one claimed row, the others of an entry's claim are those of the rest.
is_claimed-cons :
    (row : PendingJobEmbedding) (rows : List PendingJobEmbedding) (e d : PineconeSyncQueue)
    (es : List PineconeSyncQueue)
    → row.entry ≡ e
    → any_of (has_id e.id) es ≡ false
    → d ∈ es
    → is_claimed (row ∷ rows) d ≡ is_claimed rows d
is_claimed-cons row rows e d es own once m = rw own (elim (Bool-cases (has_id d.id e)) [
  | inl same ↦ absurd (cc (any_of_of_mem (has_id e.id) d es m (ground arith), once))
  | inr other ↦ rw other refl
])

module _ {fl : Floats} where
  unfoldable pub is_joined : Db fl → PineconeSyncQueue → Bool
  is_joined db e = elim (join_job e db) [ some row ↦ true | none ↦ false ]

  missing_out : (e : PineconeSyncQueue) (db : Db fl) → join_job e db ≡ none → is_joined db e ≡ false
  unfolding is_joined
  missing_out e db missing = rw (missing, is_joined) refl

  found_in :
      (e : PineconeSyncQueue) (db : Db fl) (row : PendingJobEmbedding)
      → join_job e db ≡ some row
      → is_joined db e ≡ true
  unfolding is_joined
  found_in e db row found = rw (found, is_joined) refl

  joined-missing :
      (e : PineconeSyncQueue) (es : List PineconeSyncQueue) (db : Db fl)
      → join_job e db ≡ none
      → joined (e ∷ es) db ≡ joined es db
  unfolding joined
  joined-missing e es db missing = rw missing refl

  joined-found :
      (e : PineconeSyncQueue) (es : List PineconeSyncQueue) (db : Db fl) (row : PendingJobEmbedding)
      → join_job e db ≡ some row
      → joined (e ∷ es) db ≡ row ∷ joined es db
  unfolding joined
  joined-found e es db row found = rw found refl

  -- Of entries without a common id, all that join but the first n are left unclaimed.
  pub count_unclaimed :
      (n : ℕ) (es : List PineconeSyncQueue) (db : Db fl) (rows : List PendingJobEmbedding)
      → joined es db ≡ rows
      → HasUniqueIds es
      → count_if (λ e. is_joined db e && not (is_claimed (take n rows) e)) es
        ≡ count_if (is_joined db) es - n
  count_unclaimed n [] db rows r h = ground arith
  count_unclaimed zero (e ∷ es) db rows r h =
      ground (arith, count_unclaimed 0 es db (joined es db) refl h.1)
  count_unclaimed (suc n) (e ∷ es) db rows r h = elim (Option-cases (join_job e db)) [
    | inl missing ↦
        rw (missing_out e db missing)
          (count_unclaimed (suc n) es db rows (sym (joined-missing e es db missing) ∙ r) h.1)
    | inr (row, found) ↦
        let own : row.entry ≡ e = join_job-entry e db row found in
        let rest = take n (joined es db) in
        let others =
          count_if-congr (λ d. is_joined db d && not (is_claimed (row ∷ rest) d))
            (λ d. is_joined db d && not (is_claimed rest d)) es
            (λ d m.
              ap (λ b. is_joined db d && not b) (is_claimed-cons row rest e d es own h.0 m)) in
        subst
          (λ l.
            count_if (λ d. is_joined db d && not (is_claimed (take (suc n) l) d)) (e ∷ es)
            ≡ count_if (is_joined db) (e ∷ es) - suc n)
          (sym (joined-found e es db row found) ∙ r)
          (rw (found_in e db row found, own)
            (ground (arith, others, count_unclaimed n es db (joined es db) refl h.1)))
  ]

  -- The pending entries in the order in which they are claimed.
  abbrev pub pending_entries : Db fl → List PineconeSyncQueue
  pending_entries db = order_by_id (keep_if is_pending db.sync_queue)

  pub claim_pending_unlocked :
      (limit : ℕ) (db : Db fl)
      → claim_pending [] limit db ≡ take limit (joined (pending_entries db) db)
  unfolding claim_pending
  claim_pending_unlocked limit db =
      ap (λ l. take limit (joined (order_by_id l) db))
        (keep_if-congr (λ e. is_pending e && true) is_pending db.sync_queue (λ e m. ground arith))

  pub count_if-pending_entries :
      (p : PineconeSyncQueue → Bool) (db : Db fl)
      → count_if p (pending_entries db) ≡ count_if (λ e. is_pending e && p e) db.sync_queue
  count_if-pending_entries p db =
      count_if-order_by_id p (keep_if is_pending db.sync_queue)
      ∙ count_if-keep_if p is_pending db.sync_queue
