-- ===== src/Gauges/Readings.antt =====
-- What a gauge shows after a reading and the failures that follow it.
use vici.Base.{
  ℕ, suc, ◌+◌, ◌≡◌, refl, sym, subst, Option, none, some, List, [], ◌∷◌, ◌++◌, arith, All, length,
  ltb, if◌then◌else◌,
}
use vici.Base.Int.{ℤ, pos, negsuc}
use vici.Base.Floats.{Floats}
use vici.Gauges.{
  gauge_max_consecutive_failures, Gauges, Poll, record_gauge_failure, backlog_of, depth_of,
  poll_gauges_once, update_gauges,
}

-- The two gauges.
pub data Which : Type 0 where
  depth backlog : Which

abbrev failures_of : Which → Gauges → ℕ
failures_of depth g = g.health.db_failures
failures_of backlog g = g.health.temporal_failures

abbrev shown : Which → Gauges → ℤ
shown depth g = g.pinecone_sync_queue_depth
shown backlog g = g.temporal_queue_depth

-- `k` failures after the reading `v`.
abbrev pub Shows : Which → ℕ → ℤ → Gauges → Type 0
Shows which k v g =
    (failures_of which g ≡ k)
    × (shown which g ≡ (if ltb gauge_max_consecutive_failures k then negsuc 0 else v))

module _ {fl : Floats} where
  -- What a poll reads for a gauge.
  abbrev reads : Which → Poll fl → Option ℕ
  reads depth p = depth_of p.db
  reads backlog p = backlog_of p.versions_info

  update_gauges-append :
      (ps qs : List (Poll fl)) (g : Gauges)
      → update_gauges (ps ++ qs) g ≡ update_gauges qs (update_gauges ps g)
  unfolding update_gauges
  update_gauges-append [] qs g = refl
  update_gauges-append (p ∷ ps) qs g = update_gauges-append ps qs (poll_gauges_once p g)

  poll_read :
      (which : Which) (p : Poll fl) (v : ℕ) (g : Gauges)
      → reads which p ≡ some v
      → Shows which 0 (pos v) (poll_gauges_once p g)
  unfolding poll_gauges_once record_gauge_failure
  poll_read depth p v g h = ground arith
  poll_read backlog p v g h = ground arith

  poll_failed :
      (which : Which) (p : Poll fl) (k : ℕ) (v : ℤ) (g : Gauges)
      → reads which p ≡ none
      → Shows which k v g
      → Shows which (suc k) v (poll_gauges_once p g)
  unfolding poll_gauges_once record_gauge_failure
  poll_failed depth p k v g h s = ground arith
  poll_failed backlog p k v g h s = ground arith

  polls_failed :
      (which : Which) (fails : List (Poll fl)) (k : ℕ) (v : ℤ) (g : Gauges)
      → All (λ p. reads which p ≡ none) fails
      → Shows which k v g
      → Shows which (k + length fails) v (update_gauges fails g)
  unfolding update_gauges
  polls_failed which [] k v g h s = subst (λ n. Shows which n v g) (omega arith) s
  polls_failed which (p ∷ fails) k v g h s =
      let rest =
        polls_failed which fails (suc k) v (poll_gauges_once p g) h.1
          (poll_failed which p k v g h.0 s) in
      let same : suc k + length fails ≡ k + suc (length fails) = omega arith in
      subst (λ n. Shows which n v (update_gauges fails (poll_gauges_once p g))) same rest

  -- After a reading and polls that all fail for the gauge, whatever came before and whatever the other
  -- gauge reads, the gauge shows that reading, or -1 once more than five polls have failed since; and
  -- the counter is the number of these polls.
  pub update_gauges-Shows :
      (which : Which) (before : List (Poll fl)) (good : Poll fl) (fails : List (Poll fl)) (v : ℕ)
      (g : Gauges)
      → reads which good ≡ some v
      → All (λ p. reads which p ≡ none) fails
      → Shows which (length fails) (pos v) (update_gauges (before ++ good ∷ fails) g)
  unfolding update_gauges
  update_gauges-Shows which before good fails v g h k =
      let g1 = update_gauges before g in
      subst (Shows which (length fails) (pos v))
        (sym (update_gauges-append before (good ∷ fails) g))
        (subst (λ n. Shows which n (pos v) (update_gauges fails (poll_gauges_once good g1)))
          none_before
          (polls_failed which fails 0 (pos v) (poll_gauges_once good g1) k
            (poll_read which good v g1 h)))
    where
      none_before : 0 + length fails ≡ length fails
      none_before = omega arith
