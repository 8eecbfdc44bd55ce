-- ===== src/Matches/Sorting/Kept.antt =====
-- Sorting a selection keeps what holds of each of its jobs, and what they earn together.
use vici.Base.{◌+◌, ◌≡◌, refl, inl, inr, List, [], ◌∷◌, All, Bool-cases, arith}
use vici.Base.Floats.{Floats}
use vici.Matches.Models.{JobCandidate, total_of}
use vici.Matches.Sorting.{before, insert, insert_all, sort_results}

module _ {fl : Floats} where
  module _ (P : JobCandidate fl → Type 0) where
    All-insert :
        (c : JobCandidate fl) (ds : List (JobCandidate fl)) → P c → All P ds → All P (insert c ds)
    unfolding insert
    All-insert c [] h k = (h, tt)
    All-insert c (d ∷ ds) h k = elim (Bool-cases (before c d)) [
      | inl first ↦ rw first (h, k)
      | inr later ↦ rw later (k.0, All-insert c ds h k.1)
    ]

    All-insert_all :
        (cs ds : List (JobCandidate fl)) → All P cs → All P ds → All P (insert_all cs ds)
    unfolding insert_all
    All-insert_all [] ds h k = k
    All-insert_all (c ∷ cs) ds h k = All-insert_all cs (insert c ds) h.1 (All-insert c ds h.0 k)

    pub All-sort_results : (cs : List (JobCandidate fl)) → All P cs → All P (sort_results cs)
    unfolding sort_results
    All-sort_results cs h = All-insert_all cs [] h tt

  total-insert :
      (c : JobCandidate fl) (ds : List (JobCandidate fl))
      → total_of (insert c ds) ≡ c.earnings + total_of ds
  unfolding insert
  total-insert c [] = refl
  total-insert c (d ∷ ds) = elim (Bool-cases (before c d)) [
    | inl first ↦ rw first refl
    | inr later ↦ rw later (omega (arith, total-insert c ds))
  ]

  total-insert_all :
      (cs ds : List (JobCandidate fl)) → total_of (insert_all cs ds) ≡ total_of cs + total_of ds
  unfolding insert_all
  total-insert_all [] ds = omega arith
  total-insert_all (c ∷ cs) ds = omega (arith, total-insert_all cs (insert c ds), total-insert c ds)

  pub total-sort_results : (cs : List (JobCandidate fl)) → total_of (sort_results cs) ≡ total_of cs
  unfolding sort_results
  total-sort_results cs = omega (arith, total-insert_all cs [])
