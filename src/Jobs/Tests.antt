-- ===== src/Jobs/Tests.antt =====
-- The queries of the job repository on a small table.
use vici.Base.{
  ◌≡◌, refl, ◌∈◌, inl, inr, none, some, [], ◌∷◌, map, keep_if, any_of, arith, ◌&&◌, ◌==◌,
}
use vici.Base.Int.{pos, ◌-ℤ◌}
use vici.Base.Floats.{quarters}
use vici.Samples.{noon, painting, moving, board}
use vici.Jobs.{incomputable_reason, earnings, pay_terms}
use vici.Jobs.Repository.{
  is_eligible, is_computable, find_candidates_for_goal, find_candidates_by_ids,
}
use vici.Jobs.Candidates.{
  is_candidate, AreCandidates, find_candidates_for_goal-AreCandidates, mem-find_candidates_for_goal,
  find_candidates_by_ids_lem,
}

find_candidates_for_goal-AreCandidates_example :
    AreCandidates (some noon) board (find_candidates_for_goal (some noon) board)
find_candidates_for_goal-AreCandidates_example =
    find_candidates_for_goal-AreCandidates (some noon) board

mem-find_candidates_for_goal_example : moving ∈ find_candidates_for_goal (some noon) board
unfolding is_eligible is_computable incomputable_reason pay_terms ◌-ℤ◌
mem-find_candidates_for_goal_example =
    mem-find_candidates_for_goal (some noon) board moving (omega arith) (inr (inl refl)) refl

find_candidates_by_ids_lem_example :
    (map (λ j. j.id) (find_candidates_by_ids (3 ∷ 2 ∷ 9 ∷ 1 ∷ []) (some noon) board)
      ≡ keep_if
          (λ i. any_of (λ j. (j.id == i) && is_candidate (some noon) j) board.jobs)
          (3 ∷ 2 ∷ 9 ∷ 1 ∷ []))
    × AreCandidates
        (some noon)
        board
        (find_candidates_by_ids (3 ∷ 2 ∷ 9 ∷ 1 ∷ []) (some noon) board)
find_candidates_by_ids_lem_example =
    find_candidates_by_ids_lem (3 ∷ 2 ∷ 9 ∷ 1 ∷ []) (some noon) board

-- The pay of a job without end is an OverflowError.
endless_pay :
    earnings quarters
      (record (pay_terms quarters painting) { duration_hours = some (pos 1_000_000_000_000) })
    ≡ none
unfolding earnings incomputable_reason pay_terms
endless_pay = refl
