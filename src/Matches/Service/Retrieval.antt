-- ===== src/Matches/Service/Retrieval.antt =====
-- What `_retrieve_candidates` and `_build_candidates` make of the searcher's answer.
use vici.Base.{ℕ, inl, inr, Option, none, some, List, [], ◌∷◌, map, length, Bool-cases, leb}
use vici.Base.Floats.{Floats}
use vici.Base.Texts.{Text, or_else, is_blank}
use vici.Datetimes.{Datetime}
use vici.Jobs.Repository.{find_candidates_by_ids}
use vici.Jobs.Candidates.{
  AreCandidates, find_candidates_for_goal-AreCandidates, find_candidates_by_ids_lem,
}
use vici.WorkGoals.{WorkGoal}
use vici.Store.{Db}
use vici.Matches.Service.{Searcher, semantic_ids, by_ranked, retrieve_candidates}

module _ {fl : Floats} where
  by_ranked-AreCandidates :
      (ranked : List (ℕ × fl.Float)) (deadline : Option Datetime) (db : Db fl)
      → AreCandidates deadline db (by_ranked ranked deadline db)
  unfolding by_ranked
  by_ranked-AreCandidates [] deadline db = find_candidates_for_goal-AreCandidates deadline db
  by_ranked-AreCandidates (r ∷ ranked) deadline db =
      elim (Bool-cases
        (leb 5 (length (find_candidates_by_ids (map (λ p. p.0) (r ∷ ranked)) deadline db)))) [
          | inl enough ↦
              rw enough ((find_candidates_by_ids_lem (map (λ p. p.0) (r ∷ ranked)) deadline db).1)
          | inr thin ↦ rw thin (find_candidates_for_goal-AreCandidates deadline db)
        ]

  -- Whatever the vector index answers, and whether it answers, only jobs of the table are retrieved
  -- that are available, have a known and computable pay, and come before the goal's deadline.
  pub retrieve_candidates-AreCandidates :
      (searcher : Option (Searcher fl)) (work_goal : WorkGoal) (query_text : Option Text)
      (db : Db fl)
      → AreCandidates work_goal.target_deadline db
          (retrieve_candidates searcher work_goal query_text db)
  unfolding retrieve_candidates
  retrieve_candidates-AreCandidates none g q db =
      find_candidates_for_goal-AreCandidates g.target_deadline db
  retrieve_candidates-AreCandidates (some searcher) g q db =
      elim (Bool-cases (is_blank (or_else q []))) [
        | inl blank ↦ rw blank (find_candidates_for_goal-AreCandidates g.target_deadline db)
        | inr asked ↦
            rw asked (
              by_ranked-AreCandidates (semantic_ids fl searcher (or_else q [])) g.target_deadline
                db)
      ]
