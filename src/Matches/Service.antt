-- ===== src/Matches/Service.antt =====
-- `MatchService` of src/matches/service.py, but for the knapsack and the sort: where the candidates
-- come from, what is attached to them, and `match`.
-- The searcher is a parameter: `none` stands for an exception or the timeout.
pub mod Retrieval
pub mod Outcome
use vici.Base.{
  ℕ, Bool, true, false, Option, none, some, List, [], ◌∷◌, map, ltb, leb, if◌then◌else◌, length,
}
use vici.Base.Floats.{Floats, truthy}
use vici.Base.Texts.{Text, or_else, is_blank}
use vici.Datetimes.{Datetime}
use vici.Jobs.{Job, earnings, pay_terms}
use vici.Jobs.Repository.{dict_get, find_candidates_for_goal, find_candidates_by_ids, find_posters}
use vici.WorkGoals.{WorkGoal}
use vici.Store.{
  User, Db, Error, Action, pure, gets, or_raise, ◌>>=◌, ◌>>◌, index_error, overflow_error,
}
use vici.Matches.Models.{JobCandidate, MatchResult, total_of}
use vici.Matches.Knapsack.{dp_select}
use vici.Matches.Sorting.{sort_results}
use vici.Matches.Repository.{persist_matches}

-- src/matches/constants.py
abbrev semantic_top_k : ℕ
semantic_top_k = 50

abbrev semantic_min_candidates : ℕ
semantic_min_candidates = 5

-- `JobEmbeddingSearcher`: the query's text and `top_k`.
abbrev pub Searcher : Floats → Type 0
Searcher fl = Text → ℕ → Option (List (ℕ × fl.Float))

-- `posters.get(job.id)`, and its phone if there is a poster.
abbrev phone_of : Option (Option User) → Option Text
phone_of none = none
phone_of (some none) = none
phone_of (some (some poster)) = poster.phone_e164

module _ (fl : Floats) where
  pub semantic_ids : Searcher fl → Text → List (ℕ × fl.Float)
  semantic_ids searcher query_text = elim (searcher query_text semantic_top_k) [
    | none ↦ []
    | some ranked ↦ ranked
  ]

  -- `terms.duration_hours or 0.0`
  abbrev pub hours_of : Option fl.Float → fl.Float
  hours_of none = fl.nought
  hours_of (some hours) = if truthy fl hours then hours else fl.nought

module _ {fl : Floats} where
  -- `if len(jobs) >= SEMANTIC_MIN_CANDIDATES: return jobs`, or the full scan.
  unless_thin : List (Job fl) → Option Datetime → Db fl → List (Job fl)
  unless_thin jobs deadline db =
      if leb semantic_min_candidates (length jobs)
      then jobs
      else find_candidates_for_goal deadline db

  pub by_ranked : List (ℕ × fl.Float) → Option Datetime → Db fl → List (Job fl)
  unfolding unless_thin
  by_ranked [] deadline db = find_candidates_for_goal deadline db
  by_ranked (r ∷ ranked) deadline db =
      unless_thin (find_candidates_by_ids (map (λ p. p.0) (r ∷ ranked)) deadline db) deadline db

  pub retrieve_candidates : Option (Searcher fl) → WorkGoal → Option Text → Db fl → List (Job fl)
  unfolding by_ranked semantic_ids
  retrieve_candidates none work_goal query_text db =
      find_candidates_for_goal work_goal.target_deadline db
  retrieve_candidates (some searcher) work_goal query_text db =
      if is_blank (or_else query_text [])
      then find_candidates_for_goal work_goal.target_deadline db
      else by_ranked (semantic_ids fl searcher (or_else query_text [])) work_goal.target_deadline db

  -- The body of the loop over the jobs, by what `earnings` gave and what the other jobs give.
  pub add_candidate :
      List (ℕ × Option User)
      → Job fl
      → Option (Option ℕ)
      → Option (List (JobCandidate fl))
      → Option (List (JobCandidate fl))
  add_candidate posters job none rest = none
  add_candidate posters job (some none) rest = rest
  add_candidate posters job (some (some cents)) none = none
  add_candidate posters job (some (some cents)) (some rest) = some (
      record {
        job = job;
        earnings = cents;
        duration = hours_of fl job.estimated_duration_hours;
        poster_phone = phone_of (dict_get job.id posters);
      }
      ∷ rest)

  -- The loop over the jobs; `none` is the OverflowError of an infinite pay.
  pub candidates_of : List (ℕ × Option User) → List (Job fl) → Option (List (JobCandidate fl))
  unfolding add_candidate
  candidates_of posters [] = some []
  candidates_of posters (job ∷ jobs) =
      add_candidate posters job (earnings fl (pay_terms fl job)) (candidates_of posters jobs)

  pub build_candidates : List (Job fl) → Db fl → Option (List (JobCandidate fl))
  unfolding candidates_of
  build_candidates jobs db = candidates_of (find_posters jobs db) jobs

  -- `if sorted_selected: await self._match_repo.persist_matches(…)`
  abbrev pub persist_selected : ℕ → List (JobCandidate fl) → WorkGoal → Action fl (Unit {0})
  persist_selected now [] work_goal = pure tt
  persist_selected now (c ∷ cs) work_goal =
      persist_matches now (map (λ d. d.job.id) (c ∷ cs)) work_goal.id

  abbrev pub result_of : List (JobCandidate fl) → WorkGoal → MatchResult fl
  result_of sorted_selected work_goal =
      let total = total_of sorted_selected in
      record {
        jobs = sorted_selected;
        work_goal = work_goal;
        total_earnings = total;
        is_partial = ltb total work_goal.target_earnings;
      }

  -- `match`, from the sorted selection on.
  pub conclude : ℕ → WorkGoal → List (JobCandidate fl) → Action fl (MatchResult fl)
  conclude now work_goal sorted_selected =
      persist_selected now sorted_selected work_goal >> pure (result_of sorted_selected work_goal)

  -- `match`, from the jobs on.
  pub match_jobs : ℕ → List (Job fl) → WorkGoal → Action fl (MatchResult fl)
  unfolding build_candidates conclude
  match_jobs now [] work_goal =
      pure (record { jobs = []; work_goal = work_goal; total_earnings = 0; is_partial = true })
  match_jobs now (job ∷ raw_jobs) work_goal = do
    built ← gets (build_candidates (job ∷ raw_jobs))
    candidates ← or_raise built overflow_error
    selected ← or_raise (dp_select candidates work_goal.target_earnings) index_error
    conclude now work_goal (sort_results selected)

  unfoldable pub match_goal :
      ℕ → Option (Searcher fl) → WorkGoal → Option Text → Action fl (MatchResult fl)
  unfolding match_jobs retrieve_candidates
  match_goal now searcher work_goal query_text = do
    raw_jobs ← gets (retrieve_candidates searcher work_goal query_text)
    match_jobs now raw_jobs work_goal
