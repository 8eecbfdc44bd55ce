-- ===== src/Matches/Service/Outcome.antt =====
-- What `match` returns and what it writes.
use vici.Base.{
  ℕ, ◌≡◌, ◌<◌, refl, ap, sym, subst, inl, inr, true, Option, none, some, List, [], ◌∷◌, map, arith,
  ◌∈◌, All, Option-cases, ltb,
}
use vici.Base.Floats.{Floats, IsOrdered}
use vici.Base.Texts.{Text}
use vici.Jobs.{Job, earnings, pay_terms}
use vici.Base.Members.{mem_of_All}
use vici.Jobs.Candidates.{is_candidate, AreCandidates}
use vici.Jobs.Repository.{find_posters}
use vici.WorkGoals.{WorkGoal}
use vici.Store.{User, Db, Result, ok, err, overflow_error, Action, and_then, pure}
use vici.Matches.Models.{JobCandidate, MatchResult, total_of}
use vici.Matches.Knapsack.{capacity_of}
use vici.Matches.Knapsack.Subsets.{Picks, done}
use vici.Matches.Knapsack.Optimal.{IsBest, All-reverse_aux, All-Picks, dp_select-IsBest}
use vici.Matches.Knapsack.Goal.{IsBest-reaches, IsBest-le-all}
use vici.Matches.Sorting.{sort_results}
use vici.Matches.Sorting.Kept.{All-sort_results, total-sort_results}
use vici.Matches.Repository.Pairs.{IsPersisted, persist_matches-IsPersisted}
use vici.Matches.Service.{
  Searcher, hours_of, add_candidate, candidates_of, build_candidates, retrieve_candidates,
  persist_selected, result_of, conclude, match_jobs, match_goal,
}
use vici.Matches.Service.Retrieval.{retrieve_candidates-AreCandidates}

All-map :
    {A : Type 0} (P Q : A → Type 0) → ((a : A) → P a → Q a) → (xs : List A) → All P xs → All Q xs
All-map P Q f [] h = tt
All-map P Q f (x ∷ xs) h = (f x h.0, All-map P Q f xs h.1)

module _ {fl : Floats} where
  open fl use {nought, le?}

  -- A candidate as `_build_candidates` makes it.
  abbrev IsBuilt : JobCandidate fl → Type 0
  IsBuilt c =
      (earnings fl (pay_terms fl c.job) ≡ some (some c.earnings))
      × (c.duration ≡ hours_of fl c.job.estimated_duration_hours)

  -- A job whose pay is infinite, or else the candidates as they are made.
  abbrev AllMade : (Job fl → Type 0) → Option (List (JobCandidate fl)) → Type 0
  AllMade P none = (job : Job fl) × P job × (earnings fl (pay_terms fl job) ≡ none)
  AllMade P (some cs) = All (λ c. P c.job × IsBuilt c) cs

  add_candidate-AllMade :
      (P : Job fl → Type 0) (posters : List (ℕ × Option User)) (job : Job fl)
      (pay : Option (Option ℕ)) (rest : Option (List (JobCandidate fl)))
      → earnings fl (pay_terms fl job) ≡ pay
      → P job
      → AllMade P rest
      → AllMade P (add_candidate posters job pay rest)
  unfolding add_candidate
  add_candidate-AllMade P posters job none rest e p h = (job, p, e)
  add_candidate-AllMade P posters job (some none) rest e p h = h
  add_candidate-AllMade P posters job (some (some cents)) none e p h = h
  add_candidate-AllMade P posters job (some (some cents)) (some rest) e p h = ((p, (e, refl)), h)

  candidates_of-AllMade :
      (P : Job fl → Type 0) (posters : List (ℕ × Option User)) (jobs : List (Job fl))
      → All P jobs
      → AllMade P (candidates_of posters jobs)
  unfolding candidates_of
  candidates_of-AllMade P posters [] h = tt
  candidates_of-AllMade P posters (job ∷ jobs) h =
      add_candidate-AllMade P posters job (earnings fl (pay_terms fl job))
        (candidates_of posters jobs) refl h.0 (candidates_of-AllMade P posters jobs h.1)

  -- The jobs of the table have no negative duration.
  abbrev pub HaveDurations : Db fl → Type 0
  HaveDurations db =
      All (λ job. le? nought (hours_of fl job.estimated_duration_hours) ≡ true) db.jobs

  -- A row of the table that may be matched with the goal.
  abbrev IsRetrievable : WorkGoal → Db fl → Job fl → Type 0
  IsRetrievable work_goal db job =
      (job ∈ db.jobs) × (is_candidate work_goal.target_deadline job ≡ true)

  -- A job that may be offered for the goal.
  abbrev IsOffer : WorkGoal → Db fl → JobCandidate fl → Type 0
  IsOffer work_goal db c = IsRetrievable work_goal db c.job × IsBuilt c

  -- What a match of the candidates `cs` returns and leaves in the database.
  pub record IsMatched (work_goal : WorkGoal) (cs : List (JobCandidate fl)) (db : Db fl)
      (r : MatchResult fl) (db' : Db fl) : Type 0 where
    pub sel : List (JobCandidate fl)
    pub best : IsBest cs (capacity_of cs work_goal.target_earnings) sel
    pub sorted : r.jobs ≡ sort_results sel
    pub offers : All (IsOffer work_goal db) r.jobs
    pub goal : r.work_goal ≡ work_goal
    pub total : r.total_earnings ≡ total_of r.jobs
    pub partial : r.is_partial ≡ ltb (total_of cs) work_goal.target_earnings
    pub persisted : IsPersisted (map (λ c. c.job.id) r.jobs) work_goal.id db db'

  -- What `match` ended with, by the candidates that it built.
  abbrev pub Matches :
      WorkGoal → Option (List (JobCandidate fl)) → Db fl → Result (MatchResult fl) × Db fl → Type 0
  Matches work_goal none db s =
      ((job : Job fl) × IsRetrievable work_goal db job × (earnings fl (pay_terms fl job) ≡ none))
      × (s ≡ (err overflow_error, db))
  Matches work_goal (some cs) db s =
      (r : MatchResult fl) × (s.0 ≡ ok r) × IsMatched work_goal cs db r s.1

  persist_selected-IsPersisted :
      (now : ℕ) (cs : List (JobCandidate fl)) (work_goal : WorkGoal) (db : Db fl)
      → ((persist_selected now cs work_goal db).0 ≡ ok tt)
        × IsPersisted
            (map (λ c. c.job.id) cs)
            work_goal.id
            db
            (persist_selected now cs work_goal db).1
  persist_selected-IsPersisted now [] work_goal db =
      (refl, record { others = refl; pairs = λ job g. ground arith })
  persist_selected-IsPersisted now (c ∷ cs) work_goal db =
      persist_matches-IsPersisted now work_goal.id (map (λ d. d.job.id) (c ∷ cs)) db

  and_then-ok :
      {A B : Type 0} (x : Result A × Db fl) (a : A) (f : A → Action fl B)
      → x.0 ≡ ok a
      → and_then x f ≡ f a x.1
  and_then-ok x a f h = ap (λ r. and_then (r, x.1) f) h

  nothing_picked : {sel : List (JobCandidate fl)} → Picks [] sel → sel ≡ []
  nothing_picked done = refl

  nothing_sorted : [] ≡ sort_results {fl = fl} []
  unfolding sort_results
  nothing_sorted = refl

  -- From the selection on.
  conclude-Matches :
      (now : ℕ) (work_goal : WorkGoal) (cs sel : List (JobCandidate fl)) (db : Db fl)
      → IsBest cs (capacity_of cs work_goal.target_earnings) sel
      → All (IsOffer work_goal db) cs
      → Matches work_goal (some cs) db (conclude now work_goal (sort_results sel) db)
  unfolding conclude
  conclude-Matches now work_goal cs sel db b built =
      let sorted = sort_results sel in
      let (stored, p) = persist_selected-IsPersisted now sorted work_goal db in
      let e =
        and_then-ok (persist_selected now sorted work_goal db) tt
          (λ _. pure (result_of sorted work_goal)) stored in
      let same = total-sort_results sel in
      let reach = IsBest-reaches cs sel work_goal.target_earnings b in
      let all = IsBest-le-all cs sel work_goal.target_earnings b in
      subst (Matches work_goal (some cs) db) (sym e) (
        result_of sorted work_goal,
        refl,
        record {
          sel = sel;
          best = b;
          sorted = refl;
          offers = All-sort_results _ sel (All-Picks _ b.picked (All-reverse_aux _ cs [] built tt));
          goal = refl;
          total = refl;
          partial = ground (arith, same, reach, all);
          persisted = p;
        },
      )

  match_jobs-Matches :
      IsOrdered fl
      → (now : ℕ) (jobs : List (Job fl)) (work_goal : WorkGoal) (db : Db fl)
      → 0 < work_goal.target_earnings
      → HaveDurations db
      → AreCandidates work_goal.target_deadline db jobs
      → Matches work_goal (build_candidates jobs db) db (match_jobs now jobs work_goal db)
  unfolding match_jobs build_candidates candidates_of
  match_jobs-Matches o now [] work_goal db goal hours h =
      let (sel, e, b) = dp_select-IsBest o [] work_goal.target_earnings tt in
      let none_picked = nothing_picked b.picked in
      (
        _,
        refl,
        record {
          sel = [];
          best = subst (IsBest [] _) none_picked b;
          sorted = nothing_sorted;
          offers = tt;
          goal = refl;
          total = refl;
          partial = ground (arith, goal);
          persisted = record { others = refl; pairs = λ job g. ground arith };
        },
      )
  match_jobs-Matches o now (job ∷ jobs) work_goal db goal hours h =
      let made_of =
        candidates_of-AllMade (IsRetrievable work_goal db) (find_posters (job ∷ jobs) db)
          (job ∷ jobs) h in
      elim (Option-cases (build_candidates (job ∷ jobs) db)) [
        | inl raised ↦
            let infinite : AllMade (IsRetrievable work_goal db) none =
              subst (AllMade (IsRetrievable work_goal db)) raised made_of in
            rw raised (infinite, refl)
        | inr (cs, made) ↦
            let built : All (IsOffer work_goal db) cs =
              subst (AllMade (IsRetrievable work_goal db)) made made_of in
            let (sel, e, b) =
              dp_select-IsBest o cs work_goal.target_earnings
                (All-map _ _ (λ c w. rw w.1.1 (mem_of_All _ db.jobs hours c.job w.0.0)) cs built) in
            rw made (rw e (conclude-Matches now work_goal cs sel db b built))
      ]

  pub match_goal-Matches :
      IsOrdered fl
      → (now : ℕ) (searcher : Option (Searcher fl)) (work_goal : WorkGoal)
        (query_text : Option Text) (db : Db fl)
      → 0 < work_goal.target_earnings
      → HaveDurations db
      → Matches work_goal
          (build_candidates (retrieve_candidates searcher work_goal query_text db) db)
          db
          (match_goal now searcher work_goal query_text db)
  unfolding match_goal
  match_goal-Matches o now searcher work_goal query_text db goal hours =
      match_jobs-Matches o now (retrieve_candidates searcher work_goal query_text db) work_goal db
        goal hours (retrieve_candidates-AreCandidates searcher work_goal query_text db)
