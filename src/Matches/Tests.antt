-- ===== src/Matches/Tests.antt =====
-- The theorems of the matching at small inputs.
use mathlib.Core.List.{Perm}
use vici.Base.{
  ◌+◌, ◌*◌, true, length, ◌≤◌, ◌≡◌, ◌↔◌, refl, none, some, List, [], ◌∷◌, keep_if, arith,
}
use vici.Base.Int.{pos}
use vici.Base.Floats.{quarters, quarters-IsOrdered}
use vici.Base.Texts.{lit}
use vici.Samples.{painting, moving, taken, sixty, board}
use vici.Jobs.Candidates.{AreCandidates}
use vici.Store.{ok}
use vici.Matches.Models.{JobCandidate, MatchResult, total_of}
use vici.Matches.Formatter.{format_match_sms}
use vici.Matches.Formatter.Bounds.{length-format_match_sms}
use vici.Matches.Knapsack.{capacity_of, dp_select}
use vici.Matches.Knapsack.Optimal.{max_earning, IsBest, dp_select-IsBest}
use vici.Matches.Knapsack.Goal.{dp_select_reaches_goal, dp_select_earns_everything}
use vici.Matches.Sorting.{sort_results}
use vici.Matches.Sorting.Dates.{IsChronological, is_alike, sort_results-IsChronological}
use vici.Matches.Repository.{persist_matches}
use vici.Matches.Repository.Pairs.{IsPersisted, persist_matches-IsPersisted}
use vici.Matches.Service.{Searcher, retrieve_candidates}
use vici.Matches.Service.Retrieval.{retrieve_candidates-AreCandidates}
use vici.Matches.Service.Outcome.{Matches}

abbrev paint : JobCandidate quarters
paint = record { job = painting; earnings = 4000; duration = pos 8; poster_phone = none }

abbrev move : JobCandidate quarters
move = record { job = moving; earnings = 5000; duration = pos 0; poster_phone = none }

abbrev garden : JobCandidate quarters
garden = record { job = taken; earnings = 3000; duration = pos 4; poster_phone = none }

abbrev three : List (JobCandidate quarters)
three = paint ∷ move ∷ garden ∷ []

-- An index that finds two jobs, of which one is taken.
abbrev index : Searcher quarters
index query_text top_k = some ((3, pos 4) ∷ (1, pos 2) ∷ [])

retrieve_candidates-AreCandidates_example :
    AreCandidates sixty.target_deadline board
      (retrieve_candidates (some index) sixty (some (lit "paint")) board)
retrieve_candidates-AreCandidates_example =
    retrieve_candidates-AreCandidates (some index) sixty (some (lit "paint")) board

dp_select-IsBest_example :
    (sel : List (JobCandidate quarters)) × (dp_select three 6000 ≡ some sel)
    × IsBest three (capacity_of three 6000) sel
dp_select-IsBest_example = dp_select-IsBest quarters-IsOrdered three 6000 (refl, (refl, (refl, tt)))

dp_select_reaches_goal_example :
    (sel : List (JobCandidate quarters)) × (dp_select three 6000 ≡ some sel)
    × ((6000 ≤ total_of sel) ↔ (6000 ≤ total_of three))
    × (total_of sel ≤ 6000 + max_earning three)
dp_select_reaches_goal_example =
    dp_select_reaches_goal quarters-IsOrdered three 6000 (refl, (refl, (refl, tt)))

-- The goal of 70 dollars is reached by moving and gardening in an hour; all three are selected.
dp_select_earns_everything_example :
    (sel : List (JobCandidate quarters)) × (dp_select three 7000 ≡ some sel)
    × (total_of sel ≡ total_of three)
dp_select_earns_everything_example =
    dp_select_earns_everything quarters-IsOrdered three 7000 (refl, (refl, (refl, tt)))
      (omega arith)

sort_results-IsChronological_example :
    IsChronological (sort_results three)
    × Perm (sort_results three) three
    × (keep_if (is_alike paint) (sort_results three) ≡ keep_if (is_alike paint) three)
unfolding vici.Base.Int.◌-ℤ◌
sort_results-IsChronological_example =
    sort_results-IsChronological quarters-IsOrdered three paint (refl, (refl, (refl, tt))) refl

persist_matches-IsPersisted_example :
    ((persist_matches 99 (1 ∷ 9 ∷ 1 ∷ []) 31 board).0 ≡ ok tt)
    × IsPersisted (1 ∷ 9 ∷ 1 ∷ []) 31 board (persist_matches 99 (1 ∷ 9 ∷ 1 ∷ []) 31 board).1
persist_matches-IsPersisted_example = persist_matches-IsPersisted 99 31 (1 ∷ 9 ∷ 1 ∷ []) board

-- 90 dollars of 100.
abbrev short_of : MatchResult quarters
short_of = record {
  jobs = paint ∷ move ∷ [];
  work_goal = record sixty { target_earnings = 10_000 };
  total_earnings = 9000;
  is_partial = true;
}

length-format_match_sms_example : length (format_match_sms quarters short_of) ≤ 12 * 4 + 534
unfolding vici.Money.cents_to_dollars
length-format_match_sms_example = length-format_match_sms quarters 4 short_of (
  ((omega arith, omega arith, omega arith), ((omega arith, omega arith, omega arith), tt)),
  omega arith,
  omega arith,
)
