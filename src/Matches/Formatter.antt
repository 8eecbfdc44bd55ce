-- ===== src/Matches/Formatter.antt =====
-- src/matches/formatter.py: the text of the reply to a goal. The log line about long texts is left
-- out.
pub mod Bounds
use vici.Base.{
  ℕ, suc, ◌+◌, Bool, true, false, Option, none, some, List, [], ◌∷◌, ◌++◌, take, if◌then◌else◌,
}
use vici.Base.Floats.{Floats, truthy}
use vici.Base.Texts.{Text, lit, or_else, join}
use vici.Money.{cents_to_dollars}
use vici.Matches.Models.{JobCandidate, MatchResult, is_empty}

abbrev pub max_jobs_in_sms : ℕ
max_jobs_in_sms = 5

-- A rank in decimal. It is at most 5, so that one digit is enough.
abbrev rank_text : ℕ → Text
rank_text rank = (b'0' + rank) ∷ []

module _ (fl : Floats) where
  -- f"{duration:.1f}h", or "flat" for no duration
  abbrev pub duration_text : fl.Float → Text
  duration_text duration =
      if truthy fl duration then fl.format_1f duration ++ lit "h" else lit "flat"

  -- f"${cents_to_dollars(cents):.0f}"
  abbrev pub dollars_text : ℕ → Text
  dollars_text cents = b'$' ∷ fl.format_0f (cents_to_dollars fl cents)

  unfoldable pub format_job_line : ℕ → JobCandidate fl → Text
  format_job_line rank cand =
      let desc = take 30 (or_else cand.job.description (lit "Job")) in
      let loc = take 20 (or_else cand.job.location (lit "?")) in
      let phone = or_else cand.poster_phone (lit "N/A") in
      let pay = dollars_text cand.earnings ++ (b'/' ∷ duration_text cand.duration) in
      rank_text rank
      ++ (lit ". "
          ++ (desc ++ (lit " @ " ++ (loc ++ (lit " | " ++ (pay ++ (lit " | " ++ phone)))))))

  -- The loop over `enumerate(…, start=rank)`.
  unfoldable pub job_lines : ℕ → List (JobCandidate fl) → List Text
  job_lines rank [] = []
  job_lines rank (cand ∷ cands) = format_job_line rank cand ∷ job_lines (suc rank) cands

  unfoldable pub summary_line : MatchResult fl → Text
  summary_line r =
      lit "Best available: "
      ++ (dollars_text r.total_earnings
          ++ (lit " of " ++ (dollars_text r.work_goal.target_earnings ++ lit " goal")))

  -- `lines`
  unfoldable pub reply_lines : MatchResult fl → List Text
  unfolding job_lines
  reply_lines r =
      job_lines 1 (take max_jobs_in_sms r.jobs)
      ++ (if r.is_partial then summary_line r ∷ [] else [])

  unfoldable pub format_match_sms : MatchResult fl → Text
  unfolding is_empty reply_lines
  format_match_sms r =
      if is_empty r
      then lit "No matching jobs found for your goal right now. Text us again soon!"
      else join (b'\n' ∷ []) (reply_lines r)
