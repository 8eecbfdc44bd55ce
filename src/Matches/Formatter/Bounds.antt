-- ===== src/Matches/Formatter/Bounds.antt =====
-- How long a reply can be.
use vici.Base.{
  ℕ, zero, suc, ◌+◌, ◌*◌, ◌≤◌, ◌≡◌, refl, inl, inr, List, [], ◌∷◌, ◌++◌, arith, length,
  length-append, length-take, take, All, Bool-cases,
}
use vici.Base.Members.{All-append}
use vici.Base.Floats.{Floats, truthy}
use vici.Base.Texts.{Text, lit, or_else, join}
use vici.Money.{cents_to_dollars}
use vici.Matches.Models.{JobCandidate, MatchResult, is_empty}
use vici.Matches.Formatter.{
  max_jobs_in_sms, duration_text, dollars_text, format_job_line, job_lines, summary_line,
  reply_lines, format_match_sms,
}

module _ (fl : Floats) where
  -- A candidate whose numbers print in at most `digits` characters and whose phone is as long as an
  -- E.164 number at most.
  abbrev IsShort : ℕ → JobCandidate fl → Type 0
  IsShort digits c =
      (length (fl.format_0f (cents_to_dollars fl c.earnings)) ≤ digits)
      × (length (fl.format_1f c.duration) ≤ digits)
      × (length (or_else c.poster_phone (lit "N/A")) ≤ 20)

  length-duration_text :
      (d : fl.Float) (digits : ℕ)
      → length (fl.format_1f d) ≤ digits
      → length (duration_text fl d) ≤ digits + 4
  length-duration_text d digits h = elim (Bool-cases (truthy fl d)) [
    | inl timed ↦ rw timed (omega (arith, length-append {0} (fl.format_1f d) (lit "h")))
    | inr flat ↦ rw flat (omega arith)
  ]

  length-format_job_line :
      (digits rank : ℕ) (c : JobCandidate fl)
      → IsShort digits c
      → length (format_job_line fl rank c) ≤ 2 * digits + 88
  unfolding format_job_line
  length-format_job_line digits rank c h =
      let desc = take 30 (or_else c.job.description (lit "Job")) in
      let loc = take 20 (or_else c.job.location (lit "?")) in
      let phone = or_else c.poster_phone (lit "N/A") in
      let pay = dollars_text fl c.earnings ++ (b'/' ∷ duration_text fl c.duration) in
      omega (
        arith,
        h.0,
        h.2,
        length-duration_text c.duration digits h.1,
        length-take {0} 30 (or_else c.job.description (lit "Job")),
        length-take {0} 20 (or_else c.job.location (lit "?")),
        length-append {0} (dollars_text fl c.earnings) (b'/' ∷ duration_text fl c.duration),
        length-append {0} desc (lit " @ " ++ (loc ++ (lit " | " ++ (pay ++ (lit " | " ++ phone))))),
        length-append {0} loc (lit " | " ++ (pay ++ (lit " | " ++ phone))),
        length-append {0} pay (lit " | " ++ phone),
      )

  -- Lines of at most `each` characters, and a separator of one.
  length-join :
      (each : ℕ) (ts : List Text)
      → All (λ t. length t ≤ each) ts
      → length (join (b'\n' ∷ []) ts) ≤ length ts * (each + 1)
  length-join each [] h = omega arith
  length-join each (t ∷ []) h = omega (arith, h.0)
  length-join each (t ∷ u ∷ ts) h = omega (
    arith,
    h.0,
    length-append {0} t (b'\n' ∷ [] ++ join (b'\n' ∷ []) (u ∷ ts)),
    length-join each (u ∷ ts) h.1,
  )

  job_lines-All :
      (digits rank : ℕ) (cs : List (JobCandidate fl))
      → All (IsShort digits) cs
      → All (λ t. length t ≤ 2 * digits + 88) (job_lines fl rank cs)
  unfolding job_lines
  job_lines-All digits rank [] h = tt
  job_lines-All digits rank (c ∷ cs) h =
      (length-format_job_line digits rank c h.0, job_lines-All digits (suc rank) cs h.1)

  length-job_lines :
      (rank : ℕ) (cs : List (JobCandidate fl)) → length (job_lines fl rank cs) ≡ length cs
  unfolding job_lines
  length-job_lines rank [] = refl
  length-job_lines rank (c ∷ cs) = omega (arith, length-job_lines (suc rank) cs)

  All-take : {A : Type 0} (P : A → Type 0) (n : ℕ) (xs : List A) → All P xs → All P (take n xs)
  All-take P zero xs h = tt
  All-take P (suc n) [] h = tt
  All-take P (suc n) (x ∷ xs) h = (h.0, All-take P n xs h.1)

  length-summary_line :
      (digits : ℕ) (r : MatchResult fl)
      → length (fl.format_0f (cents_to_dollars fl r.total_earnings)) ≤ digits
      → length (fl.format_0f (cents_to_dollars fl r.work_goal.target_earnings)) ≤ digits
      → length (summary_line fl r) ≤ 2 * digits + 88
  unfolding summary_line
  length-summary_line digits r h k =
      let goal = dollars_text fl r.work_goal.target_earnings ++ lit " goal" in
      omega (
        arith,
        length-append {0} (dollars_text fl r.total_earnings) (lit " of " ++ goal),
        length-append {0} (dollars_text fl r.work_goal.target_earnings) (lit " goal"),
      )

  -- What a reply's numbers print in.
  abbrev IsReadable : ℕ → MatchResult fl → Type 0
  IsReadable digits r =
      All (IsShort digits) r.jobs
      × (length (fl.format_0f (cents_to_dollars fl r.total_earnings)) ≤ digits)
      × (length (fl.format_0f (cents_to_dollars fl r.work_goal.target_earnings)) ≤ digits)

  reply_lines_bounds :
      (digits : ℕ) (r : MatchResult fl)
      → IsReadable digits r
      → (length (reply_lines fl r) ≤ 6) × All (λ t. length t ≤ 2 * digits + 88) (reply_lines fl r)
  unfolding reply_lines summary_line
  reply_lines_bounds digits r h =
      let shown = take max_jobs_in_sms r.jobs in
      let lines = job_lines-All digits 1 shown (All-take _ max_jobs_in_sms r.jobs h.0) in
      let few = length-take {0} max_jobs_in_sms r.jobs in
      let count = length-job_lines 1 shown in
      elim (Bool-cases r.is_partial) [
        | inl partial ↦ rw partial (
          omega (
            arith,
            few,
            count,
            length-append {0} (job_lines fl 1 shown) (summary_line fl r ∷ []),
          ),
          All-append _ (job_lines fl 1 shown) _ lines (length-summary_line digits r h.1 h.2, tt),
        )
        | inr full ↦ rw full (
          omega (arith, few, count, length-append {0} (job_lines fl 1 shown) []),
          All-append _ (job_lines fl 1 shown) _ lines tt,
        )
      ]

  -- A reply shows at most five jobs and one summary: if every amount and duration prints in at most
  -- `digits` characters and every phone number in at most 20, it has at most 12 `digits` + 534
  -- characters, however many jobs were matched and however long their descriptions and places are.
  pub length-format_match_sms :
      (digits : ℕ) (r : MatchResult fl)
      → IsReadable digits r
      → length (format_match_sms fl r) ≤ 12 * digits + 534
  unfolding format_match_sms
  length-format_match_sms digits r h = elim (Bool-cases (is_empty r)) [
    | inl empty ↦ rw empty (omega arith)
    | inr some_jobs ↦
        let (few, short) = reply_lines_bounds digits r h in
        rw some_jobs (
          within (length (reply_lines fl r)) few
            (length-join (2 * digits + 88) (reply_lines fl r) short))
  ]
    where
      within :
          (n : ℕ)
          → n ≤ 6
          → length (join (b'\n' ∷ []) (reply_lines fl r)) ≤ n * (2 * digits + 88 + 1)
          → length (join (b'\n' ∷ []) (reply_lines fl r)) ≤ 12 * digits + 534
      within n few le = grind arith
