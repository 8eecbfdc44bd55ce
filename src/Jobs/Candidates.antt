-- ===== src/Jobs/Candidates.antt =====
-- What the two queries for candidates return.
use vici.Base.{
  ℕ, ◌≤◌, ◌≡◌, refl, sym, ap, ◌∙◌, ◌⊎◌, subst, inl, inr, Bool, true, false, ◌&&◌, Option, List, [],
  ◌∷◌, map, reverse, arith, ◌==◌, ==_iff, length, take, keep_if, any_of, find_by, All, ◌∈◌,
  Option-cases, Bool-cases,
}
use vici.Base.Members.{
  mem-keep_if, mem-take, take_all_of_le, mem-reverse_aux, find_by-some, find_by-none, any_of_of_mem,
  any_of-reverse_aux, any_of-keep_if, any_of-congr, keep_if-congr, All-of_mem,
}
use vici.Base.Floats.{Floats}
use vici.Datetimes.{Datetime}
use vici.Jobs.{Job}
use vici.Store.{Db}
use vici.Jobs.Repository.{
  max_candidates, contains, is_eligible, is_computable, computable_only, find_candidates_for_goal,
  in_order, find_candidates_by_ids,
}

and-parts : (a b : Bool) → (a && b) ≡ true → (a ≡ true) × (b ≡ true)
and-parts a b h = ground arith

contains-mem : (i : ℕ) (ids : List ℕ) → i ∈ ids → contains i ids ≡ true
contains-mem i ids m = any_of_of_mem (λ k. k == i) i ids m ((==_iff i i).1 refl)

module _ {fl : Floats} where
  -- A job that a goal with this deadline may be matched with.
  abbrev pub is_candidate : Option Datetime → Job fl → Bool
  is_candidate deadline job = is_eligible deadline job && is_computable job

  -- Rows of the table that a goal with this deadline may be matched with.
  abbrev pub AreCandidates : Option Datetime → Db fl → List (Job fl) → Type 0
  AreCandidates deadline db = All (λ job. (job ∈ db.jobs) × (is_candidate deadline job ≡ true))

  -- The full scan returns only jobs of the table that are candidates: available, with a known and
  -- computable pay, and in time for the deadline.
  pub find_candidates_for_goal-AreCandidates :
      (deadline : Option Datetime) (db : Db fl)
      → AreCandidates deadline db (find_candidates_for_goal deadline db)
  unfolding find_candidates_for_goal computable_only
  find_candidates_for_goal-AreCandidates deadline db = All-of_mem _ _ (λ job h.
      let rows = keep_if (is_eligible deadline) db.jobs in
      let (m, computable) = (mem-keep_if is_computable job (take max_candidates rows)).0 h in
      let (m', eligible) =
        (mem-keep_if (is_eligible deadline) job db.jobs).0 (mem-take max_candidates job rows m) in
      (m', rw (eligible, computable) refl))

  -- Where at most 500 jobs are eligible, the full scan misses no candidate.
  pub mem-find_candidates_for_goal :
      (deadline : Option Datetime) (db : Db fl) (job : Job fl)
      → length (keep_if (is_eligible deadline) db.jobs) ≤ max_candidates
      → job ∈ db.jobs
      → is_candidate deadline job ≡ true
      → job ∈ find_candidates_for_goal deadline db
  unfolding find_candidates_for_goal computable_only
  mem-find_candidates_for_goal deadline db job few m c =
      let rows = keep_if (is_eligible deadline) db.jobs in
      let (eligible, computable) = and-parts (is_eligible deadline job) (is_computable job) c in
      rw (take_all_of_le max_candidates rows few) (
        (mem-keep_if is_computable job rows).1
          ((mem-keep_if (is_eligible deadline) job db.jobs).1 (m, eligible), computable))

  in_order-ids :
      (jobs : List (Job fl)) (ids : List ℕ)
      → map (λ j. j.id) (in_order jobs ids) ≡ keep_if (λ i. any_of (λ j. j.id == i) jobs) ids
  unfolding in_order
  in_order-ids jobs [] = refl
  in_order-ids jobs (i ∷ ids) =
      let same = any_of-reverse_aux (λ j. j.id == i) jobs [] in
      let ih = in_order-ids jobs ids in
      elim (Option-cases (find_by (λ j. j.id == i) (reverse jobs))) [
        | inl e ↦
            let unknown = find_by-none (λ j. j.id == i) (reverse jobs) e in
            let absent : any_of (λ j. j.id == i) jobs ≡ false = ground (arith, same, unknown) in
            rw (e, in_order) (rw absent ih)
        | inr (j, e) ↦
            let (m, t) = find_by-some (λ j. j.id == i) j (reverse jobs) e in
            let found = any_of_of_mem (λ j. j.id == i) j (reverse jobs) m t in
            let present : any_of (λ j. j.id == i) jobs ≡ true = ground (arith, same, found) in
            rw (e, in_order)
              (rw present (
                ap (λ k. k ∷ map (λ j. j.id) (in_order jobs ids)) ((==_iff j.id i).0 t)
                ∙ ap (λ l. i ∷ l) ih))
      ]

  in_order-mem :
      (jobs : List (Job fl)) (ids : List ℕ) (job : Job fl) → job ∈ in_order jobs ids → job ∈ jobs
  unfolding in_order
  in_order-mem jobs [] job h = absurd h
  in_order-mem jobs (i ∷ ids) job h =
      elim (Option-cases (find_by (λ j. j.id == i) (reverse jobs))) [
        | inl e ↦ in_order-mem jobs ids job (rw (e, in_order) at h)
        | inr (j, e) ↦
            let h' : (job ≡ j) ⊎ (job ∈ in_order jobs ids) = rw (e, in_order) at h in
            elim h' [
              | inl same ↦
                  let (m, t) = find_by-some (λ j. j.id == i) j (reverse jobs) e in
                  subst (λ k. k ∈ jobs) (sym same)
                    (elim (mem-reverse_aux j jobs [] m) [ inl k ↦ k | inr k ↦ absurd k ])
              | inr k ↦ in_order-mem jobs ids job k
            ]
      ]

  abbrev chosen_rows : List ℕ → Option Datetime → Db fl → List (Job fl)
  chosen_rows ids deadline db =
      keep_if is_computable (keep_if (λ j. is_eligible deadline j && contains j.id ids) db.jobs)

  -- Among the rows of the query, an id of the list is there if a candidate has it.
  any_of-chosen_rows :
      (ids : List ℕ) (deadline : Option Datetime) (db : Db fl) (i : ℕ)
      → i ∈ ids
      → any_of (λ j. j.id == i) (chosen_rows ids deadline db)
        ≡ any_of (λ j. (j.id == i) && is_candidate deadline j) db.jobs
  any_of-chosen_rows ids deadline db i m =
      any_of-keep_if (λ j. j.id == i) is_computable _
      ∙ any_of-keep_if (λ j. (j.id == i) && is_computable j) _ db.jobs
      ∙ any_of-congr _ _ db.jobs (λ j. elim (Bool-cases (j.id == i)) [
        | inl e ↦
            let own = contains-mem i ids m in
            let same : contains j.id ids ≡ true =
              subst (λ k. contains k ids ≡ true) (sym ((==_iff j.id i).0 e)) own in
            rw e (rw same (swap (is_computable j) (is_eligible deadline j)))
        | inr e ↦ rw e refl
      ])
    where
      swap : (a b : Bool) → (a && (b && true)) ≡ (b && a)
      swap a b = ground arith

  -- The ids returned are the ids asked for, in the order asked for, less those that no candidate of
  -- the table has; and every job returned is a row of the table and a candidate.
  pub find_candidates_by_ids_lem :
      (ids : List ℕ) (deadline : Option Datetime) (db : Db fl)
      → (map (λ j. j.id) (find_candidates_by_ids ids deadline db)
          ≡ keep_if (λ i. any_of (λ j. (j.id == i) && is_candidate deadline j) db.jobs) ids)
        × AreCandidates deadline db (find_candidates_by_ids ids deadline db)
  unfolding find_candidates_by_ids computable_only
  find_candidates_by_ids_lem [] deadline db = (refl, tt)
  find_candidates_by_ids_lem (i ∷ ids) deadline db =
      let all = i ∷ ids in
      let rows = chosen_rows all deadline db in
      (
        in_order-ids rows all ∙ keep_if-congr _ _ all (any_of-chosen_rows all deadline db),
        All-of_mem _ _ (λ job h.
            let (m, c) = (mem-keep_if is_computable job _).0 (in_order-mem rows all job h) in
            let (m', e) = (mem-keep_if _ job db.jobs).0 m in
            let (eligible, asked) = and-parts (is_eligible deadline job) (contains job.id all) e in
            (m', rw (eligible, c) refl)),
      )
