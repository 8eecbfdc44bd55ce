-- ===== src/Matches/Knapsack/WayBack.antt =====
-- The way back through the rows of `keep`.
use mathlib.Core.List.{append_assoc, reverse_aux}
use vici.Base.{
  ℕ, ◌-◌, ◌≤◌, ◌<◌, ◌≡◌, refl, ◌∙◌, ap, inl, inr, true, false, some, List, [], ◌∷◌, ◌++◌, arith,
  ltb, if◌then◌else◌, length, get_elem?-eq-get_or, Bool-cases,
}
use vici.Base.Floats.{Floats}
use vici.Matches.Models.{JobCandidate}
use vici.Matches.Knapsack.{Trace, keep_cand, pick, trace_back}
use vici.Matches.Knapsack.Table.{marked, IsRow, AreRows}

module _ {fl : Floats} where
  -- What the marks select for the sum `w`, from the latest candidate on.
  abbrev pub chosen : List (JobCandidate fl) → ℕ → List (JobCandidate fl)
  chosen [] w = []
  chosen (c ∷ cs) w = if marked c cs w then c ∷ chosen cs (w - c.earnings) else chosen cs w

  -- The loop has not been left, its `w` is an index of the table, and what it still has to select
  -- from `seen` completes the selection.
  pub record IsOnTrack (capacity w : ℕ) (all seen : List (JobCandidate fl)) (t : Trace fl)
      : Type 0 where
    pub running : t.broken ≡ false
    pub in_range : t.rest ≤ capacity
    pub completes : t.selected ++ chosen seen t.rest ≡ chosen all w

  marked-le :
      (c : JobCandidate fl) (cs : List (JobCandidate fl)) (w : ℕ)
      → marked c cs w ≡ true
      → c.earnings ≤ w
  marked-le c cs w h = ground arith

  pick-IsOnTrack :
      (capacity w : ℕ) (all seen : List (JobCandidate fl)) (c : JobCandidate fl) (row : List ℕ)
      (t : Trace fl)
      → IsRow capacity c seen row
      → IsOnTrack capacity w all (c ∷ seen) t
      → (t' : Trace fl) × (pick c row t ≡ some t') × IsOnTrack capacity w all seen t'
  unfolding pick keep_cand
  pick-IsOnTrack capacity w all seen c row t r p =
      let inside : t.rest < length row = rw r.size (omega arith) in
      let read = get_elem?-eq-get_or row t.rest 0 inside ∙ ap some (r.marks t.rest p.in_range) in
      elim (Bool-cases (marked c seen t.rest)) [
        | inl kept ↦
            let fits = marked-le c seen t.rest kept in
            (
              record {
                selected = t.selected ++ c ∷ [];
                rest = t.rest - c.earnings;
                broken = ltb t.rest c.earnings;
              },
              rw (p.running, read, kept) refl,
              record {
                running = ground arith;
                in_range = omega (arith, p.in_range);
                completes = append_assoc t.selected _ _ ∙ (rw kept at p.completes);
              },
            )
        | inr left ↦ (
          t,
          rw (p.running, read, left) refl,
          record { running = p.running; in_range = p.in_range; completes = rw left at p.completes },
        )
      ]

  pub trace_back-IsOnTrack :
      (capacity w : ℕ) (cs seen : List (JobCandidate fl)) (keep : List (List ℕ))
      → w ≤ capacity
      → AreRows capacity cs seen keep
      → (t : Trace fl) × (trace_back cs keep w ≡ some t)
        × IsOnTrack capacity w (reverse_aux cs seen) seen t
  unfolding trace_back
  trace_back-IsOnTrack capacity w [] seen keep h rows = (
    record { selected = []; rest = w; broken = false },
    refl,
    record { running = refl; in_range = h; completes = refl },
  )
  trace_back-IsOnTrack capacity w (c ∷ cs) seen [] h rows = absurd rows
  trace_back-IsOnTrack capacity w (c ∷ cs) seen (row ∷ keep) h rows =
      let (t, e, p) = trace_back-IsOnTrack capacity w cs (c ∷ seen) keep h rows.1 in
      let (t', e', p') =
        pick-IsOnTrack capacity w (reverse_aux cs (c ∷ seen)) seen c row t rows.0 p in
      (t', rw e e', p')
