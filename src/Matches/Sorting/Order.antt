-- ===== src/Matches/Sorting/Order.antt =====
-- The result of `_sort_results` is the same selection, in order, and stable.
use mathlib.Core.List.{Perm, perm_middle, append-nil, append_assoc}
use mathlib.Core.List.Perm
use vici.Base.{
  ◌≡◌, refl, sym, subst, ◌∙◌, ap, ◌⊎◌, inl, inr, Bool, true, false, not, ◌&&◌, List, [], ◌∷◌, ◌++◌,
  arith, All, keep_if, Bool-cases,
}
use vici.Base.Floats.{Floats, IsOrdered}
use vici.Matches.Models.{JobCandidate}
use vici.Matches.Sorting.{before, insert, insert_all, sort_results}

keep_if-append :
    {A : Type 0} (p : A → Bool) (xs ys : List A)
    → keep_if p (xs ++ ys) ≡ keep_if p xs ++ keep_if p ys
keep_if-append p [] ys = refl
keep_if-append p (x ∷ xs) ys = ground (arith, keep_if-append p xs ys)

module _ {fl : Floats} where
  -- No later element is before an earlier one.
  abbrev pub IsSorted : List (JobCandidate fl) → Type 0
  IsSorted [] = Unit
  IsSorted (c ∷ cs) = All (λ d. before d c ≡ false) cs × IsSorted cs

  -- Two candidates with equal keys.
  abbrev pub ties : JobCandidate fl → JobCandidate fl → Bool
  ties a b = not (before a b) && not (before b a)

  insert-perm : (c : JobCandidate fl) (ds : List (JobCandidate fl)) → Perm (insert c ds) (c ∷ ds)
  unfolding insert
  insert-perm c [] = Perm.refl (c ∷ [])
  insert-perm c (d ∷ ds) = elim (Bool-cases (before c d)) [
    | inl first ↦ rw first (Perm.refl (c ∷ d ∷ ds))
    | inr later ↦ rw later (Perm.trans (Perm.cons d (insert-perm c ds)) (Perm.swap c d ds))
  ]

  insert_all-perm : (cs ds : List (JobCandidate fl)) → Perm (insert_all cs ds) (cs ++ ds)
  unfolding insert_all
  insert_all-perm [] ds = Perm.refl ds
  insert_all-perm (c ∷ cs) ds =
      Perm.trans (insert_all-perm cs (insert c ds))
        (Perm.trans (Perm.append (Perm.refl cs) (insert-perm c ds)) (perm_middle cs ds))

  module _ (o : IsOrdered fl) where
    not-before_self : (d : JobCandidate fl) → before d d ≡ false
    not-before_self d = ground (arith, o.le_total d.duration d.duration)

    before-asymm : (a b : JobCandidate fl) → before a b ≡ true → before b a ≡ false
    before-asymm a b h = ground (arith, o.le_total a.duration b.duration)

    not-before_trans :
        (a b c : JobCandidate fl) → before b a ≡ false → before c b ≡ false → before c a ≡ false
    not-before_trans a b c h k = ground (arith, o.le_trans a.duration b.duration c.duration)

    All-not-before :
        (a b : JobCandidate fl) (cs : List (JobCandidate fl))
        → before b a ≡ false
        → All (λ d. before d b ≡ false) cs
        → All (λ d. before d a ≡ false) cs
    All-not-before a b [] h k = tt
    All-not-before a b (c ∷ cs) h k = (not-before_trans a b c h k.0, All-not-before a b cs h k.1)

    All-insert :
        (a c : JobCandidate fl) (ds : List (JobCandidate fl))
        → before c a ≡ false
        → All (λ d. before d a ≡ false) ds
        → All (λ d. before d a ≡ false) (insert c ds)
    unfolding insert
    All-insert a c [] h k = (h, tt)
    All-insert a c (d ∷ ds) h k = elim (Bool-cases (before c d)) [
      | inl first ↦ rw first (h, k)
      | inr later ↦ rw later (k.0, All-insert a c ds h k.1)
    ]

    insert-IsSorted :
        (c : JobCandidate fl) (ds : List (JobCandidate fl)) → IsSorted ds → IsSorted (insert c ds)
    unfolding insert
    insert-IsSorted c [] s = (tt, tt)
    insert-IsSorted c (d ∷ ds) s = elim (Bool-cases (before c d)) [
      | inl first ↦
          let behind = before-asymm c d first in
          rw first ((behind, All-not-before c d ds behind s.0), s)
      | inr later ↦ rw later (All-insert d c ds later s.0, insert-IsSorted c ds s.1)
    ]

    insert_all-IsSorted :
        (cs ds : List (JobCandidate fl)) → IsSorted ds → IsSorted (insert_all cs ds)
    unfolding insert_all
    insert_all-IsSorted [] ds s = s
    insert_all-IsSorted (c ∷ cs) ds s =
        insert_all-IsSorted cs (insert c ds) (insert-IsSorted c ds s)

    ties-parts :
        (a c : JobCandidate fl) → ties a c ≡ true → (before a c ≡ false) × (before c a ≡ false)
    ties-parts a c t = ground arith

    before-ne :
        (a c d e : JobCandidate fl)
        → ties a c ≡ true
        → before c d ≡ true
        → before e d ≡ false
        → ties a e ≡ false
    before-ne a c d e t first behind = elim (Bool-cases (before a e)) [
      | inl less ↦ rw less refl
      | inr up ↦
          let (lo, hi) = ties-parts a c t in
          let chain = not-before_trans d a c (not-before_trans d e a behind up) hi in
          absurd (cc (sym first ∙ chain))
    ]

    keep_if-ties-nil :
        (a c d : JobCandidate fl) (ds : List (JobCandidate fl))
        → ties a c ≡ true
        → before c d ≡ true
        → All (λ e. before e d ≡ false) ds
        → keep_if (ties a) ds ≡ []
    keep_if-ties-nil a c d [] t first h = refl
    keep_if-ties-nil a c d (e ∷ ds) t first h =
        rw (before-ne a c d e t first h.0) (keep_if-ties-nil a c d ds t first h.1)

    -- An element goes behind all that tie with it.
    keep_if-insert :
        (a c : JobCandidate fl) (ds : List (JobCandidate fl))
        → IsSorted ds
        → keep_if (ties a) (insert c ds) ≡ keep_if (ties a) (ds ++ c ∷ [])
    unfolding insert
    keep_if-insert a c [] s = refl
    keep_if-insert a c (d ∷ ds) s = elim (Bool-cases (before c d)) [
      | inl first ↦ rw first (front (Bool-cases (ties a c)) first)
      | inr later ↦ rw (later, keep_if-insert a c ds s.1) refl
    ]
      where
        front :
            (ties a c ≡ true) ⊎ (ties a c ≡ false)
            → before c d ≡ true
            → keep_if (ties a) (c ∷ d ∷ ds) ≡ keep_if (ties a) ((d ∷ ds) ++ c ∷ [])
        front (inl t) first =
            let none_left = keep_if-ties-nil a c d (d ∷ ds) t first (not-before_self d, s.0) in
            rw keep_if-append (rw (t, none_left) refl)
        front (inr f) first = rw keep_if-append (rw f (sym (append-nil _)))

    keep_if-insert_all :
        (a : JobCandidate fl) (cs ds : List (JobCandidate fl))
        → IsSorted ds
        → keep_if (ties a) (insert_all cs ds) ≡ keep_if (ties a) (ds ++ cs)
    unfolding insert_all
    keep_if-insert_all a [] ds s = ap (keep_if (ties a)) (sym (append-nil ds))
    keep_if-insert_all a (c ∷ cs) ds s =
        keep_if-insert_all a cs (insert c ds) (insert-IsSorted c ds s)
        ∙ keep_if-append (ties a) (insert c ds) cs
        ∙ ap (λ l. l ++ keep_if (ties a) cs) (keep_if-insert a c ds s)
        ∙ sym (keep_if-append (ties a) (ds ++ c ∷ []) cs)
        ∙ ap (keep_if (ties a)) (append_assoc ds (c ∷ []) cs)

    -- The sort orders by the key, keeps every candidate, and is stable.
    pub sort_results-IsSorted :
        (cs : List (JobCandidate fl))
        → IsSorted (sort_results cs)
          × Perm (sort_results cs) cs
          × ((a : JobCandidate fl) → keep_if (ties a) (sort_results cs) ≡ keep_if (ties a) cs)
    unfolding sort_results
    sort_results-IsSorted cs = (
      insert_all-IsSorted cs [] tt,
      subst (Perm (insert_all cs [])) (append-nil cs) (insert_all-perm cs []),
      λ a. keep_if-insert_all a cs [] tt,
    )
