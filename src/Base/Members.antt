-- ===== src/Base/Members.antt =====
-- Membership in the lists that filters, prefixes and appends make.
use Prim.Native.Nat.{ℕ, zero, suc, ◌≤◌}
use mathlib.Core.Path.{◌≡◌, refl, sym, ap, ◌∙◌, subst}
use mathlib.Core.Logic.{◌↔◌, ◌⊎◌, inl, inr}
use mathlib.Core.Bool.{Bool, true, false, ◌&&◌, ◌||◌}
use mathlib.Core.List.{List, [], ◌∷◌, ◌++◌, map, reverse_aux}
use mathlib.Core.Option.{none, some}
use native.Mathlib.Omega.{arith}
use vici.Base.Tests.{Bool-cases}
use vici.Base.Lists.{◌∈◌, All, length, take, keep_if, any_of, count_if, find_by}

module _ {A : Type 0} where
  pub All-append : (P : A → Type 0) (xs ys : List A) → All P xs → All P ys → All P (xs ++ ys)
  All-append P [] ys h k = k
  All-append P (x ∷ xs) ys h k = (h.0, All-append P xs ys h.1 k)

  pub mem-append : (a : A) (xs ys : List A) → (a ∈ (xs ++ ys)) ↔ ((a ∈ xs) ⊎ (a ∈ ys))
  mem-append a [] ys = (inr, λ h. elim h [ inl x ↦ absurd x | inr y ↦ y ])
  mem-append a (x ∷ xs) ys =
      let ih = mem-append a xs ys in
      (
        λ h. elim h [
          | inl e ↦ inl (inl e)
          | inr m ↦ elim (ih.0 m) [ inl a ↦ inl (inr a) | inr b ↦ inr b ]
        ],
        λ h. elim h [
          | inl m ↦ elim m [ inl e ↦ inl e | inr k ↦ inr (ih.1 (inl k)) ]
          | inr m ↦ inr (ih.1 (inr m))
        ],
      )

  pub mem-keep_if :
      (p : A → Bool) (a : A) (xs : List A) → (a ∈ keep_if p xs) ↔ ((a ∈ xs) × (p a ≡ true))
  mem-keep_if p a [] = (λ h. absurd h, λ h. h.0)
  mem-keep_if p a (x ∷ xs) =
      let ih = mem-keep_if p a xs in
      elim (Bool-cases (p x)) [
        | inl kept ↦ rw kept (
          λ h. elim h [ inl e ↦ (inl e, ap p e ∙ kept) | inr m ↦ (inr (ih.0 m).0, (ih.0 m).1) ],
          λ h. elim h.0 [ inl e ↦ inl e | inr m ↦ inr (ih.1 (m, h.1)) ],
        )
        | inr out ↦ rw out (
          λ m. (inr (ih.0 m).0, (ih.0 m).1),
          λ h. elim h.0 [ inl e ↦ absurd (cc (ap p e)) | inr m ↦ ih.1 (m, h.1) ],
        )
      ]

  pub mem-take : (n : ℕ) (a : A) (xs : List A) → a ∈ take n xs → a ∈ xs
  mem-take zero a xs h = absurd h
  mem-take (suc n) a [] h = h
  mem-take (suc n) a (x ∷ xs) h = elim h [ inl e ↦ inl e | inr m ↦ inr (mem-take n a xs m) ]

  pub take_all_of_le : (n : ℕ) (xs : List A) → length xs ≤ n → take n xs ≡ xs
  take_all_of_le zero [] h = refl
  take_all_of_le zero (x ∷ xs) h = absurd (omega arith)
  take_all_of_le (suc n) [] h = refl
  take_all_of_le (suc n) (x ∷ xs) h = ap (λ ys. x ∷ ys) (take_all_of_le n xs (omega arith))

  pub mem-reverse_aux : (a : A) (xs ys : List A) → a ∈ reverse_aux xs ys → (a ∈ xs) ⊎ (a ∈ ys)
  mem-reverse_aux a [] ys h = inr h
  mem-reverse_aux a (x ∷ xs) ys h = elim (mem-reverse_aux a xs (x ∷ ys) h) [
    | inl m ↦ inl (inr m)
    | inr m ↦ elim m [ inl e ↦ inl (inl e) | inr k ↦ inr k ]
  ]

  -- What `find_by` finds is in the list and passes the test, and it finds something if anything does.
  pub find_by-some :
      (p : A → Bool) (a : A) (xs : List A) → find_by p xs ≡ some a → (a ∈ xs) × (p a ≡ true)
  find_by-some p a [] h = absurd (cc)
  find_by-some p a (x ∷ xs) h = elim (Bool-cases (p x)) [
    | inl found ↦
        let e : some x ≡ some a = rw found at h in
        let same : x ≡ a = cc in (inl (sym same), ap p (sym same) ∙ found)
    | inr other ↦ let (m, t) = find_by-some p a xs (rw other at h) in (inr m, t)
  ]

  pub find_by-none : (p : A → Bool) (xs : List A) → find_by p xs ≡ none → any_of p xs ≡ false
  find_by-none p [] h = refl
  find_by-none p (x ∷ xs) h = ground (arith, find_by-none p xs)

  pub any_of_of_mem :
      (p : A → Bool) (a : A) (xs : List A) → a ∈ xs → p a ≡ true → any_of p xs ≡ true
  any_of_of_mem p a [] m h = absurd m
  any_of_of_mem p a (x ∷ xs) m h = elim m [
    | inl e ↦ rw (ap p (sym e) ∙ h) refl
    | inr k ↦ rw (any_of_of_mem p a xs k h) (or-true (p x))
  ]
    where
      or-true : (b : Bool) → (b || true) ≡ true
      or-true b = ground arith

  pub any_of-reverse_aux :
      (p : A → Bool) (xs ys : List A) → any_of p (reverse_aux xs ys) ≡ (any_of p xs || any_of p ys)
  any_of-reverse_aux p [] ys = refl
  any_of-reverse_aux p (x ∷ xs) ys = ground (arith, any_of-reverse_aux p xs (x ∷ ys))

  pub any_of-keep_if :
      (p q : A → Bool) (xs : List A) → any_of p (keep_if q xs) ≡ any_of (λ x. p x && q x) xs
  any_of-keep_if p q [] = refl
  any_of-keep_if p q (x ∷ xs) = ground (arith, any_of-keep_if p q xs)

  pub keep_if-congr :
      (p q : A → Bool) (xs : List A) → ((a : A) → a ∈ xs → p a ≡ q a) → keep_if p xs ≡ keep_if q xs
  keep_if-congr p q [] h = refl
  keep_if-congr p q (x ∷ xs) h = rw (h x (inl refl), keep_if-congr p q xs (λ a m. h a (inr m))) refl

  pub any_of-congr :
      (p q : A → Bool) (xs : List A) → ((a : A) → p a ≡ q a) → any_of p xs ≡ any_of q xs
  any_of-congr p q [] h = refl
  any_of-congr p q (x ∷ xs) h = rw (h x, any_of-congr p q xs h) refl

  pub count_if-congr :
      (p q : A → Bool) (xs : List A)
      → ((a : A) → a ∈ xs → p a ≡ q a)
      → count_if p xs ≡ count_if q xs
  count_if-congr p q [] h = refl
  count_if-congr p q (x ∷ xs) h =
      rw (h x (inl refl), count_if-congr p q xs (λ a m. h a (inr m))) refl

  pub count_if-map :
      (p : A → Bool) (f : A → A) (xs : List A) → count_if p (map f xs) ≡ count_if (λ a. p (f a)) xs
  count_if-map p f [] = refl
  count_if-map p f (x ∷ xs) = rw (count_if-map p f xs) refl

  pub count_if-keep_if :
      (p q : A → Bool) (xs : List A) → count_if p (keep_if q xs) ≡ count_if (λ a. q a && p a) xs
  count_if-keep_if p q [] = refl
  count_if-keep_if p q (x ∷ xs) = ground (arith, count_if-keep_if p q xs)

pub All-of_mem : {A : Type 0} (P : A → Type 0) (xs : List A) → ((a : A) → a ∈ xs → P a) → All P xs
All-of_mem P [] h = tt
All-of_mem P (x ∷ xs) h = (h x (inl refl), All-of_mem P xs (λ a m. h a (inr m)))

pub mem_of_All : {A : Type 0} (P : A → Type 0) (xs : List A) → All P xs → (a : A) → a ∈ xs → P a
mem_of_All P [] h a m = absurd m
mem_of_All P (x ∷ xs) h a m = elim m [
  | inl e ↦ subst P (sym e) h.0
  | inr k ↦ mem_of_All P xs h.1 a k
]
