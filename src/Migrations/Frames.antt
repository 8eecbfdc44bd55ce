-- ===== src/Migrations/Frames.antt =====
-- What PostgreSQL makes of statements beside tables that they do not concern.
use vici.Base.{
  ◌≡◌, refl, ap, Bool, true, false, not, ◌&&◌, List, [], ◌∷◌, ◌++◌, Option, some, All, any_of,
  any_of-append, ◌>>=◌, Option-cases, inl, inr, arith,
}
use vici.Base.Texts.{Text, same}
use vici.Migrations.{
  Condition, primary_key, foreign_key, unique, check, Constraint, Table, Schema, Operation,
  create_table, drop_table, add_column, drop_column, alter_nullable, alter_type, create_constraint,
  drop_constraint, create_index, drop_index,
}
use vici.Migrations.Database.{
  all_of, has_table, has_index, is_referenced, is_column_referenced, has_target, is_valid, modify,
  make_constraint, make_index, remove_column, points_to, points_at, without, remove_index, apply,
  run,
}

-- The tables that a statement makes or drops are not in the schema, and nothing in it refers to them.
abbrev pub IsApart : Schema → Operation → Type 0
IsApart s (create_table n cs ks) = has_table n s ≡ false
IsApart s (drop_table n) = is_referenced n s ≡ false
IsApart s (drop_column n c) = is_column_referenced n c s ≡ false
IsApart s (create_index n i) = has_index i.name s ≡ false
IsApart s _ = Unit

all_of_of_imp :
    {A : Type 0} (p q : A → Bool) (xs : List A)
    → ((x : A) → p x ≡ true → q x ≡ true)
    → all_of p xs ≡ true
    → all_of q xs ≡ true
all_of_of_imp p q [] h e = refl
all_of_of_imp p q (x ∷ xs) h e = ground (arith, h x, all_of_of_imp p q xs h)

modify-append :
    (n : Text) (f g : Table → Option Table) (a b s : Schema)
    → ((t u : Table) → f t ≡ some u → g t ≡ some u)
    → modify n f a ≡ some b
    → modify n g (a ++ s) ≡ some (b ++ s)
modify-append n f g [] b s h e = absurd (cc)
modify-append n f g (t ∷ a) b s h e = elim (Option-cases (f t)) [
  | inl refused ↦ elim (Option-cases (modify n f a)) [
    | inl missing ↦ ground (arith)
    | inr (c, found) ↦ ground (arith, modify-append n f g a c s h found)
  ]
  | inr (u, made) ↦ elim (Option-cases (modify n f a)) [
    | inl missing ↦ ground (arith, h t u made)
    | inr (c, found) ↦ ground (arith, h t u made, modify-append n f g a c s h found)
  ]
]

remove_index-append :
    (i : Text) (a b s : Schema)
    → remove_index i a ≡ some b
    → remove_index i (a ++ s) ≡ some (b ++ s)
remove_index-append i [] b s e = absurd (cc)
remove_index-append i (t ∷ a) b s e = elim (Option-cases (remove_index i a)) [
  | inl missing ↦ ground arith
  | inr (c, found) ↦ ground (arith, remove_index-append i a c s found)
]

without-append :
    (n : Text) (a s : Schema) → has_table n a ≡ true → without n (a ++ s) ≡ without n a ++ s
without-append n [] s e = absurd (cc)
without-append n (t ∷ a) s e = ground (arith, without-append n a s)

module _ (s : Schema) where
  has_target-append :
      (a : Schema) (c : Condition) → has_target a c ≡ true → has_target (a ++ s) c ≡ true
  has_target-append a (primary_key cs) e = refl
  has_target-append a (foreign_key cs n ds d) e =
      ground (arith, any_of-append (λ t. same t.name n) a s)
  has_target-append a (unique cs) e = refl
  has_target-append a (check cs x) e = refl

  is_valid-append :
      (a : Schema) (t : Table) (k : Constraint)
      → is_valid a t k ≡ true
      → is_valid (a ++ s) t k ≡ true
  is_valid-append a t k e = ground (arith, has_target-append a k.condition)

  apply-append :
      (o : Operation) (a b : Schema)
      → IsApart s o
      → apply o a ≡ some b
      → apply o (a ++ s) ≡ some (b ++ s)
  unfolding apply
  apply-append (create_table n cs ks) a b h e =
      let t : Table = record { name = n; columns = cs; constraints = ks; indexes = [] } in
      ground (
        arith,
        any_of-append (λ t. same t.name n) a s,
        all_of_of_imp (is_valid (t ∷ a) t) (is_valid (t ∷ (a ++ s)) t) ks
            (is_valid-append (t ∷ a) t),
      )
  apply-append (drop_table n) a b h e = ground (
    arith,
    any_of-append (λ t. same t.name n) a s,
    any_of-append (λ t. not (same t.name n) && any_of (points_to n) t.constraints) a s,
    without-append n a s,
  )
  apply-append (add_column n c) a b h e = modify-append n _ _ a b s (λ t u x. x) e
  apply-append (drop_column n c) a b h e = ground (
    arith,
    any_of-append (λ t. not (same t.name n) && any_of (points_at n c) t.constraints) a s,
    modify-append n (remove_column c) (remove_column c) a b s (λ t u x. x),
  )
  apply-append (alter_nullable n c v) a b h e = modify-append n _ _ a b s (λ t u x. x) e
  apply-append (alter_type n c ty u) a b h e = modify-append n _ _ a b s (λ t u x. x) e
  apply-append (create_constraint n k) a b h e =
      modify-append n (make_constraint a k) (make_constraint (a ++ s) k) a b s
        (λ t u x. ground (arith, is_valid-append a t k)) e
  apply-append (drop_constraint n name) a b h e = modify-append n _ _ a b s (λ t u x. x) e
  apply-append (create_index n i) a b h e = ground (
    arith,
    any_of-append (λ t. any_of (λ x. same x.name i.name) t.indexes) a s,
    modify-append n (make_index i) (make_index i) a b s (λ t u x. x),
  )
  apply-append (drop_index i) a b h e = remove_index-append i a b s e

  pub run-append :
      (os : List Operation) (a b : Schema)
      → All (IsApart s) os
      → run apply os a ≡ some b
      → run apply os (a ++ s) ≡ some (b ++ s)
  unfolding run
  run-append [] a b h e = ap (λ o. o >>= λ x. some (x ++ s)) e
  run-append (o ∷ os) a b h e = elim (Option-cases (apply o a)) [
    | inl refused ↦ absurd (cc)
    | inr (c, made) ↦
        let rest : run apply os c ≡ some b = rw made at e in
        rw (apply-append o a c h.0 made) (run-append os c b h.1 rest)
  ]
