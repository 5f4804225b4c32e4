-- ===== src/Prelude/Queries.antt =====
-- What the query-set operations find.
use food_tech_crm_backend.Prelude.{
  ◌≡◌, arith, refl, Bool, true, false, none, some, List, [], ◌∷◌, any_where, first_where,
  rows_where, if◌then◌else◌, Bool-cases, inl, inr,
}

module _ {A : Type 0} (p : A → Bool) where
  pub any_where-cons :
      (x : A) (t : List A) → p x ≡ false → any_where p t ≡ false → any_where p (x ∷ t) ≡ false
  any_where-cons x t h k = ground arith

  pub any_where-later : (x : A) (t : List A) → any_where p t ≡ true → any_where p (x ∷ t) ≡ true
  any_where-later x t h = ground arith

  pub rows_where-cons :
      (x : A) (t : List A)
      → rows_where p (x ∷ t) ≡ (if p x then x ∷ rows_where p t else rows_where p t)
  rows_where-cons x t = ground arith

  pub any_where_head : (x : A) (t : List A) → any_where p (x ∷ t) ≡ false → p x ≡ false
  any_where_head x t h = elim (Bool-cases (p x)) [ inl e ↦ ground arith | inr e ↦ e ]

  pub any_where_tail : (x : A) (t : List A) → any_where p (x ∷ t) ≡ false → any_where p t ≡ false
  any_where_tail x t h = elim (Bool-cases (p x)) [ inl e ↦ ground arith | inr e ↦ ground arith ]

  pub first_where-some :
      (xs : List A) (x : A) → first_where p xs ≡ some x → (p x ≡ true) × (any_where p xs ≡ true)
  first_where-some [] x h = ground arith
  first_where-some (y ∷ ys) x h = row (first_where-some ys x) (p y) refl h
    where
      row :
          (first_where p ys ≡ some x → (p x ≡ true) × (any_where p ys ≡ true))
          → (b : Bool) → p y ≡ b
          → first_where p (y ∷ ys) ≡ some x
          → (p x ≡ true) × (any_where p (y ∷ ys) ≡ true)
      row rest true e h = (ground arith, ground arith)
      row rest false e h = let (found, some_row) = rest (ground arith) in (found, ground arith)

  pub first_where-none : (xs : List A) → first_where p xs ≡ none → any_where p xs ≡ false
  first_where-none [] h = refl
  first_where-none (y ∷ ys) h = elim (Bool-cases (p y)) [
    | inl e ↦ ground arith
    | inr e ↦ any_where-cons y ys e (first_where-none ys (ground arith))
  ]

  pub any_where-first : (xs : List A) → any_where p xs ≡ false → first_where p xs ≡ none
  any_where-first [] h = refl
  any_where-first (y ∷ ys) h = ground (arith, any_where-first ys)
