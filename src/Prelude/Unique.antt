-- ===== src/Prelude/Unique.antt =====
-- A unique constraint with a condition, as Django's `UniqueConstraint(fields=[key], condition=holds)`:
-- the rows where the condition holds have different keys.
use food_tech_crm_backend.Prelude.{
  ℕ, ◌≡◌, arith, refl, Bool, true, false, ◌&&◌, ◌==◌, [], ◌∷◌, any_where, if◌then◌else◌, Bool-cases,
  inl, inr,
}
use food_tech_crm_backend.Prelude.Queries.{any_where-cons, any_where_head, any_where_tail}
use food_tech_crm_backend.Prelude.Table.{Table, insert, update, update_all}

module _ {R : Type 0} (holds : R → Bool) (key : R → ℕ) where
  abbrev pub holds_at : ℕ → ℕ × R → Bool
  holds_at j (_, r) = holds r && key r == j

  abbrev pub IsUnique : Table R → Type 0
  IsUnique [] = Unit
  IsUnique ((_, r) ∷ t) = ((holds r && any_where (holds_at (key r)) t) ≡ false) × IsUnique t

  pub insert-IsUnique :
      (k : ℕ) (r : R) (t : Table R)
      → any_where (holds_at (key r)) t ≡ false
      → IsUnique t
      → IsUnique (insert k r t)
  insert-IsUnique k r t free h = (cases (holds r), h)
    where
      cases : (b : Bool) → (b && any_where (holds_at (key r)) t) ≡ false
      cases true = free
      cases false = refl

  -- A change of rows that keeps the key, and makes the condition hold of no row where it did not.
  module _ (f : R → R) (same_key : (r : R) → key (f r) ≡ key r)
      (shrinks : (r : R) → holds r ≡ false → holds (f r) ≡ false) where
    row_free :
        (j i : ℕ) (b : Bool) (r : R)
        → holds_at j (i, r) ≡ false
        → holds_at j (i, if b then f r else r) ≡ false
    row_free j i true r free =
        rw (same_key r)
          (elim (Bool-cases (holds r)) [ inl e ↦ ground arith | inr e ↦ rw (shrinks r e) refl ])
    row_free j i false r free = free

    head_free :
        (b : Bool) (r : R) (t u : Table R)
        → ((j : ℕ) → any_where (holds_at j) t ≡ false → any_where (holds_at j) u ≡ false)
        → (holds r && any_where (holds_at (key r)) t) ≡ false
        → let s = if b then f r else r in (holds s && any_where (holds_at (key s)) u) ≡ false
    head_free false r t u sub free = elim (Bool-cases (holds r)) [
      | inl e ↦ rw (sub (key r) (ground arith)) (ground arith)
      | inr e ↦ rw e refl
    ]
    head_free true r t u sub free = rw (same_key r) (elim (Bool-cases (holds r)) [
      | inl e ↦ rw (sub (key r) (ground arith)) (ground arith)
      | inr e ↦ rw (shrinks r e) refl
    ])

    update_free :
        (j k : ℕ) (t : Table R)
        → any_where (holds_at j) t ≡ false
        → any_where (holds_at j) (update k f t) ≡ false
    update_free j k [] free = refl
    update_free j k ((i, r) ∷ t) free =
        any_where-cons (holds_at j) (i, if i == k then f r else r) _
          (row_free j i (i == k) r (any_where_head (holds_at j) (i, r) t free))
          (update_free j k t (any_where_tail (holds_at j) (i, r) t free))

    pub update-IsUnique : (k : ℕ) (t : Table R) → IsUnique t → IsUnique (update k f t)
    update-IsUnique k [] h = h
    update-IsUnique k ((i, r) ∷ t) (free, h) =
        (head_free (i == k) r t _ (λ j. update_free j k t) free, update-IsUnique k t h)

    update_all_free :
        (j : ℕ) (p : R → Bool) (t : Table R)
        → any_where (holds_at j) t ≡ false
        → any_where (holds_at j) (update_all p f t) ≡ false
    update_all_free j p [] free = refl
    update_all_free j p ((i, r) ∷ t) free =
        any_where-cons (holds_at j) (i, if p r then f r else r) _
          (row_free j i (p r) r (any_where_head (holds_at j) (i, r) t free))
          (update_all_free j p t (any_where_tail (holds_at j) (i, r) t free))

    pub update_all-IsUnique :
        (p : R → Bool) (t : Table R) → IsUnique t → IsUnique (update_all p f t)
    update_all-IsUnique p [] h = h
    update_all-IsUnique p ((i, r) ∷ t) (free, h) =
        (head_free (p r) r t _ (λ j. update_all_free j p t) free, update_all-IsUnique p t h)
