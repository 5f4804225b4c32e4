-- ===== src/Prelude/Lists.antt =====
-- Lists of rows: lengths, and the query-set operations `filter`, `exists` and `first`.
use Prim.Native.Nat.{ℕ, suc, ◌+◌}
use mathlib.Core.Path.{◌≡◌}
use mathlib.Core.Bool.{Bool, true, false}
use mathlib.Core.Option.{Option, none, some}
use mathlib.Core.List.{List, [], ◌∷◌, ◌++◌}
use native.Mathlib.Omega.{arith}

module _ {ℓ} {A : Type ℓ} where
  abbrev pub length : List A → ℕ
  length [] = 0
  length (x ∷ xs) = suc (length xs)

  -- `filter(p)`
  abbrev pub rows_where : (A → Bool) → List A → List A
  rows_where p [] = []
  rows_where p (x ∷ xs) =
      let rest = rows_where p xs in elim (p x) [ true ↦ x ∷ rest | false ↦ rest ]

  -- `filter(p).exists()`
  abbrev pub any_where : (A → Bool) → List A → Bool
  any_where p [] = false
  any_where p (x ∷ xs) = let rest = any_where p xs in elim (p x) [ true ↦ true | false ↦ rest ]

  -- `filter(p).first()`
  abbrev pub first_where : (A → Bool) → List A → Option A
  first_where p [] = none
  first_where p (x ∷ xs) =
      let rest = first_where p xs in elim (p x) [ true ↦ some x | false ↦ rest ]

  -- `filter(p).update(f)`
  abbrev pub update_where : (A → Bool) → (A → A) → List A → List A
  update_where p f [] = []
  update_where p f (x ∷ xs) = elim (p x) [ true ↦ f x | false ↦ x ] ∷ update_where p f xs

  pub length-append : (xs ys : List A) → length (xs ++ ys) ≡ length xs + length ys
  length-append [] ys = omega arith
  length-append (x ∷ xs) ys = omega (arith, length-append xs ys)
