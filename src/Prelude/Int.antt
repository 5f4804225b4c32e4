-- ===== src/Prelude/Int.antt =====
-- Signed integers over the native numbers: amounts of money in cents and other scaled decimals.
use food_tech_crm_backend.Prelude.{
  ℕ, suc, ◌+◌, ◌-◌, ◌*◌, ◌≤◌, ◌≡◌, Bool, List, [], ◌∷◌, arith, ltb, leb, if◌then◌else◌, true, false,
  ◌⊎◌, inl, inr,
}

-- `negsuc n` is -(n + 1).
pub data ℤ : Type 0 where
  pos : ℕ → ℤ
  negsuc : ℕ → ℤ

abbrev pub pos_part : ℤ → ℕ
pos_part (pos n) = n
pos_part (negsuc n) = 0

abbrev pub neg_part : ℤ → ℕ
neg_part (pos n) = 0
neg_part (negsuc n) = suc n

-- a - b, as an integer.
abbrev pub sub_ℕ : ℕ → ℕ → ℤ
sub_ℕ a b = if leb b a then pos (a - b) else negsuc (b - a - 1)

infixl 65 ◌+ℤ◌ ◌-ℤ◌
infixl 70 ◌*ℤ◌
infix 50 ◌≤ℤ◌ ◌<ℤ◌
unfoldable pub ◌+ℤ◌ : ℤ → ℤ → ℤ
a +ℤ b = sub_ℕ (pos_part a + pos_part b) (neg_part a + neg_part b)

unfoldable pub ◌-ℤ◌ : ℤ → ℤ → ℤ
a -ℤ b = sub_ℕ (pos_part a + neg_part b) (neg_part a + pos_part b)

unfoldable pub ◌*ℤ◌ : ℤ → ℤ → ℤ
a *ℤ b =
    sub_ℕ (pos_part a * pos_part b + neg_part a * neg_part b)
      (pos_part a * neg_part b + neg_part a * pos_part b)

abbrev pub neg : ℤ → ℤ
neg a = sub_ℕ (neg_part a) (pos_part a)

abbrev pub ◌≤ℤ◌ : ℤ → ℤ → Type 0
a ≤ℤ b = pos_part a + neg_part b ≤ pos_part b + neg_part a

abbrev pub ◌<ℤ◌ : ℤ → ℤ → Type 0
a <ℤ b = suc (pos_part a + neg_part b) ≤ pos_part b + neg_part a

abbrev pub ltb_ℤ : ℤ → ℤ → Bool
ltb_ℤ a b = ltb (pos_part a + neg_part b) (pos_part b + neg_part a)

abbrev pub leb_ℤ : ℤ → ℤ → Bool
leb_ℤ a b = leb (pos_part a + neg_part b) (pos_part b + neg_part a)

-- `max` and `min` of Python on two values.
abbrev pub max_ℤ : ℤ → ℤ → ℤ
max_ℤ a b = if ltb_ℤ a b then b else a

abbrev pub min_ℤ : ℤ → ℤ → ℤ
min_ℤ a b = if ltb_ℤ b a then b else a

-- One lemma for each operation lets the tactics work with the operations shut.
pub +ℤ_parts :
    (a b : ℤ)
    → pos_part (a +ℤ b) + neg_part a + neg_part b ≡ neg_part (a +ℤ b) + pos_part a + pos_part b
unfolding ◌+ℤ◌
+ℤ_parts a b = ground arith

pub -ℤ_parts :
    (a b : ℤ)
    → pos_part (a -ℤ b) + neg_part a + pos_part b ≡ neg_part (a -ℤ b) + pos_part a + neg_part b
unfolding ◌-ℤ◌
-ℤ_parts a b = ground arith

pub eq_of_parts : (a b : ℤ) → pos_part a + neg_part b ≡ pos_part b + neg_part a → a ≡ b
eq_of_parts a b h = ground arith

pub ruleset int_laws = (arith, +ℤ_parts, -ℤ_parts, eq_of_parts)

-- The sum of a column over the rows that pass a test: `filter(p).aggregate(Sum(f))`, or 0.
module _ {ℓ} {A : Type ℓ} where
  abbrev pub sum_where : (A → Bool) → (A → ℤ) → List A → ℤ
  sum_where p f [] = pos 0
  sum_where p f (x ∷ xs) =
      let rest = sum_where p f xs in elim (p x) [ true ↦ f x +ℤ rest | false ↦ rest ]

pub +ℤ_assoc : (a b c : ℤ) → a +ℤ b +ℤ c ≡ a +ℤ (b +ℤ c)
+ℤ_assoc a b c = omega int_laws

pub +ℤ_comm : (a b : ℤ) → a +ℤ b ≡ b +ℤ a
+ℤ_comm a b = omega int_laws

pub parts_disjoint : (a : ℤ) → (pos_part a ≡ 0) ⊎ (neg_part a ≡ 0)
parts_disjoint a = ground arith

pub max_ℤ-zero : (a : ℤ) → max_ℤ (pos 0) a ≡ pos (pos_part a)
max_ℤ-zero a = ground arith

-- What a product with a number has for its parts.
pub pos_part-*ℤ : (x : ℤ) (n : ℕ) → pos_part (x *ℤ pos n) ≡ pos_part x * n
unfolding ◌*ℤ◌
pos_part-*ℤ (pos m) n = ground arith
pos_part-*ℤ (negsuc m) n = ground arith

pub neg_part-*ℤ : (x : ℤ) (n : ℕ) → neg_part (x *ℤ pos n) ≡ neg_part x * n
unfolding ◌*ℤ◌
neg_part-*ℤ (pos m) n = ground arith
neg_part-*ℤ (negsuc m) n = ground arith

pub *ℤ-zero : (x : ℤ) → x *ℤ pos 0 ≡ pos 0
*ℤ-zero x = grind (arith, pos_part-*ℤ x 0, neg_part-*ℤ x 0, eq_of_parts (x *ℤ pos 0) (pos 0))

pub +ℤ-zero : (x : ℤ) → x +ℤ pos 0 ≡ x
+ℤ-zero x = omega int_laws

pub neg-+ℤ : (a b : ℤ) → neg a +ℤ b ≡ b -ℤ a
unfolding ◌+ℤ◌ ◌-ℤ◌
neg-+ℤ a b = ground arith
