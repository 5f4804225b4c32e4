-- ===== src/Finance/Numbering.antt =====
-- finance/services.py, `_generate_number`: document numbers. A number's text is the list of its
-- code points.
use food_tech_crm_backend.Prelude.{
  ℕ, zero, suc, ◌+◌, ◌-◌, ◌*◌, ◌/◌, ◌%◌, ◌<◌, ◌≡◌, refl, ap, sym, ◌∙◌, arith, List, [], ◌∷◌, ◌++◌,
  none, some, Bool, true, false, ◌&&◌, length, ◌==◌, if◌then◌else◌, inl, inr, Bool-cases,
}
use food_tech_crm_backend.Prelude.Table.{Table, lookup, insert, update}

-- Decimal digits, the most significant first, in front of `acc`.
digits : ℕ → ℕ → List ℕ → List ℕ
digits zero n acc = acc
digits (suc fuel) n acc =
    let rest = digits fuel (n / 10) ((b'0' + n % 10) ∷ acc) in
    if n / 10 == 0 then (b'0' + n % 10) ∷ acc else rest

zeros : ℕ → List ℕ → List ℕ
zeros zero ds = ds
zeros (suc k) ds = b'0' ∷ zeros k ds

-- `f"{number:05d}"`
pub padded : ℕ → List ℕ
unfolding digits zeros
padded n = let ds = digits (suc n) n [] in zeros (5 - length ds) ds

-- `f"{prefix}-{number:05d}"`
unfoldable pub number_text : List ℕ → ℕ → List ℕ
unfolding padded
number_text prefix n = prefix ++ b'-' ∷ padded n

pub same_text : List ℕ → List ℕ → Bool
same_text [] [] = true
same_text (a ∷ s) (b ∷ t) = a == b && same_text s t
same_text _ _ = false

-- `get_or_create(business=business)` on a sequence table: the next number, 1 for a new row.
abbrev pub next_of : ℕ → Table ℕ → ℕ
next_of business sequences = elim (lookup business sequences) [ none ↦ 1 | some n ↦ n ]

-- the table after `next_number` has been taken and incremented
abbrev pub advance : ℕ → Table ℕ → Table ℕ
advance business sequences = elim (lookup business sequences) [
  | none ↦ insert business 2 sequences
  | some n ↦ update business (λ _. n + 1) sequences
]

-- Reading a number back.
abbrev value : ℕ → List ℕ → ℕ
value acc [] = acc
value acc (d ∷ ds) = value (acc * 10 + (d - b'0')) ds

value-digits : (fuel n : ℕ) (acc : List ℕ) → n < fuel → value 0 (digits fuel n acc) ≡ value n acc
unfolding digits
value-digits zero n acc h = absurd (omega arith)
value-digits (suc fuel) n acc h = elim (Bool-cases (n / 10 == 0)) [
  | inl small ↦ rw small (ap (λ k. value k acc) (ground arith))
  | inr large ↦ rw large (
      value-digits fuel (n / 10) ((b'0' + n % 10) ∷ acc) (ground arith)
      ∙ ap (λ k. value k acc) (omega arith))
]

value-zeros : (k : ℕ) (ds : List ℕ) → value 0 (zeros k ds) ≡ value 0 ds
unfolding zeros
value-zeros zero ds = refl
value-zeros (suc k) ds = value-zeros k ds

value-padded : (n : ℕ) → value 0 (padded n) ≡ n
unfolding padded
value-padded n =
    value-zeros (5 - length (digits (suc n) n [])) (digits (suc n) n [])
    ∙ value-digits (suc n) n [] (omega arith)

-- The number after a prefix and its dash.
unfoldable pub number_after : List ℕ → List ℕ → ℕ
number_after [] [] = 0
number_after [] (_ ∷ text) = value 0 text
number_after (_ ∷ prefix) [] = 0
number_after (_ ∷ prefix) (_ ∷ text) = number_after prefix text

-- Every document number can be read back from its text.
pub number_after-number_text :
    (prefix : List ℕ) (n : ℕ) → number_after prefix (number_text prefix n) ≡ n
unfolding number_after number_text
number_after-number_text [] n = value-padded n
number_after-number_text (c ∷ prefix) n = number_after-number_text prefix n

-- Two document numbers with the same prefix and the same text are the same number, also past 99999,
-- where the text is longer than five digits.
pub number_text-injective :
    (prefix : List ℕ) (m n : ℕ) → number_text prefix m ≡ number_text prefix n → m ≡ n
number_text-injective prefix m n h =
    sym (number_after-number_text prefix m)
    ∙ ap (number_after prefix) h
    ∙ number_after-number_text prefix n

inv_7 : padded 7 ≡ b'0' ∷ b'0' ∷ b'0' ∷ b'0' ∷ b'7' ∷ []
unfolding padded
inv_7 = refl
