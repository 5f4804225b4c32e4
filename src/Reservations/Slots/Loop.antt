-- ===== src/Reservations/Slots/Loop.antt =====
-- The loop of `get_available_slots`: it ends, and which slots it finds.
use food_tech_crm_backend.Prelude.{
  ℕ, zero, suc, ◌+◌, ◌*◌, ◌<◌, ◌≤◌, Option, none, some, List, [], ◌∷◌, ◌≡◌, arith, refl, sym, ap,
  ◌∙◌, subst, ◌⊎◌, ◌&&◌, ◌||◌, ==_iff, Bool, true, false, ◌==◌, leb, Bool-cases, inl, inr,
  any_where, if◌then◌else◌,
}
use food_tech_crm_backend.Reservations.Slots.{append_if, slots_from}

abbrev pub offers : ℕ → List ℕ → Bool
offers s slots = any_where (λ x. x == s) slots

append_if-some :
    (b : Bool) (s : ℕ) (o : Option (List ℕ)) (slots : List ℕ)
    → append_if b s o ≡ some slots
    → (rest : List ℕ) × (o ≡ some rest) × (slots ≡ (if b then s ∷ rest else rest))
append_if-some b s none slots e = ground arith
append_if-some b s (some rest) slots e = (rest, refl, ground arith)

offers-if :
    (b : Bool) (s start : ℕ) (rest : List ℕ)
    → offers s (if b then start ∷ rest else rest) ≡ (b && start == s || offers s rest)
offers-if true s start rest = ground arith
offers-if false s start rest = refl

module _ (available : ℕ → Bool) (duration day_close interval : ℕ) where
  abbrev loop : ℕ → ℕ → Option (List ℕ)
  loop fuel start = slots_from available duration day_close interval fuel start

  abbrev pub IsFound : ℕ → ℕ → Type 0
  IsFound start s = (available s ≡ true) × (start ≤ s) × (s + duration ≤ day_close)

  loop_end : (start : ℕ) → loop 0 start ≡ none
  unfolding slots_from
  loop_end start = refl

  loop_inside :
      (fuel start : ℕ)
      → leb (start + duration) day_close ≡ true
      → loop (suc fuel) start ≡ append_if (available start) start (loop fuel (start + interval))
  unfolding slots_from
  loop_inside fuel start h = ground arith

  loop_past :
      (fuel start : ℕ) → leb (start + duration) day_close ≡ false → loop (suc fuel) start ≡ some []
  unfolding slots_from
  loop_past fuel start h = ground arith

  -- What a round that ends comes to: the slots of the later rounds, with this one where it is available.
  abbrev IsRound : ℕ → ℕ → List ℕ → Type 0
  IsRound fuel start slots =
      (leb (start + duration) day_close ≡ true)
      × (rest : List ℕ) × (loop fuel (start + interval) ≡ some rest)
      × (slots ≡ (if available start then start ∷ rest else rest))

  round :
      (fuel start : ℕ) (slots : List ℕ)
      → loop (suc fuel) start ≡ some slots
      → (slots ≡ []) × (leb (start + duration) day_close ≡ false) ⊎ IsRound fuel start slots
  round fuel start slots e = elim (Bool-cases (leb (start + duration) day_close)) [
    | inl f ↦
        let (rest, r, g) =
          append_if-some (available start) start (loop fuel (start + interval)) slots
            (sym (loop_inside fuel start f) ∙ e) in
        inr (f, rest, r, g)
    | inr f ↦ let empty = sym (loop_past fuel start f) ∙ e in inl (ground arith, f)
  ]

  -- Where the clock advances, fuel for every minute of the day is enough.
  pub slots_from-some :
      (fuel start : ℕ)
      → 0 < interval
      → day_close < start + fuel
      → (slots : List ℕ) × (loop (suc fuel) start ≡ some slots)
  slots_from-some zero start i e = ([], loop_past zero start (ground arith))
  slots_from-some (suc fuel) start i e =
      let (rest, h) = slots_from-some fuel (start + interval) i (omega arith) in
      elim (Bool-cases (leb (start + duration) day_close)) [
        | inr f ↦ ([], loop_past (suc fuel) start f)
        | inl f ↦ (
          if available start then start ∷ rest else rest,
          loop_inside (suc fuel) start f ∙ ap (append_if (available start) start) h,
        )
      ]

  pub slots_from-IsFound :
      (fuel start : ℕ) (slots : List ℕ) (s : ℕ)
      → loop fuel start ≡ some slots
      → offers s slots ≡ true
      → IsFound start s
  slots_from-IsFound zero start slots s e o = let absurd = sym (loop_end start) ∙ e in ground arith
  slots_from-IsFound (suc fuel) start slots s e o = elim (round fuel start slots e) [
    | inl (empty, _) ↦ let none_offered = subst (λ l. offers s l ≡ true) empty o in ground arith
    | inr (f, rest, r, g) ↦
        let offered =
          sym (offers-if (available start) s start rest) ∙ subst (λ l. offers s l ≡ true) g o in
        let later = slots_from-IsFound fuel (start + interval) rest s r in
        elim (Bool-cases (available start && start == s)) [
          | inl q ↦ found_here (available start) refl q f
          | inr q ↦ let (a, b, c) = later (ground arith) in (a, omega arith, c)
        ]
  ]
    where
      found_here :
          (b : Bool)
          → available start ≡ b
          → (b && start == s) ≡ true
          → leb (start + duration) day_close ≡ true
          → IsFound start s
      found_here true a q f =
          let same = (==_iff start s).0 q in
          (subst (λ t. available t ≡ true) same a, omega arith, ground arith)
      found_here false a q f = ground arith

  pub slots_from-all :
      (n fuel start : ℕ) (slots : List ℕ)
      → loop fuel start ≡ some slots
      → start + n * interval + duration ≤ day_close
      → available (start + n * interval) ≡ true
      → offers (start + n * interval) slots ≡ true
  slots_from-all n zero start slots e l a = let absurd = sym (loop_end start) ∙ e in ground arith
  slots_from-all zero (suc fuel) start slots e l a = elim (round fuel start slots e) [
    | inl (_, past) ↦ ground arith
    | inr (_, rest, _, g) ↦
        let same : start + 0 * interval ≡ start = omega arith in
        let here : available start ≡ true = subst (λ t. available t ≡ true) same a in
        rw (same, g) (offers-if (available start) start start rest ∙ ground arith)
  ]
  slots_from-all (suc n) (suc fuel) start slots e l a = elim (round fuel start slots e) [
    | inl (_, past) ↦ ground arith
    | inr (_, rest, r, g) ↦
        let same : start + interval + n * interval ≡ start + suc n * interval = omega arith in
        let later =
          slots_from-all n fuel (start + interval) rest r (omega arith)
            (subst (λ t. available t ≡ true) (sym same) a) in
        let offered = subst (λ t. offers t rest ≡ true) same later in
        rw g (offers-if (available start) (start + suc n * interval) start rest ∙ ground arith)
  ]
