-- ===== src/Core/Recurrence/Expansion.antt =====
-- The loop that both expansions of a recurring rule have: over the rows that are active, and for each
-- row over its dates, a step that may create a row, and a count of those created. What the two
-- expansions must have of their steps is stated here, and what follows for the loop.
use food_tech_crm_backend.Prelude.{ℕ, ◌+◌, List, [], ◌∷◌, ◌≡◌, refl, Bool, false, if◌then◌else◌}

abbrev pub count_of : Bool → ℕ
count_of b = if b then 1 else 0

module _ {S R : Type 0} (step : R → ℕ → S → Bool × S) where
  -- `for occurrence_date in occurrence_dates(...)`
  abbrev pub expand_dates : R → List ℕ → S → ℕ × S
  expand_dates r [] s = (0, s)
  expand_dates r (d ∷ ds) s =
      let (created, after) = step r d s in
      let (count, last) = expand_dates r ds after in (count_of created + count, last)

  -- `for row in active: total_created += ...`
  abbrev pub expand_rows : (R → List ℕ) → List R → S → ℕ × S
  expand_rows dates [] s = (0, s)
  expand_rows dates (r ∷ rs) s =
      let (created, after) = expand_dates r (dates r) s in
      let (count, last) = expand_rows dates rs after in (created + count, last)

  -- What every step keeps, the loop keeps.
  module _ (P : S → Type 0) (keeps : (r : R) (d : ℕ) (s : S) → P s → P (step r d s).1) where
    pub expand_dates_keeps : (r : R) (ds : List ℕ) (s : S) → P s → P (expand_dates r ds s).1
    expand_dates_keeps r [] s h = h
    expand_dates_keeps r (d ∷ ds) s h = expand_dates_keeps r ds (step r d s).1 (keeps r d s h)

    pub expand_rows_keeps :
        (dates : R → List ℕ) (rs : List R) (s : S) → P s → P (expand_rows dates rs s).1
    expand_rows_keeps dates [] s h = h
    expand_rows_keeps dates (r ∷ rs) s h =
        expand_rows_keeps dates rs (expand_dates r (dates r) s).1
          (expand_dates_keeps r (dates r) s h)

  -- A step that has nothing to do.
  abbrev pub IsDone : R → ℕ → S → Type 0
  IsDone r d s = step r d s ≡ (false, s)

  abbrev pub AreDone : R → List ℕ → S → Type 0
  AreDone r [] s = Unit
  AreDone r (d ∷ ds) s = IsDone r d s × AreDone r ds s

  abbrev pub AllDone : (R → List ℕ) → List R → S → Type 0
  AllDone dates [] s = Unit
  AllDone dates (r ∷ rs) s = AreDone r (dates r) s × AllDone dates rs s

  pub done_dates : (r : R) (ds : List ℕ) (s : S) → AreDone r ds s → expand_dates r ds s ≡ (0, s)
  done_dates r [] s h = refl
  done_dates r (d ∷ ds) s (h, hs) = rw (h, done_dates r ds s hs) refl

  pub done_rows :
      (dates : R → List ℕ) (rs : List R) (s : S)
      → AllDone dates rs s
      → expand_rows dates rs s ≡ (0, s)
  done_rows dates [] s h = refl
  done_rows dates (r ∷ rs) s (h, hs) = rw (done_dates r (dates r) s h, done_rows dates rs s hs) refl

  -- The laws of a step: it leaves itself nothing to do, and undoes no other.
  module _ (settles : (r : R) (d : ℕ) (s : S) → IsDone r d (step r d s).1)
      (stays : (r q : R) (d e : ℕ) (s : S) → IsDone r d s → IsDone r d (step q e s).1) where
    dates_stay :
        (r q : R) (d : ℕ) (es : List ℕ) (s : S) → IsDone r d s → IsDone r d (expand_dates q es s).1
    dates_stay r q d [] s h = h
    dates_stay r q d (e ∷ es) s h = dates_stay r q d es (step q e s).1 (stays r q d e s h)

    dates_keep :
        (r q : R) (ds es : List ℕ) (s : S) → AreDone r ds s → AreDone r ds (expand_dates q es s).1
    dates_keep r q [] es s h = tt
    dates_keep r q (d ∷ ds) es s (h, hs) = (dates_stay r q d es s h, dates_keep r q ds es s hs)

    rows_keep :
        (dates : R → List ℕ) (r : R) (ds : List ℕ) (qs : List R) (s : S)
        → AreDone r ds s
        → AreDone r ds (expand_rows dates qs s).1
    rows_keep dates r ds [] s h = h
    rows_keep dates r ds (q ∷ qs) s h =
        rows_keep dates r ds qs (expand_dates q (dates q) s).1 (dates_keep r q ds (dates q) s h)

    -- After the loop over a row's dates nothing is left to do for them.
    pub dates_settle : (r : R) (ds : List ℕ) (s : S) → AreDone r ds (expand_dates r ds s).1
    dates_settle r [] s = tt
    dates_settle r (d ∷ ds) s =
        (dates_stay r r d ds (step r d s).1 (settles r d s), dates_settle r ds (step r d s).1)

    -- After the loop over the rows nothing is left to do for any.
    pub rows_settle :
        (dates : R → List ℕ) (rs : List R) (s : S) → AllDone dates rs (expand_rows dates rs s).1
    rows_settle dates [] s = tt
    rows_settle dates (r ∷ rs) s = (
      rows_keep dates r (dates r) rs (expand_dates r (dates r) s).1 (dates_settle r (dates r) s),
      rows_settle dates rs (expand_dates r (dates r) s).1,
    )

    -- Run again, the loop creates nothing and changes nothing.
    pub expand_rows-twice :
        (dates : R → List ℕ) (rs : List R) (s : S)
        → let after = (expand_rows dates rs s).1 in expand_rows dates rs after ≡ (0, after)
    expand_rows-twice dates rs s = done_rows dates rs _ (rows_settle dates rs s)
