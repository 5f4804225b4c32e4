-- ===== src/Employees/OpenRows.antt =====
-- What is open is open once: one open entry of a membership, one open break of an entry, one pending
-- swap request of a shift.
pub mod Keeps
pub mod Requests
use food_tech_crm_backend.Prelude.{
  ℕ, Option, none, some, [], ◌∷◌, ◌≡◌, arith, refl, Bool, true, false, not, ◌&&◌, ◌==◌, Bool-cases,
  inl, inr, any_where, is_some, if◌then◌else◌,
}
use food_tech_crm_backend.Prelude.Table.{Table, insert, update, update_all}
use food_tech_crm_backend.Prelude.Unique.{
  IsUnique, insert-IsUnique, update-IsUnique, update_all-IsUnique,
}
use food_tech_crm_backend.Prelude.Queries.{any_where-cons, any_where_head, any_where_tail}
use food_tech_crm_backend.Employees.Db.{TimeEntry, TimeEntryBreak, ShiftSwapRequest, Db}
use food_tech_crm_backend.Employees.TimeTracking.{
  is_clocked_in, is_open_entry, violates_open_entry, is_open, is_open_break,
}
use food_tech_crm_backend.Employees.Requests.{is_pending_swap, is_pending_for}

-- An entry is clocked in exactly as long as it has no end.
abbrev pub is_sound : TimeEntry → Bool
is_sound e = if is_clocked_in e then not (is_some e.clock_out_at) else is_some e.clock_out_at

abbrev pub AreSound : Table TimeEntry → Type 0
AreSound [] = Unit
AreSound ((_, e) ∷ t) = (is_sound e ≡ true) × AreSound t

abbrev pub IsEntries : Table TimeEntry → Type 0
IsEntries t = IsUnique is_clocked_in (λ e. e.membership) t × AreSound t

abbrev pub IsBreaks : Table TimeEntryBreak → Type 0
IsBreaks = IsUnique is_open (λ b. b.time_entry)

abbrev pub IsSwaps : Table ShiftSwapRequest → Type 0
IsSwaps = IsUnique is_pending_swap (λ r. r.shift)

abbrev pub IsConsistent : Db → Type 0
IsConsistent db = IsEntries db.time_entries × IsBreaks db.breaks × IsSwaps db.shift_swap_requests

-- The code's test for an open entry and the database's constraint agree.
pub no_violation :
    (pk : ℕ) (t : Table TimeEntry)
    → AreSound t
    → any_where (is_open_entry pk) t ≡ false
    → any_where (violates_open_entry pk) t ≡ false
no_violation pk [] h free = refl
no_violation pk ((k, e) ∷ t) (s, h) free =
    any_where-cons (violates_open_entry pk) (k, e) t
      (row (is_clocked_in e) refl (any_where_head (is_open_entry pk) (k, e) t free))
      (no_violation pk t h (any_where_tail (is_open_entry pk) (k, e) t free))
  where
    row :
        (b : Bool)
        → is_clocked_in e ≡ b
        → is_open_entry pk (k, e) ≡ false
        → violates_open_entry pk (k, e) ≡ false
    row b q free = ground arith

module _ (f : TimeEntry → TimeEntry)
    (sound : (e : TimeEntry) → is_sound e ≡ true → is_sound (f e) ≡ true) where
  changed_sound :
      (b : Bool) (e : TimeEntry) → is_sound e ≡ true → is_sound (if b then f e else e) ≡ true
  changed_sound true e s = sound e s
  changed_sound false e s = s

  pub update-AreSound : (k : ℕ) (t : Table TimeEntry) → AreSound t → AreSound (update k f t)
  update-AreSound k [] h = h
  update-AreSound k ((j, e) ∷ t) (s, h) = (changed_sound (j == k) e s, update-AreSound k t h)

  pub update_all-AreSound :
      (p : TimeEntry → Bool) (t : Table TimeEntry) → AreSound t → AreSound (update_all p f t)
  update_all-AreSound p [] h = h
  update_all-AreSound p ((j, e) ∷ t) (s, h) = (changed_sound (p e) e s, update_all-AreSound p t h)

-- A change of an entry that closes it.
module _ (f : TimeEntry → TimeEntry) (same_key : (e : TimeEntry) → (f e).membership ≡ e.membership)
    (closes : (e : TimeEntry) → is_clocked_in (f e) ≡ false)
    (sound : (e : TimeEntry) → is_sound (f e) ≡ true) where
  pub close-IsEntries : (k : ℕ) (t : Table TimeEntry) → IsEntries t → IsEntries (update k f t)
  close-IsEntries k t (u, s) = (
    update-IsUnique is_clocked_in (λ e. e.membership) f same_key (λ e _. closes e) k t u,
    update-AreSound f (λ e _. sound e) k t s,
  )

  pub close_all-IsEntries :
      (p : TimeEntry → Bool) (t : Table TimeEntry) → IsEntries t → IsEntries (update_all p f t)
  close_all-IsEntries p t (u, s) = (
    update_all-IsUnique is_clocked_in (λ e. e.membership) f same_key (λ e _. closes e) p t u,
    update_all-AreSound f (λ e _. sound e) p t s,
  )
