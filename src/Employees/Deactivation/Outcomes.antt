-- ===== src/Employees/Deactivation/Outcomes.antt =====
-- What a deactivation leaves behind.
use food_tech_crm_backend.Prelude.{
  ℕ, none, some, [], ◌∷◌, ◌≡◌, arith, refl, Bool, true, false, not, ◌&&◌, ◌==◌, any_where,
  if◌then◌else◌,
}
use food_tech_crm_backend.Prelude.Table.{Table, lookup, insert, update, update_all}
use food_tech_crm_backend.Prelude.Queries.{any_where-cons}
use food_tech_crm_backend.Core.Db.{BusinessMembership}
use food_tech_crm_backend.Employees.Db.{TimeEntry, TimeEntryBreak, cancelled, Db}
use food_tech_crm_backend.Employees.TimeTracking.{is_open_entry, is_open}
use food_tech_crm_backend.Employees.Deactivation.{
  is_left_open, force_ended, force_closed, concerns, is_pending_of, handle_membership_deactivation,
  save_membership,
}

abbrev pub saved : ℕ → BusinessMembership → Db → Db
saved pk m db = record db { memberships = update pk (λ _. m) db.memberships }

pub save_membership_lem :
    (now pk : ℕ) (m previous : BusinessMembership) (db : Db)
    → lookup pk db.memberships ≡ some previous
    → save_membership now pk m db ≡ (
        if previous.is_active && not m.is_active
        then handle_membership_deactivation now pk (saved pk m db)
        else saved pk m db)
unfolding save_membership
save_membership_lem now pk m previous db row = ground arith

pub save_membership_new :
    (now pk : ℕ) (m : BusinessMembership) (db : Db)
    → lookup pk db.memberships ≡ none
    → save_membership now pk m db ≡ record db { memberships = insert pk m db.memberships }
unfolding save_membership
save_membership_new now pk m db row = ground arith

-- A bulk update after which its filter holds of no row, done once more, changes nothing.
module _ {R : Type 0} (p : R → Bool) where
  abbrev pub NoRow : Table R → Type 0
  NoRow [] = Unit
  NoRow ((_, r) ∷ t) = (p r ≡ false) × NoRow t

  update_all_none : (f : R → R) (t : Table R) → NoRow t → update_all p f t ≡ t
  update_all_none f [] h = refl
  update_all_none f ((k, r) ∷ t) (e, h) = rw (e, update_all_none f t h) refl

  update_all-NoRow :
      (f : R → R) (t : Table R)
      → ((r : R) → p r ≡ true → p (f r) ≡ false)
      → NoRow (update_all p f t)
  update_all-NoRow f [] clears = tt
  update_all-NoRow f ((k, r) ∷ t) clears = (row (p r) refl, update_all-NoRow f t clears)
    where
      row : (b : Bool) → p r ≡ b → p (if b then f r else r) ≡ false
      row true e = clears r e
      row false e = e

-- What a membership has left open: nothing, once it is deactivated.
abbrev pub IsResolved : ℕ → Db → Type 0
IsResolved pk db =
    NoRow (λ e. is_open_entry pk (0, e)) db.time_entries
    × NoRow (concerns pk) db.shift_swap_requests
    × NoRow (is_pending_of pk) db.time_off_requests

no_left_open :
    (pk : ℕ) (b : TimeEntryBreak) (t : Table TimeEntry)
    → NoRow (λ e. is_open_entry pk (0, e)) t
    → is_left_open pk t b ≡ false
no_left_open pk b t h = last (is_open b) (all t h)
  where
    last :
        (o : Bool)
        → any_where (λ (k, e). is_open_entry pk (k, e) && k == b.time_entry) t ≡ false
        → is_left_open pk t b ≡ false
    last o h = ground arith

    all :
        (u : Table TimeEntry)
        → NoRow (λ e. is_open_entry pk (0, e)) u
        → any_where (λ (k, e). is_open_entry pk (k, e) && k == b.time_entry) u ≡ false
    all [] h = refl
    all ((k, e) ∷ u) (r, h) =
        any_where-cons (λ (k, e). is_open_entry pk (k, e) && k == b.time_entry) (k, e) u (rw r refl)
          (all u h)

pub deactivation-IsResolved :
    (now pk : ℕ) (db : Db) → IsResolved pk (handle_membership_deactivation now pk db)
unfolding handle_membership_deactivation
deactivation-IsResolved now pk db = (
  update_all-NoRow (λ e. is_open_entry pk (0, e)) (force_closed now) db.time_entries (λ _ _. refl),
  update_all-NoRow (concerns pk) (λ r. record r { status = cancelled }) db.shift_swap_requests
      (λ _ _. refl),
  update_all-NoRow (is_pending_of pk) (λ r. record r { status = cancelled }) db.time_off_requests
      (λ r _. left_false (r.membership == pk)),
)
  where
    left_false : (b : Bool) → (b && false) ≡ false
    left_false true = refl
    left_false false = refl

no_break_left :
    (pk : ℕ) (entries : Table TimeEntry) (t : Table TimeEntryBreak)
    → NoRow (λ e. is_open_entry pk (0, e)) entries
    → NoRow (is_left_open pk entries) t
no_break_left pk entries [] h = tt
no_break_left pk entries ((k, b) ∷ t) h =
    (no_left_open pk b entries h, no_break_left pk entries t h)

-- Where nothing is left open a deactivation changes nothing.
deactivation_resolved :
    (now pk : ℕ) (db : Db) → IsResolved pk db → handle_membership_deactivation now pk db ≡ db
unfolding handle_membership_deactivation
deactivation_resolved now pk db (entries, swaps, requests) =
    rw
      (
        update_all_none (is_left_open pk db.time_entries) (force_ended now) db.breaks
            (no_break_left pk db.time_entries db.breaks entries),
        update_all_none (λ e. is_open_entry pk (0, e)) (force_closed now) db.time_entries entries,
        update_all_none (concerns pk) (λ r. record r { status = cancelled }) db.shift_swap_requests
            swaps,
        update_all_none (is_pending_of pk) (λ r. record r { status = cancelled })
            db.time_off_requests requests,
      )
      refl

-- A deactivation that is run again, at any later time, changes nothing.
pub deactivation-twice :
    (now later pk : ℕ) (db : Db)
    → handle_membership_deactivation later pk (handle_membership_deactivation now pk db)
      ≡ handle_membership_deactivation now pk db
deactivation-twice now later pk db =
    deactivation_resolved later pk _ (deactivation-IsResolved now pk db)
