-- ===== src/Employees/Deactivation.antt =====
-- employees/services.py and employees/signals.py: what a membership leaves open is closed when the
-- membership is deactivated.
pub mod Outcomes
use food_tech_crm_backend.Prelude.{
  ℕ, Option, none, some, ◌∷◌, Bool, true, false, not, ◌&&◌, ◌||◌, ◌==◌, ◌==?◌, any_where,
  if◌then◌else◌,
}
use food_tech_crm_backend.Prelude.Table.{Table, lookup, insert, update, update_all}
use food_tech_crm_backend.Core.Db.{BusinessMembership}
use food_tech_crm_backend.Employees.Db.{
  EntryStatus, clocked_out, TimeEntry, TimeEntryBreak, RequestStatus, cancelled, ShiftSwapRequest,
  TimeOffRequest, Db,
}
use food_tech_crm_backend.Employees.TimeTracking.{is_clocked_in, is_open_entry, is_open}
use food_tech_crm_backend.Employees.Requests.{is_pending}

-- A break of one of the entries that the membership has open.
abbrev pub is_left_open : ℕ → Table TimeEntry → TimeEntryBreak → Bool
is_left_open membership entries b =
    is_open b && any_where (λ (k, e). is_open_entry membership (k, e) && k == b.time_entry) entries

abbrev pub force_ended : ℕ → TimeEntryBreak → TimeEntryBreak
force_ended now b = record b { break_end_at = some now; auto_closed_on_deactivation = true }

abbrev pub force_closed : ℕ → TimeEntry → TimeEntry
force_closed now e = record e {
  clock_out_at = some now;
  status = clocked_out;
  auto_closed_on_deactivation = true;
}

abbrev pub concerns : ℕ → ShiftSwapRequest → Bool
concerns membership r =
    is_pending r.status
    && (r.requesting_membership == membership || r.target_membership ==? membership)

abbrev pub is_pending_of : ℕ → TimeOffRequest → Bool
is_pending_of membership r = r.membership == membership && is_pending r.status

-- The entries that are closed are those that were found open, and are locked; nothing here raises.
unfoldable pub handle_membership_deactivation : ℕ → ℕ → Db → Db
handle_membership_deactivation now membership db = record db {
  breaks = update_all (is_left_open membership db.time_entries) (force_ended now) db.breaks;
  time_entries =
      update_all (λ e. is_open_entry membership (0, e)) (force_closed now) db.time_entries;
  shift_swap_requests =
      update_all (concerns membership) (λ r. record r { status = cancelled })
        db.shift_swap_requests;
  time_off_requests =
      update_all (is_pending_of membership) (λ r. record r { status = cancelled })
        db.time_off_requests;
}

-- `BusinessMembership.save()` with the signals before and after it: the cascade runs where a stored
-- row that was active is saved as inactive, and not for a row that is created.
unfoldable pub save_membership : ℕ → ℕ → BusinessMembership → Db → Db
save_membership now pk m db = elim (lookup pk db.memberships) [
  | none ↦ record db { memberships = insert pk m db.memberships }
  | some previous ↦
      let saved : Db = record db { memberships = update pk (λ _. m) db.memberships } in
      if previous.is_active && not m.is_active
      then handle_membership_deactivation now pk saved
      else saved
]
