-- ===== src/Reservations/Transitions.antt =====
-- reservations/views.py, `ReservationViewSet`: the actions of the staff on the status of a reservation.
-- An action is one request: it reads the row, tests its status and saves the new one, without a lock
-- between. Its response is the HTTP status.
mod Tests
mod Final
use food_tech_crm_backend.Prelude.{ℕ, Option, none, some, Bool, true, false, if◌then◌else◌}
use food_tech_crm_backend.Prelude.Table.{lookup, update}
use food_tech_crm_backend.Reservations.Db.{
  Status, pending, confirmed, seated, completed, cancelled, no_show, Reservation, Db,
}

abbrev pub save_status : ℕ → Status → Db → Db
save_status pk new db = record db {
  reservations = update pk (λ r. record r { status = new }) db.reservations;
}

-- The status of the row that `get_object` finds is tested; a missing row is a 404.
unfoldable pub transition : (Status → Bool) → Status → ℕ → Db → ℕ × Db
transition allowed new pk db = elim (lookup pk db.reservations) [
  | none ↦ (404, db)
  | some r ↦ if allowed r.status then (200, save_status pk new db) else (400, db)
]

abbrev pub is_expected : Status → Bool
is_expected pending = true
is_expected confirmed = true
is_expected _ = false

abbrev pub is_cancellable : Status → Bool
is_cancellable pending = true
is_cancellable confirmed = true
is_cancellable seated = true
is_cancellable _ = false

abbrev pub is_seated : Status → Bool
is_seated seated = true
is_seated _ = false

unfoldable pub seat : ℕ → Db → ℕ × Db
seat pk db = transition is_expected seated pk db

unfoldable pub cancel : ℕ → Db → ℕ × Db
cancel pk db = transition is_cancellable cancelled pk db

unfoldable pub mark_no_show : ℕ → Db → ℕ × Db
mark_no_show pk db = transition is_expected no_show pk db

unfoldable pub complete : ℕ → Db → ℕ × Db
complete pk db = transition is_seated completed pk db
