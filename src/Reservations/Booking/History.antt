-- ===== src/Reservations/Booking/History.antt =====
-- Sequences of bookings, in any order, and what holds after them.
use food_tech_crm_backend.Prelude.{ℕ, Option}
use food_tech_crm_backend.Reservations.Db.{Db}
use food_tech_crm_backend.Reservations.Booking.{
  Outside, Guest, book_reservation, join_waitlist, convert_waitlist_entry,
}
use food_tech_crm_backend.Reservations.Booking.Overlap.{
  IsSingleBooked, book_reservation-IsSingleBooked, join_waitlist-IsSingleBooked,
  convert_waitlist_entry-IsSingleBooked,
}

-- One call of the service layer, with any arguments.
pub data Step (db : Db) : Db → Type 0 where
  books :
      (outside : Outside) (now : ℕ) (date_of : ℕ → ℕ) (location : ℕ) (guest : Guest) (start : ℕ)
      (minutes : Option ℕ)
      → Step db (book_reservation outside now date_of location guest start minutes db).1
  joins :
      (id location : ℕ) (guest : Guest) (time : ℕ)
      → Step db (join_waitlist id location guest time db).1
  converts :
      (outside : Outside) (pk : ℕ) (start minutes : Option ℕ)
      → Step db (convert_waitlist_entry outside pk start minutes db).1

pub data Reach (s : Db) : Db → Type 0 where
  here : Reach s s
  next : {t u : Db} → Reach s t → Step t u → Reach s u

Step-IsSingleBooked : {s t : Db} → Step s t → IsSingleBooked s → IsSingleBooked t
Step-IsSingleBooked (books outside now date_of location guest start minutes) h =
    book_reservation-IsSingleBooked outside now date_of location guest start minutes _ h
Step-IsSingleBooked (joins id location guest time) h =
    join_waitlist-IsSingleBooked id location guest time _ h
Step-IsSingleBooked (converts outside pk start minutes) h =
    convert_waitlist_entry-IsSingleBooked outside pk start minutes _ h

-- After any sequence of bookings, waitlist entries and their conversions, from tables where this
-- holds (no reservations, say): no two active reservations of one table overlap in time, whatever the
-- buffer was at each booking and in whatever order the database gave the tables.
pub Reach-IsSingleBooked : {s t : Db} → IsSingleBooked s → Reach s t → IsSingleBooked t
Reach-IsSingleBooked h here = h
Reach-IsSingleBooked h (next r st) = Step-IsSingleBooked st (Reach-IsSingleBooked h r)
