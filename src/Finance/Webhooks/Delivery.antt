-- ===== src/Finance/Webhooks/Delivery.antt =====
-- An event that is delivered more than once.
use food_tech_crm_backend.Prelude.{
  ℕ, Option, none, some, List, [], ◌∷◌, ◌≡◌, ◌⊎◌, arith, refl, Bool, true, false, Bool-cases, inl,
  inr, any_where,
}
use food_tech_crm_backend.Prelude.Exec.{Result, ok, err, atomic}
use food_tech_crm_backend.Finance.Webhooks.{
  EventObject, Event, Db, Error, handle, handle_checkout_completed, handle_subscription_updated,
  handle_subscription_deleted, handle_invoice_paid, is_event, record_event, process, post, respond,
}

-- A handler does not touch the events.
handle-events :
    (object : EventObject) (db : Db) → (handle object db).1.stripe_events ≡ db.stripe_events
unfolding handle handle_checkout_completed handle_subscription_updated handle_subscription_deleted
    handle_invoice_paid
handle-events object db = ground arith

abbrev pub is_seen : Event → Db → Bool
is_seen event db = any_where (is_event event.id) db.stripe_events

-- An event is processed whole, and recorded, or not at all.
abbrev IsWhole : Event → Db → Result Error (Unit {0}) × Db → Type 0
IsWhole event db (ok _, after) = after.stripe_events ≡ event.id ∷ db.stripe_events
IsWhole event db (err _, after) = after ≡ db

process-IsWhole : (event : Event) (db : Db) → IsWhole event db (process event db)
unfolding process
process-IsWhole event db =
    cases (handle event.object (record_event event.id db))
      (handle-events event.object (record_event event.id db))
  where
    cases :
        (o : Result Error (Unit {0}) × Db)
        → o.1.stripe_events ≡ event.id ∷ db.stripe_events
        → IsWhole event db (atomic {S = Db} {E = Error} {A = Unit {0}} (λ _. o) db)
    cases (err e, s) q = refl
    cases (ok a, s) q = q

post-unsigned : (db : Db) → post none db ≡ (400, db)
unfolding post
post-unsigned db = refl

post-seen : (event : Event) (db : Db) → is_seen event db ≡ true → post (some event) db ≡ (200, db)
unfolding post
post-seen event db h = rw h refl

post-new :
    (event : Event) (db : Db)
    → is_seen event db ≡ false
    → post (some event) db ≡ respond (process event db)
unfolding post
post-new event db h = rw h refl

-- What is said of a response to an event, and of what it leaves.
abbrev pub IsAnswer : Event → Db → ℕ × Db → Type 0
IsAnswer event db (status, after) =
    ((status ≡ 200) × (is_seen event after ≡ true)) ⊎ ((status ≡ 500) × (after ≡ db))

-- The answer to an event is 200, and then the event is recorded, or 500, and then nothing has changed:
-- a failed event is as new when it is delivered again.
pub post-IsAnswer : (event : Event) (db : Db) → IsAnswer event db (post (some event) db)
post-IsAnswer event db = elim (Bool-cases (is_seen event db)) [
  | inl seen ↦ rw (post-seen event db seen) (inl (refl, seen))
  | inr new ↦ rw (post-new event db new) (answer (process event db) (process-IsWhole event db))
]
  where
    answer : (o : Result Error (Unit {0}) × Db) → IsWhole event db o → IsAnswer event db (respond o)
    answer (ok _, after) h = inl (refl, rw h (ground arith))
    answer (err _, after) h = inr (refl, h)

grows :
    (event other : Event) (db after : Db)
    → after.stripe_events ≡ other.id ∷ db.stripe_events
    → is_seen event db ≡ true
    → is_seen event after ≡ true
grows event other db after e h = rw e (ground arith)

post-kept :
    (event : Event) (o : Option Event) (db : Db)
    → is_seen event db ≡ true
    → is_seen event (post o db).1 ≡ true
post-kept event none db h = rw (post-unsigned db) h
post-kept event (some other) db h = elim (Bool-cases (is_seen other db)) [
  | inl seen ↦ rw (post-seen other db seen) h
  | inr new ↦ rw (post-new other db new) (kept (process other db) (process-IsWhole other db))
]
  where
    kept :
        (o : Result Error (Unit {0}) × Db) → IsWhole other db o → is_seen event (respond o).1 ≡ true
    kept (ok _, after) e = grows event other db after e h
    kept (err _, after) e = rw e h

-- The state after some deliveries, one after the other.
abbrev pub deliver : List (Option Event) → Db → Db
deliver [] db = db
deliver (o ∷ os) db = deliver os (post o db).1

deliver-kept :
    (event : Event) (os : List (Option Event)) (db : Db)
    → is_seen event db ≡ true
    → is_seen event (deliver os db) ≡ true
deliver-kept event [] db h = h
deliver-kept event (o ∷ os) db h = deliver-kept event os (post o db).1 (post-kept event o db h)

-- An event that was answered with 200 and is delivered again, whatever was delivered in between, is
-- answered with 200 and changes nothing.
pub deliver_again :
    (event : Event) (between : List (Option Event)) (db : Db)
    → (post (some event) db).0 ≡ 200
    → let later = deliver between (post (some event) db).1 in post (some event) later ≡ (200, later)
deliver_again event between db h =
    post-seen event _ (deliver-kept event between _ (seen (post-IsAnswer event db)))
  where
    seen : IsAnswer event db (post (some event) db) → is_seen event (post (some event) db).1 ≡ true
    seen (inl (_, s)) = s
    seen (inr (e, _)) = absurd (ground arith)
