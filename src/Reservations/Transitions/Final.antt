-- ===== src/Reservations/Transitions/Final.antt =====
-- What the actions leave of a reservation, and what stays after any sequence of them.
use food_tech_crm_backend.Prelude.{
  ℕ, some, Option-cases, ◌≡◌, arith, refl, ◌∙◌, ◌==◌, Bool, true, false, ◌&&◌, Bool-cases, inl, inr,
  if◌then◌else◌, ==_iff, sym, subst,
}
use food_tech_crm_backend.Prelude.Table.{lookup, lookup-update}
use food_tech_crm_backend.Reservations.Db.{
  Status, pending, confirmed, seated, completed, cancelled, no_show, Reservation, Db,
}
use food_tech_crm_backend.Reservations.Transitions.{
  transition, is_expected, is_cancellable, is_seated, seat, cancel, mark_no_show, complete,
}

-- One action of the staff, on any reservation.
pub data Step (db : Db) : Db → Type 0 where
  seats : (pk : ℕ) → Step db (seat pk db).1
  cancels : (pk : ℕ) → Step db (cancel pk db).1
  marks : (pk : ℕ) → Step db (mark_no_show pk db).1
  completes : (pk : ℕ) → Step db (complete pk db).1

pub data Reach (s : Db) : Db → Type 0 where
  here : Reach s s
  next : {t u : Db} → Reach s t → Step t u → Reach s u

-- Where the actions can bring a reservation from each status.
abbrev pub may_become : Status → Status → Bool
may_become pending confirmed = false
may_become pending _ = true
may_become confirmed pending = false
may_become confirmed _ = true
may_become seated seated = true
may_become seated completed = true
may_become seated cancelled = true
may_become completed completed = true
may_become cancelled cancelled = true
may_become no_show no_show = true
may_become _ _ = false

may_become-same : (a : Status) → may_become a a ≡ true
may_become-same pending = refl
may_become-same confirmed = refl
may_become-same seated = refl
may_become-same completed = refl
may_become-same cancelled = refl
may_become-same no_show = refl

-- An action goes where its reservation may.
abbrev IsLawful : (Status → Bool) → Status → Type 0
IsLawful allowed new = (b : Status) → allowed b ≡ true → may_become b new ≡ true

seat-IsLawful : IsLawful is_expected seated
seat-IsLawful b h = ground arith

may_become_trans :
    (a b c : Status) → may_become a b ≡ true → may_become b c ≡ true → may_become a c ≡ true
may_become_trans a b c h k = ground arith

-- What an action does to each row: the new status, for the row it names if that is allowed.
transition_row :
    (allowed : Status → Bool) (new : Status) (pk j : ℕ) (r : Reservation) (db : Db)
    → lookup j db.reservations ≡ some r
    → lookup j (transition allowed new pk db).1.reservations
      ≡ (if pk == j && allowed r.status then some (record r { status = new }) else some r)
unfolding transition
transition_row allowed new pk j r db row = elim (Bool-cases (pk == j)) [
  | inr other ↦ elim (Option-cases (lookup pk db.reservations)) [
    | inl e ↦ ground arith
    | inr (q, e) ↦
        let moved = lookup-update pk j (λ r. record r { status = new }) db.reservations in
        elim (Bool-cases (allowed q.status)) [ inl a ↦ ground arith | inr a ↦ ground arith ]
  ]
  | inl same ↦
      let named = subst (λ i. lookup i db.reservations ≡ some r) (sym ((==_iff pk j).0 same)) row in
      let moved = lookup-update pk j (λ r. record r { status = new }) db.reservations in
      elim (Bool-cases (allowed r.status)) [ inl a ↦ ground arith | inr a ↦ ground arith ]
]

cancel-IsLawful : IsLawful is_cancellable cancelled
cancel-IsLawful b h = ground arith

mark_no_show-IsLawful : IsLawful is_expected no_show
mark_no_show-IsLawful b h = ground arith

complete-IsLawful : IsLawful is_seated completed
complete-IsLawful b h = ground arith

-- The row of a reservation after some actions: it differs in its status alone, and lawfully.
abbrev pub Became : ℕ → Reservation → Db → Type 0
Became j r db =
    (st : Status) × (lookup j db.reservations ≡ some (record r { status = st }))
    × (may_become r.status st ≡ true)

transition-Became :
    (allowed : Status → Bool) (new : Status) (pk j : ℕ) (r : Reservation) (db : Db)
    → IsLawful allowed new
    → Became j r db
    → Became j r (transition allowed new pk db).1
transition-Became allowed new pk j r db lawful (st, row, may) =
    let moved = transition_row allowed new pk j (record r { status = st }) db row in
    elim (Bool-cases (pk == j && allowed st)) [
      | inr stays ↦ (st, moved ∙ rw stays refl, may)
      | inl goes ↦
          let a : allowed st ≡ true = ground arith in
          (new, moved ∙ rw goes refl, may_become_trans r.status st new may (lawful st a))
    ]

Step-Became : {s t : Db} (j : ℕ) (r : Reservation) → Step s t → Became j r s → Became j r t
unfolding seat cancel mark_no_show complete
Step-Became j r (seats pk) h = transition-Became _ _ pk j r _ seat-IsLawful h
Step-Became j r (cancels pk) h = transition-Became _ _ pk j r _ cancel-IsLawful h
Step-Became j r (marks pk) h = transition-Became _ _ pk j r _ mark_no_show-IsLawful h
Step-Became j r (completes pk) h = transition-Became _ _ pk j r _ complete-IsLawful h

-- After any sequence of actions of the staff, each one request at a time, a reservation of the first
-- state is still there, with nothing but its status changed, and the status is one that its first
-- status may become: a reservation that is completed, cancelled or a no-show keeps its status, a
-- seated one never becomes a no-show, and only a pending one is ever pending.
pub Reach-Became :
    {s t : Db} (j : ℕ) (r : Reservation)
    → lookup j s.reservations ≡ some r
    → Reach s t
    → Became j r t
Reach-Became j r row here = (r.status, row, may_become-same r.status)
Reach-Became j r row (next before step) = Step-Became j r step (Reach-Became j r row before)
