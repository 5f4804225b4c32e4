-- ===== src/Loyalty/Points/Ledger.antt =====
-- The points ledger: an account's available points are what its transactions come to, and lie
-- between zero and its lifetime points, through every operation on points.
use food_tech_crm_backend.Prelude.{
  ℕ, String, Option, none, some, Option-cases, List, [], ◌∷◌, ◌≡◌, arith, refl, false, Bool-cases,
  inl, inr, any_where, rows_where,
}
use food_tech_crm_backend.Prelude.Int.{
  ℤ, pos, neg, ◌+ℤ◌, ◌-ℤ◌, ◌≤ℤ◌, ltb_ℤ, leb_ℤ, min_ℤ, +ℤ_parts, -ℤ_parts, +ℤ_comm, neg-+ℤ,
}
use food_tech_crm_backend.Prelude.Table.{lookup, insert, lookup-update}
use food_tech_crm_backend.Prelude.Exec.{Result, ok, err, ◌>>=◌}
use food_tech_crm_backend.Loyalty.Db.{
  LoyaltyProgram, CustomerLoyaltyAccount, Reason, PointsTransaction, Db, Error, points_total,
}
use food_tech_crm_backend.Loyalty.Points.{
  with_points, post, award_points, redeem_points, expire_one, expire_each, next_count,
  expire_due_points, is_due,
}
use food_tech_crm_backend.Loyalty.Points.{expires}
use food_tech_crm_backend.Loyalty.Points.Outcomes.{
  award_points_lem, award_points_missing, award_points_no_program, redeem_points_lem,
  redeem_points_missing, redeem_points_no_program, expire_one_lem, expire_one_missing,
  expire_one_no_program,
}

-- An account whose ledger comes to `t`.
abbrev pub AccountRow : Option CustomerLoyaltyAccount → ℤ → Type 0
AccountRow none t = t ≡ pos 0
AccountRow (some a) t =
    (pos 0 ≤ℤ a.available_points)
    × (a.available_points ≤ℤ a.lifetime_points)
    × (a.available_points ≡ t)

-- Every account is such a row, and no transaction is of an account that is not there.
abbrev pub IsPointsLedger : Db → Type 0
IsPointsLedger db = (k : ℕ) → AccountRow (lookup k db.accounts) (points_total k db)

-- Saving an account with new balances and a transaction of the difference.
pub post-IsPointsLedger :
    (id pk : ℕ) (available lifetime : ℤ) (program : LoyaltyProgram) (a : CustomerLoyaltyAccount)
    (t : PointsTransaction) (db : Db)
    → lookup pk db.accounts ≡ some a
    → t.account ≡ pk
    → pos 0 ≤ℤ available
    → available ≤ℤ lifetime
    → t.points_change +ℤ a.available_points ≡ available
    → IsPointsLedger db
    → IsPointsLedger (post id pk (with_points available lifetime program) t db)
unfolding points_total
post-IsPointsLedger id pk available lifetime program a t db row of_it nonneg within sum h k =
    ground
      (arith, h k, h pk, lookup-update pk k (with_points available lifetime program) db.accounts)

-- A transaction of nothing.
insert-IsPointsLedger :
    (id : ℕ) (t : PointsTransaction) (db : Db)
    → t.points_change ≡ pos 0
    → IsPointsLedger db
    → IsPointsLedger (record db { points_transactions = insert id t db.points_transactions })
unfolding points_total
insert-IsPointsLedger id t db nothing h k =
    ground (arith, h k, +ℤ_parts (pos 0) (points_total k db))

module _ (id pk : ℕ) (db : Db) (h : IsPointsLedger db) where
  award-IsPointsLedger :
      (amount : ℤ) (a : CustomerLoyaltyAccount) (p : LoyaltyProgram) (t : PointsTransaction)
      → lookup pk db.accounts ≡ some a
      → t.account ≡ pk
      → t.points_change ≡ amount
      → leb_ℤ amount (pos 0) ≡ false
      → IsPointsLedger (
          post id pk
            (with_points (a.available_points +ℤ amount) (a.lifetime_points +ℤ amount) p)
            t
            db)
  award-IsPointsLedger amount a p t row of_it is positive =
      post-IsPointsLedger id pk _ _ p a t db row of_it
        (ground (arith, h pk, +ℤ_parts a.available_points amount))
        (ground
          (arith, h pk, +ℤ_parts a.available_points amount, +ℤ_parts a.lifetime_points amount))
        (rw is (+ℤ_comm amount a.available_points)) h

  pub spend-IsPointsLedger :
      (amount : ℤ) (a : CustomerLoyaltyAccount) (p : LoyaltyProgram) (t : PointsTransaction)
      → lookup pk db.accounts ≡ some a
      → t.account ≡ pk
      → t.points_change ≡ neg amount
      → pos 0 ≤ℤ amount
      → amount ≤ℤ a.available_points
      → IsPointsLedger
          (post id pk (with_points (a.available_points -ℤ amount) a.lifetime_points p) t db)
  spend-IsPointsLedger amount a p t row of_it is nonneg enough =
      post-IsPointsLedger id pk _ _ p a t db row of_it
        (ground (arith, h pk, -ℤ_parts a.available_points amount))
        (ground (arith, h pk, -ℤ_parts a.available_points amount))
        (rw is (neg-+ℤ amount a.available_points)) h

  pub award_points-IsPointsLedger :
      (now : ℕ) (amount : ℤ) (reason : Reason) (order : Option ℕ) (notes : String)
      → IsPointsLedger (award_points id now pk amount reason order notes db).1
  award_points-IsPointsLedger now amount reason order notes =
      elim (Option-cases (lookup pk db.accounts)) [
        | inl e ↦ rw (award_points_missing id pk db now amount reason order notes e) h
        | inr (a, row) ↦ elim (Option-cases (lookup a.loyalty_program db.programs)) [
          | inl e ↦ rw (award_points_no_program id pk db now amount reason order notes a row e) h
          | inr (p, found) ↦
              rw (award_points_lem id pk a p db row found now amount reason order notes)
                (elim (Bool-cases (leb_ℤ amount (pos 0))) [
                  | inl refused ↦ rw refused h
                  | inr positive ↦
                      rw positive (award-IsPointsLedger amount a p _ row refl refl positive)
                ])
        ]
      ]

  pub redeem_points-IsPointsLedger :
      (amount : ℤ) (notes : String) → IsPointsLedger (redeem_points id pk amount notes db).1
  redeem_points-IsPointsLedger amount notes = elim (Option-cases (lookup pk db.accounts)) [
    | inl e ↦ rw (redeem_points_missing id pk db amount notes e) h
    | inr (a, row) ↦ elim (Option-cases (lookup a.loyalty_program db.programs)) [
      | inl e ↦ rw (redeem_points_no_program id pk db amount notes a row e) h
      | inr (p, found) ↦
          rw (redeem_points_lem id pk a p db row found amount notes)
            (elim (Bool-cases (leb_ℤ amount (pos 0))) [
              | inl refused ↦ rw refused h
              | inr positive ↦ rw positive (elim (Bool-cases (ltb_ℤ a.available_points amount)) [
                | inl too_many ↦ rw too_many h
                | inr enough ↦
                    rw enough (
                      spend-IsPointsLedger amount a p _ row refl refl (ground arith) (ground arith))
              ])
            ])
    ]
  ]

-- A grant that is still there, of a positive number of points.
abbrev pub IsGrant : ℕ × PointsTransaction → Type 0
IsGrant (_, t) = pos 1 ≤ℤ t.points_change

module _ (id earned_pk : ℕ) (earned : PointsTransaction) (db : Db)
    (grant : pos 1 ≤ℤ earned.points_change) (h : IsPointsLedger db) where
  nothing_left :
      (a : CustomerLoyaltyAccount)
      → lookup earned.account db.accounts ≡ some a
      → ltb_ℤ (pos 0) (min_ℤ earned.points_change a.available_points) ≡ false
      → neg (min_ℤ earned.points_change a.available_points) ≡ pos 0
  nothing_left a row none_left = ground (arith, h earned.account)

  expire_one-IsPointsLedger_row :
      (a : CustomerLoyaltyAccount) (p : LoyaltyProgram)
      → lookup earned.account db.accounts ≡ some a
      → lookup a.loyalty_program db.programs ≡ some p
      → IsPointsLedger (expire_one id earned_pk earned db).1
  expire_one-IsPointsLedger_row a p row found =
      let m = min_ℤ earned.points_change a.available_points in
      rw (expire_one_lem id earned.account a p db row found earned_pk earned refl)
        (elim (Bool-cases (any_where (expires earned_pk) db.points_transactions)) [
          | inl done ↦ rw done h
          | inr new ↦ rw new (elim (Bool-cases (ltb_ℤ (pos 0) m)) [
            | inl some_left ↦ rw some_left (
                spend-IsPointsLedger id earned.account db h m a p _ row refl refl (ground arith)
                  (ground arith))
            | inr none_left ↦
                rw none_left (insert-IsPointsLedger id _ db (nothing_left a row none_left) h)
          ])
        ])

  expire_one-IsPointsLedger : IsPointsLedger (expire_one id earned_pk earned db).1
  expire_one-IsPointsLedger = elim (Option-cases (lookup earned.account db.accounts)) [
    | inl e ↦ rw (expire_one_missing id earned.account db earned_pk earned e) h
    | inr (a, row) ↦ elim (Option-cases (lookup a.loyalty_program db.programs)) [
      | inl e ↦
          rw (expire_one_no_program id earned.account db earned_pk earned a row e)
            (elim (Bool-cases (ltb_ℤ (pos 0) (min_ℤ earned.points_change a.available_points))) [
              | inl some_left ↦ rw some_left h
              | inr none_left ↦
                  rw none_left
                    (elim (Bool-cases (any_where (expires earned_pk) db.points_transactions)) [
                      | inl done ↦ rw done h
                      | inr new ↦
                          rw new (insert-IsPointsLedger id _ db (nothing_left a row none_left) h)
                    ])
            ])
      | inr (p, found) ↦ expire_one-IsPointsLedger_row a p row found
    ]
  ]

AllGrants : List (ℕ × PointsTransaction) → Type 0
AllGrants [] = Unit
AllGrants ((k, t) ∷ due) = (pos 1 ≤ℤ t.points_change) × AllGrants due

due-AllGrants :
    (now : ℕ) (all rows : List (ℕ × PointsTransaction))
    → AllGrants (rows_where (is_due now all) rows)
unfolding AllGrants
due-AllGrants now all [] = tt
due-AllGrants now all ((k, t) ∷ rows) = ground (arith, due-AllGrants now all rows)

after-IsPointsLedger :
    (o : Result Error ℕ) (db : Db) (k : ℕ → Db → Result Error ℕ × Db)
    → ((m : ℕ) → IsPointsLedger (k m db).1)
    → IsPointsLedger db
    → IsPointsLedger (((λ s. (o, s)) >>= k) db).1
after-IsPointsLedger (ok m) db k keeps h = keeps m
after-IsPointsLedger (err e) db k keeps h = h

expire_each-IsPointsLedger :
    (fresh : ℕ → ℕ) (due : List (ℕ × PointsTransaction)) (n : ℕ) (db : Db)
    → AllGrants due
    → IsPointsLedger db
    → IsPointsLedger (expire_each fresh due n db).1
unfolding expire_each AllGrants
expire_each-IsPointsLedger fresh [] n db grants h = h
expire_each-IsPointsLedger fresh ((k, earned) ∷ due) n db (grant, grants) h =
    let (r, db') = expire_one (fresh k) k earned db in
    let h' : IsPointsLedger db' = expire_one-IsPointsLedger (fresh k) k earned db grant h in
    after-IsPointsLedger (next_count r n) db' (λ m. expire_each fresh due m)
      (λ m. expire_each-IsPointsLedger fresh due m db' grants h') h'

-- A run of the expiry task.
pub expire_due_points-IsPointsLedger :
    (now : ℕ) (fresh : ℕ → ℕ) (db : Db)
    → IsPointsLedger db
    → IsPointsLedger (expire_due_points now fresh db).1
unfolding expire_due_points
expire_due_points-IsPointsLedger now fresh db h =
    expire_each-IsPointsLedger fresh _ 0 db
      (due-AllGrants now db.points_transactions db.points_transactions) h
