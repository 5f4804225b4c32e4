-- ===== src/Loyalty/Points/Outcomes.antt =====
-- `award_points`, `redeem_points` and the body of `expire_due_points`, branch by branch.
use food_tech_crm_backend.Prelude.{
  ℕ, String, Option, none, some, ◌≡◌, arith, if◌then◌else◌, any_where,
}
use food_tech_crm_backend.Prelude.Int.{ℤ, pos, neg, ◌+ℤ◌, ◌-ℤ◌, ltb_ℤ, leb_ℤ, min_ℤ}
use food_tech_crm_backend.Prelude.Table.{lookup, insert}
use food_tech_crm_backend.Prelude.Exec.{ok, err}
use food_tech_crm_backend.Loyalty.Db.{
  LoyaltyProgram, CustomerLoyaltyAccount, Reason, PointsTransaction, Db, loyalty_error,
  insufficient_points, integrity_error,
}
use food_tech_crm_backend.Loyalty.Points.{
  with_points, post, award_row, expiry, expiration_row, expires, award_points, redeem_points,
  expire_one,
}

module _ (id pk : ℕ) (a : CustomerLoyaltyAccount) (p : LoyaltyProgram) (db : Db)
    (row : lookup pk db.accounts ≡ some a)
    (found : lookup a.loyalty_program db.programs ≡ some p) where
  -- An award to an account that is there, with its program: refused without a change where the amount
  -- is not positive; otherwise both balances grow by it, the tier is recalculated, and one row of that
  -- many points goes on the ledger, with an expiry where the program has a window.
  pub award_points_lem :
      (now : ℕ) (amount : ℤ) (reason : Reason) (order : Option ℕ) (notes : String)
      → let t = award_row pk amount reason order notes (expiry now p.points_expire_after_days) in
        award_points id now pk amount reason order notes db ≡ (
          if leb_ℤ amount (pos 0) then (err loyalty_error, db) else (
            ok t,
            post id pk
                (with_points (a.available_points +ℤ amount) (a.lifetime_points +ℤ amount) p)
                t
                db,
          ))
  unfolding award_points
  award_points_lem now amount reason order notes = ground arith

  -- A redemption from an account that is there, with its program: refused without a change where the
  -- amount is not positive or is more than is available; otherwise the available points fall by it,
  -- the lifetime points stay, and one row of minus that many points goes on the ledger.
  pub redeem_points_lem :
      (amount : ℤ) (notes : String)
      → let t = award_row pk (neg amount) Reason.redemption none notes none in
        redeem_points id pk amount notes db ≡ (
          if leb_ℤ amount (pos 0)
          then (err loyalty_error, db)
          else if ltb_ℤ a.available_points amount
          then (err (insufficient_points amount a.available_points), db)
          else (
            ok t,
            post id pk (with_points (a.available_points -ℤ amount) a.lifetime_points p) t db,
          ))
  unfolding redeem_points
  redeem_points_lem amount notes = ground arith

  pub expire_one_lem :
      (earned_pk : ℕ) (earned : PointsTransaction)
      → earned.account ≡ pk
      → let m = min_ℤ earned.points_change a.available_points in
        let t = expiration_row pk m earned_pk in
        expire_one id earned_pk earned db ≡ (
          if any_where (expires earned_pk) db.points_transactions
          then (err integrity_error, db)
          else (
            ok tt,
            (if ltb_ℤ (pos 0) m
                then post id pk (with_points (a.available_points -ℤ m) a.lifetime_points p) t db
                else record db { points_transactions = insert id t db.points_transactions }),
          ))
  unfolding expire_one
  expire_one_lem earned_pk earned of_it = ground arith

-- Without the account, or without its program, nothing changes.
module _ (id pk : ℕ) (db : Db) where
  pub award_points_missing :
      (now : ℕ) (amount : ℤ) (reason : Reason) (order : Option ℕ) (notes : String)
      → lookup pk db.accounts ≡ none
      → (award_points id now pk amount reason order notes db).1 ≡ db
  unfolding award_points
  award_points_missing now amount reason order notes e = ground arith

  pub award_points_no_program :
      (now : ℕ) (amount : ℤ) (reason : Reason) (order : Option ℕ) (notes : String)
      (a : CustomerLoyaltyAccount)
      → lookup pk db.accounts ≡ some a
      → lookup a.loyalty_program db.programs ≡ none
      → (award_points id now pk amount reason order notes db).1 ≡ db
  unfolding award_points
  award_points_no_program now amount reason order notes a row e = ground arith

  pub redeem_points_missing :
      (amount : ℤ) (notes : String)
      → lookup pk db.accounts ≡ none
      → (redeem_points id pk amount notes db).1 ≡ db
  unfolding redeem_points
  redeem_points_missing amount notes e = ground arith

  pub redeem_points_no_program :
      (amount : ℤ) (notes : String) (a : CustomerLoyaltyAccount)
      → lookup pk db.accounts ≡ some a
      → lookup a.loyalty_program db.programs ≡ none
      → (redeem_points id pk amount notes db).1 ≡ db
  unfolding redeem_points
  redeem_points_no_program amount notes a row e = ground arith

  pub expire_one_missing :
      (earned_pk : ℕ) (earned : PointsTransaction)
      → lookup earned.account db.accounts ≡ none
      → (expire_one id earned_pk earned db).1 ≡ db
  unfolding expire_one
  expire_one_missing earned_pk earned e = ground arith

  pub expire_one_no_program :
      (earned_pk : ℕ) (earned : PointsTransaction) (a : CustomerLoyaltyAccount)
      → lookup earned.account db.accounts ≡ some a
      → lookup a.loyalty_program db.programs ≡ none
      → let m = min_ℤ earned.points_change a.available_points in
        let t = expiration_row earned.account m earned_pk in
        (expire_one id earned_pk earned db).1 ≡ (
          if ltb_ℤ (pos 0) m
          then db
          else if any_where (expires earned_pk) db.points_transactions
          then db
          else record db { points_transactions = insert id t db.points_transactions })
  unfolding expire_one
  expire_one_no_program earned_pk earned a row e = ground arith
