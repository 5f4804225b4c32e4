-- ===== src/Loyalty/Orders/Ledger.antt =====
-- The points ledger through the creation and the cancellation of orders.
use food_tech_crm_backend.Prelude.{
  ℕ, Option, none, some, Option-cases, ◌≡◌, arith, refl, Bool-cases, inl, inr, first_where,
  if◌then◌else◌,
}
use food_tech_crm_backend.Prelude.Int.{ℤ, pos, neg, ◌-ℤ◌, ltb_ℤ, min_ℤ}
use food_tech_crm_backend.Prelude.Table.{Table, lookup}
use food_tech_crm_backend.Prelude.Exec.{
  ok, err, pure, modify, atomic, ◌>>◌, atomic_keeps, bind_keeps, when_keeps, if_keeps,
}
use food_tech_crm_backend.Loyalty.Db.{
  LoyaltyProgram, CustomerLoyaltyAccount, Reason, PointsTransaction, Order, cancelled,
  invalid_order_state, Db, does_not_exist, points_total, Service,
}
use food_tech_crm_backend.Loyalty.Points.{with_points, post, award_row, award_points}
use food_tech_crm_backend.Loyalty.Points.Ledger.{
  IsPointsLedger, award_points-IsPointsLedger, spend-IsPointsLedger,
}
use food_tech_crm_backend.Loyalty.Orders.{
  OrderInput, Fresh, get_or_create_account, award_for_order, award_if_earned, award_if_positive,
  store_order, set_cancelled, points_to_award, create_order_and_award_points, new_order,
  program_for, reverse_points, reverse_if_earned, earned_by, cancel_order, is_cancelled,
}

get_or_create_account-IsPointsLedger :
    (id customer program : ℕ) (db : Db)
    → lookup id db.accounts ≡ none
    → IsPointsLedger db
    → IsPointsLedger (get_or_create_account id customer program db).1
unfolding get_or_create_account points_total
get_or_create_account-IsPointsLedger id customer program db fresh h k = ground (arith, h k, h id)

award_if_positive-IsPointsLedger :
    (fresh : Fresh) (points : ℤ) (account : ℕ) (db : Db)
    → IsPointsLedger db
    → IsPointsLedger (award_if_positive fresh points account db).1
award_if_positive-IsPointsLedger fresh points account db h =
    elim (Bool-cases (ltb_ℤ (pos 0) points)) [
      | inl more ↦ rw more (
          bind_keeps IsPointsLedger award (λ _. pure tt) db
            (award_points-IsPointsLedger fresh.transaction_id account db h fresh.now points
              Reason.order (some fresh.order_id) "")
            (λ _ _ h'. h'))
      | inr e ↦ rw e h
    ]
  where
    award : Service PointsTransaction
    award =
        award_points fresh.transaction_id fresh.now account points Reason.order
          (some fresh.order_id) ""

award_for_order-IsPointsLedger :
    (fresh : Fresh) (customer : ℕ) (total : ℤ) (p : ℕ × LoyaltyProgram) (db : Db)
    → lookup fresh.account_id db.accounts ≡ none
    → IsPointsLedger db
    → IsPointsLedger (award_for_order fresh customer total p db).1
unfolding award_for_order
award_for_order-IsPointsLedger fresh customer total (pk, p) db new h =
    bind_keeps IsPointsLedger (get_or_create_account fresh.account_id customer pk)
      (award_if_positive fresh (points_to_award total p.points_per_dollar)) db
      (get_or_create_account-IsPointsLedger fresh.account_id customer pk db new h)
      (award_if_positive-IsPointsLedger fresh (points_to_award total p.points_per_dollar))

award_if_earned-IsPointsLedger :
    (fresh : Fresh) (customer : ℕ) (total : ℤ) (p : Option (ℕ × LoyaltyProgram)) (db : Db)
    → lookup fresh.account_id db.accounts ≡ none
    → IsPointsLedger db
    → IsPointsLedger (award_if_earned fresh customer total p db).1
award_if_earned-IsPointsLedger fresh customer total none db new h = h
award_if_earned-IsPointsLedger fresh customer total (some p) db new h =
    when_keeps IsPointsLedger (ltb_ℤ (pos 0) total) (award_for_order fresh customer total p) db h
      (λ _. award_for_order-IsPointsLedger fresh customer total p db new h)

pub create_order_and_award_points-IsPointsLedger :
    (by_name : Table LoyaltyProgram → Table LoyaltyProgram) (fresh : Fresh) (input : OrderInput)
    (db : Db)
    → lookup fresh.account_id db.accounts ≡ none
    → IsPointsLedger db
    → IsPointsLedger (create_order_and_award_points by_name fresh input db).1
unfolding create_order_and_award_points points_total
create_order_and_award_points-IsPointsLedger by_name fresh input db new h =
    let stored = store_order fresh input db in
    let total = (new_order input).total in
    let award = award_if_earned fresh input.customer total (program_for by_name input stored) in
    atomic_keeps IsPointsLedger (λ _. (award >> pure (new_order input)) stored) db h
      (bind_keeps IsPointsLedger award (λ _. pure (new_order input)) stored
        (award_if_earned-IsPointsLedger fresh input.customer total
          (program_for by_name input stored) stored new h)
        (λ _ _ h'. h'))

reverse_points_lem :
    (id order : ℕ) (earned : PointsTransaction) (a : CustomerLoyaltyAccount) (db : Db)
    → lookup earned.account db.accounts ≡ some a
    → let m = min_ℤ earned.points_change a.available_points in
      let t = award_row earned.account (neg m) Reason.reversal (some order) "" none in
      reverse_points id order earned db ≡ (
        if ltb_ℤ (pos 0) m
        then elim (lookup a.loyalty_program db.programs) [
          | none ↦ (err does_not_exist, db)
          | some p ↦ (
            ok tt,
            post id earned.account (with_points (a.available_points -ℤ m) a.lifetime_points p) t db,
          )
        ]
        else (ok tt, db))
unfolding reverse_points
reverse_points_lem id order earned a db row = ground arith

reverse_points_missing :
    (id order : ℕ) (earned : PointsTransaction) (db : Db)
    → lookup earned.account db.accounts ≡ none
    → (reverse_points id order earned db).1 ≡ db
unfolding reverse_points
reverse_points_missing id order earned db e = ground arith

reverse_points-IsPointsLedger :
    (id order : ℕ) (earned : PointsTransaction) (db : Db)
    → IsPointsLedger db
    → IsPointsLedger (reverse_points id order earned db).1
reverse_points-IsPointsLedger id order earned db h =
    elim (Option-cases (lookup earned.account db.accounts)) [
      | inl e ↦ rw (reverse_points_missing id order earned db e) h
      | inr (a, row) ↦ rw (reverse_points_lem id order earned a db row) (
          if_keeps IsPointsLedger (ltb_ℤ (pos 0) (min_ℤ earned.points_change a.available_points)) _
            _
            (λ more. elim (Option-cases (lookup a.loyalty_program db.programs)) [
              | inl e ↦ rw e h
              | inr (p, found) ↦ rw found (
                  spend-IsPointsLedger id earned.account db h _ a p _ row refl refl (ground arith)
                    (ground arith))
            ])
            (λ _. h))
    ]

reverse_if_earned-IsPointsLedger :
    (id order : ℕ) (t : Option (ℕ × PointsTransaction)) (db : Db)
    → IsPointsLedger db
    → IsPointsLedger (reverse_if_earned id order t db).1
reverse_if_earned-IsPointsLedger id order none db h = h
reverse_if_earned-IsPointsLedger id order (some (_, t)) db h =
    reverse_points-IsPointsLedger id order t db h

-- what stands after the guards of `cancel_order`
abbrev cancel_block : ℕ → ℕ → Order → Option (ℕ × PointsTransaction) → Service Order
cancel_block id pk o t = reverse_if_earned id pk t >> (modify (set_cancelled pk) >> pure o)

cancel_order_lem :
    (id pk : ℕ) (o : Order) (db : Db)
    → lookup pk db.orders ≡ some o
    → cancel_order id pk db ≡ (
        if is_cancelled o.status
        then (err invalid_order_state, db)
        else atomic
            (cancel_block id pk
              (record o { status = cancelled })
              (first_where (earned_by pk) db.points_transactions))
            db)
unfolding cancel_order
cancel_order_lem id pk o db row = ground arith

cancel_order_missing :
    (id pk : ℕ) (db : Db) → lookup pk db.orders ≡ none → (cancel_order id pk db).1 ≡ db
unfolding cancel_order
cancel_order_missing id pk db e = ground arith

cancel_block-IsPointsLedger :
    (id pk : ℕ) (o : Order) (t : Option (ℕ × PointsTransaction)) (db : Db)
    → IsPointsLedger db
    → IsPointsLedger (cancel_block id pk o t db).1
unfolding points_total
cancel_block-IsPointsLedger id pk o t db h =
    bind_keeps IsPointsLedger (reverse_if_earned id pk t) (λ _. modify (set_cancelled pk) >> pure o)
      db (reverse_if_earned-IsPointsLedger id pk t db h) (λ _ _ h'. h')

pub cancel_order-IsPointsLedger :
    (id pk : ℕ) (db : Db) → IsPointsLedger db → IsPointsLedger (cancel_order id pk db).1
cancel_order-IsPointsLedger id pk db h = elim (Option-cases (lookup pk db.orders)) [
  | inl e ↦ rw (cancel_order_missing id pk db e) h
  | inr (o, row) ↦ rw (cancel_order_lem id pk o db row) (
      if_keeps IsPointsLedger (is_cancelled o.status) (err invalid_order_state, db) _ (λ _. h)
        (λ _.
          atomic_keeps IsPointsLedger
            (cancel_block id pk (record o { status = cancelled })
              (first_where (earned_by pk) db.points_transactions))
            db h (cancel_block-IsPointsLedger id pk _ _ db h)))
]
