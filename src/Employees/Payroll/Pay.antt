-- ===== src/Employees/Payroll/Pay.antt =====
-- What a pay stub pays, and that a period is paid once.
use food_tech_crm_backend.Prelude.{
  ℕ, Option, none, some, List, ◌≡◌, arith, refl, sym, subst, ap, ◌∙◌, Bool, true, false, any_where,
  if◌then◌else◌,
}
use food_tech_crm_backend.Prelude.Int.{ℤ, pos, negsuc, ◌+ℤ◌, ◌-ℤ◌, ◌*ℤ◌, ◌≤ℤ◌, int_laws}
use food_tech_crm_backend.Prelude.Exec.{Result, ok, err}
use food_tech_crm_backend.Prelude.Table.{Table, lookup, insert}
use food_tech_crm_backend.Finance.Tax.Rounding.{IsNear}
use food_tech_crm_backend.Employees.Db.{
  Position, PayStub, WeekBreakdown, Db, Error, pay_stub_already_exists, type_error,
}
use food_tech_crm_backend.Employees.Payroll.{
  quantize, overtime_rate_of, gross_pay_of, tax_of, is_stub_of, new_stub, split_weeks, store_stub,
  threshold_or_default, worked_seconds_by_iso_week, generate_pay_stub,
}

-- The rounded value lies within half a cent.
cents-IsNear : (x : ℤ) → IsNear 50 (quantize 50 x) x
unfolding quantize
cents-IsNear (pos n) = ground arith
cents-IsNear (negsuc n) = ground arith

quantize_nonneg : (half : ℕ) (x : ℤ) → pos 0 ≤ℤ x → pos 0 ≤ℤ quantize half x
unfolding quantize
quantize_nonneg half (pos n) h = omega arith
quantize_nonneg half (negsuc n) h = absurd (omega arith)

add_nonneg : (x y : ℤ) → pos 0 ≤ℤ x → pos 0 ≤ℤ y → pos 0 ≤ℤ x +ℤ y
add_nonneg x y h k = omega int_laws

mul_nonneg : (n : ℕ) (y : ℤ) → pos 0 ≤ℤ y → pos 0 ≤ℤ pos n *ℤ y
unfolding ◌*ℤ◌
mul_nonneg n (pos m) h = ground arith
mul_nonneg n (negsuc m) h = absurd (omega arith)

overtime_rate_nonneg : (rate : ℕ) → pos 0 ≤ℤ overtime_rate_of (pos rate)
unfolding overtime_rate_of
overtime_rate_nonneg rate =
    quantize_nonneg 1 (pos rate *ℤ pos 3) (mul_nonneg rate (pos 3) (omega arith))

gross_nonneg :
    (rate regular overtime : ℤ)
    → pos 0 ≤ℤ rate
    → pos 0 ≤ℤ regular
    → pos 0 ≤ℤ overtime
    → pos 0 ≤ℤ gross_pay_of rate regular overtime
unfolding gross_pay_of
gross_nonneg (pos rate) (pos regular) (pos overtime) r h o = quantize_nonneg 50 _ (
    add_nonneg _ _ (mul_nonneg regular (pos rate) (omega arith))
      (mul_nonneg overtime (overtime_rate_of (pos rate)) (overtime_rate_nonneg rate)))
gross_nonneg (negsuc rate) regular overtime r h o = absurd (omega arith)
gross_nonneg (pos rate) (negsuc regular) overtime r h o = absurd (omega arith)
gross_nonneg (pos rate) (pos regular) (negsuc overtime) r h o = absurd (omega arith)

net_between : (g : ℤ) → pos 0 ≤ℤ g → (pos 0 ≤ℤ g -ℤ tax_of g) × (g -ℤ tax_of g ≤ℤ g)
unfolding tax_of quantize ◌*ℤ◌ ◌-ℤ◌
net_between (pos g) h = (ground arith, ground arith)
net_between (negsuc g) h = absurd (omega arith)

overtime-IsNear : (rate : ℤ) → IsNear 1 (overtime_rate_of rate) (rate *ℤ pos 3)
unfolding overtime_rate_of quantize
overtime-IsNear rate = near (rate *ℤ pos 3)
  where
    near : (x : ℤ) → IsNear 1 (quantize 1 x) x
    near (pos n) = ground arith
    near (negsuc n) = ground arith

gross-IsNear :
    (rate regular overtime : ℤ)
    → IsNear 50
        (gross_pay_of rate regular overtime)
        (regular *ℤ rate +ℤ overtime *ℤ overtime_rate_of rate)
unfolding gross_pay_of
gross-IsNear rate regular overtime = cents-IsNear _

tax-IsNear : (gross : ℤ) → IsNear 50 (tax_of gross) (gross *ℤ pos 15)
unfolding tax_of
tax-IsNear gross = cents-IsNear _

-- What a stub pays, from its own hours and the hourly rate.
abbrev pub Pays : ℤ → PayStub → Type 0
Pays rate stub =
    IsNear 1 stub.overtime_rate (rate *ℤ pos 3)
    × IsNear 50 stub.gross_pay
        (stub.regular_hours *ℤ rate +ℤ stub.overtime_hours *ℤ stub.overtime_rate)
    × IsNear 50 stub.tax_amount (stub.gross_pay *ℤ pos 15)
    × (stub.net_pay ≡ stub.gross_pay -ℤ stub.tax_amount)
    × (pos 0 ≤ℤ stub.net_pay)
    × (stub.net_pay ≤ℤ stub.gross_pay)

new_stub-Pays :
    (membership position : ℕ) (p : Position) (start end : ℕ) (weeks : List WeekBreakdown)
    → let stub = new_stub membership (position, p) start end weeks in
      pos 0 ≤ℤ p.hourly_rate
      → pos 0 ≤ℤ stub.regular_hours
      → pos 0 ≤ℤ stub.overtime_hours
      → Pays p.hourly_rate stub
unfolding new_stub
new_stub-Pays membership position p start end weeks r h o =
    let between = net_between _ (gross_nonneg _ _ _ r h o) in
    (
      overtime-IsNear p.hourly_rate,
      gross-IsNear p.hourly_rate _ _,
      tax-IsNear _,
      refl,
      between.0,
      between.1,
    )

-- A call for a pay stub, on every branch: it is refused, and nothing changes, where the membership has
-- one for that period, and where the hours cannot be told; otherwise the stub of the weeks is stored.
pub generate_pay_stub_lem :
    (id : ℕ) (date_of : ℕ → ℕ) (setting : Option ℤ) (membership : ℕ) (position : ℕ × Position)
    (start end : ℕ) (db : Db)
    → generate_pay_stub id date_of setting membership position start end db ≡ (
        if any_where (is_stub_of membership start end) db.pay_stubs
        then (err pay_stub_already_exists, db)
        else elim (worked_seconds_by_iso_week date_of membership start end db) [
          | none ↦ (err type_error, db)
          | some weeks ↦
              let stub =
                new_stub membership position start end
                  (split_weeks (threshold_or_default setting) weeks) in
              (ok stub, store_stub id stub db)
        ])
unfolding generate_pay_stub
generate_pay_stub_lem id date_of setting membership position start end db = ground arith

-- Which stub it was, where the call went through.
ok_of_cases :
    {W : Type 0} (b : Bool) (weeks : Option W) (stub : W → PayStub) (db : Db) (next : W → Db)
    (result : PayStub) (after : Db)
    → ◌≡◌ {A = Result Error PayStub × Db}
        (if b
          then (err pay_stub_already_exists, db)
          else elim weeks [ none ↦ (err type_error, db) | some w ↦ (ok (stub w), next w) ])
        (ok result, after)
    → (w : W) × (stub w ≡ result) × (next w ≡ after)
ok_of_cases true weeks stub db next result after h = absurd (ground arith)
ok_of_cases false none stub db next result after h = absurd (ground arith)
ok_of_cases false (some w) stub db next result after h = (w, ground arith, ground arith)

-- A pay stub that is generated, for an hourly rate and hours that are not negative: it is stored, its
-- overtime rate is 1.5 times the hourly rate, the gross pay is the regular hours at the hourly rate
-- and the overtime hours at the overtime rate, the tax is 15 percent of the gross pay, each to the
-- nearest cent, and the net pay is the gross pay less the tax and lies between zero and the gross pay.
pub generate_pay_stub-Pays :
    (id : ℕ) (date_of : ℕ → ℕ) (setting : Option ℤ) (membership position : ℕ) (p : Position)
    (start end : ℕ) (db after : Db) (stub : PayStub)
    → generate_pay_stub id date_of setting membership (position, p) start end db ≡ (ok stub, after)
    → pos 0 ≤ℤ p.hourly_rate
    → pos 0 ≤ℤ stub.regular_hours
    → pos 0 ≤ℤ stub.overtime_hours
    → (lookup id after.pay_stubs ≡ some stub) × Pays p.hourly_rate stub
generate_pay_stub-Pays id date_of setting membership position p start end db after stub done r h o =
    let stub_of = λ (weeks : List (ℕ × ℤ)).
      new_stub membership (position, p) start end
        (split_weeks (threshold_or_default setting) weeks) in
    let (weeks, is_stub, is_after) =
      ok_of_cases (any_where (is_stub_of membership start end) db.pay_stubs)
        (worked_seconds_by_iso_week date_of membership start end db) stub_of db
        (λ weeks. store_stub id (stub_of weeks) db) stub after
        (sym (generate_pay_stub_lem id date_of setting membership (position, p) start end db)
          ∙ done) in
    let pays =
      new_stub-Pays membership position p start end
        (split_weeks (threshold_or_default setting) weeks) r
        (subst (λ x. pos 0 ≤ℤ x.regular_hours) (sym is_stub) h)
        (subst (λ x. pos 0 ≤ℤ x.overtime_hours) (sym is_stub) o) in
    (
      subst (λ d. lookup id d.pay_stubs ≡ some stub) is_after
          (stored id (stub_of weeks) db.pay_stubs ∙ ap some is_stub),
      subst (Pays p.hourly_rate) is_stub pays,
    )
  where
    stored : (k : ℕ) (x : PayStub) (t : Table PayStub) → lookup k (insert k x t) ≡ some x
    stored k x t = ground arith
