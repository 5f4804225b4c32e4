-- ===== src/Loyalty/Points/Tiers.antt =====
-- Tiers: more lifetime points never give a lower tier.
use food_tech_crm_backend.Prelude.{ℕ, ◌≤◌, arith}
use food_tech_crm_backend.Prelude.Int.{ℤ, ◌≤ℤ◌}
use food_tech_crm_backend.Loyalty.Db.{LoyaltyProgram, Tier, bronze, silver, gold, platinum}
use food_tech_crm_backend.Loyalty.Points.{tier_for_lifetime_points}

abbrev pub rank : Tier → ℕ
rank bronze = 0
rank silver = 1
rank gold = 2
rank platinum = 3

-- With more lifetime points the tier is at least as high, whatever the three thresholds are and in
-- whatever order they stand.
pub tier_for_lifetime_points_mono :
    (m n : ℤ) (program : LoyaltyProgram)
    → m ≤ℤ n
    → rank (tier_for_lifetime_points m program) ≤ rank (tier_for_lifetime_points n program)
unfolding tier_for_lifetime_points
tier_for_lifetime_points_mono m n program more = ground arith
