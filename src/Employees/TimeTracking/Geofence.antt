-- ===== src/Employees/TimeTracking/Geofence.antt =====
-- Which geofence applies, and when a check passes.
use food_tech_crm_backend.Prelude.{
  ℕ, ◌*◌, Option, none, some, ◌≡◌, arith, refl, Bool, true, false, ◌⊎◌, inl, inr, first_where,
  any_where, leb, ◌==◌, ◌==?◌, ◌&&◌, not, is_some,
}
use food_tech_crm_backend.Prelude.Int.{ℤ}
use food_tech_crm_backend.Prelude.Queries.{first_where-some, first_where-none}
use food_tech_crm_backend.Core.Db.{BusinessMembership}
use food_tech_crm_backend.Employees.Db.{GeofenceSetting, Db}
use food_tech_crm_backend.Employees.TimeTracking.{
  Distance, at_location, business_wide, setting_for, get_applicable_geofence, check_against,
  verify_geofence,
}

abbrev pub has_setting : (ℕ × GeofenceSetting → Bool) → Db → Bool
has_setting p db = any_where p db.geofence_settings

-- An enabled setting of a location of a business, and an enabled one of a business and no location.
abbrev pub is_own : ℕ → ℕ → ℕ × GeofenceSetting → Bool
is_own business location (_, s) = s.business == business && s.location ==? location && s.enabled

abbrev pub is_wide : ℕ → ℕ × GeofenceSetting → Bool
is_wide business (_, s) = s.business == business && not (is_some s.location) && s.enabled

-- What is said of the setting that applies at a location of a business, or where none applies.
abbrev pub IsApplicable : ℕ → Option ℕ → Db → Option (ℕ × GeofenceSetting) → Type 0
IsApplicable business none db none = has_setting (is_wide business) db ≡ false
IsApplicable business none db (some s) = is_wide business s ≡ true
IsApplicable business (some l) db none =
    (has_setting (is_own business l) db ≡ false) × (has_setting (is_wide business) db ≡ false)
IsApplicable business (some l) db (some s) =
    (is_own business l s ≡ true)
    ⊎ ((has_setting (is_own business l) db ≡ false) × (is_wide business s ≡ true))

setting_for-IsApplicable :
    (business : ℕ) (location : Option ℕ) (db : Db)
    → IsApplicable business location db (setting_for business location db)
unfolding setting_for
setting_for-IsApplicable business none db = wide _ refl
  where
    wide :
        (o : Option (ℕ × GeofenceSetting))
        → first_where (business_wide business) db.geofence_settings ≡ o
        → IsApplicable business none db o
    wide none e = first_where-none (business_wide business) db.geofence_settings e
    wide (some s) e = (first_where-some (business_wide business) db.geofence_settings s e).0
setting_for-IsApplicable business (some l) db = own _ refl
  where
    wide :
        (o : Option (ℕ × GeofenceSetting))
        → has_setting (at_location business l) db ≡ false
        → first_where (business_wide business) db.geofence_settings ≡ o
        → IsApplicable business (some l) db o
    wide none h e = (h, first_where-none (business_wide business) db.geofence_settings e)
    wide (some s) h e =
        inr (h, (first_where-some (business_wide business) db.geofence_settings s e).0)

    own :
        (o : Option (ℕ × GeofenceSetting))
        → first_where (at_location business l) db.geofence_settings ≡ o
        → IsApplicable business (some l) db (elim o [
          | none ↦ first_where (business_wide business) db.geofence_settings
          | some s ↦ some s
        ])
    own none e = wide _ (first_where-none (at_location business l) db.geofence_settings e) refl
    own (some s) e = inl (first_where-some (at_location business l) db.geofence_settings s e).0

-- The setting that applies to a membership is an enabled one of its business: the one of the
-- membership's location where there is one, and otherwise the business-wide one; and none applies only
-- where there is neither.
pub get_applicable_geofence-IsApplicable :
    (m : BusinessMembership) (db : Db)
    → IsApplicable m.business m.location db (get_applicable_geofence m db)
unfolding get_applicable_geofence
get_applicable_geofence-IsApplicable m db = setting_for-IsApplicable m.business m.location db

-- A position was reported, and its distance from the setting's centre is at most the radius.
abbrev pub is_within : Distance → ℕ × GeofenceSetting → Option ℤ → Option ℤ → Bool
is_within distance (_, s) (some x) (some y) =
    leb (distance s.center_latitude s.center_longitude x y) (s.radius_meters * 100)
is_within distance s _ _ = false

-- What is said of a verdict that names this setting, or none.
abbrev pub IsVerdict :
    Distance
    → BusinessMembership
    → Option ℤ
    → Option ℤ
    → Db
    → Bool
    → Option (ℕ × GeofenceSetting)
    → Type 0
IsVerdict distance m lat lng db passed none =
    IsApplicable m.business m.location db none × (passed ≡ true)
IsVerdict distance m lat lng db passed (some s) =
    IsApplicable m.business m.location db (some s) × (passed ≡ is_within distance s lat lng)

setting_lem :
    (distance : Distance) (m : BusinessMembership) (lat lng : Option ℤ) (db : Db)
    → (verify_geofence distance m lat lng db).setting ≡ get_applicable_geofence m db
unfolding verify_geofence check_against
setting_lem distance m lat lng db = ground arith

passed_lem :
    (distance : Distance) (m : BusinessMembership) (lat lng : Option ℤ) (db : Db)
    → (verify_geofence distance m lat lng db).passed
      ≡ elim (get_applicable_geofence m db) [ none ↦ true | some s ↦ is_within distance s lat lng ]
unfolding verify_geofence check_against
passed_lem distance m lat lng db = ground arith

-- The verdict of a check. It names the setting that applies: an enabled one of the membership's
-- location at its business where there is one, or else an enabled one of the business without a
-- location; and none where there is neither. It passes where it names none, and where a whole
-- position was reported whose distance from the setting's centre is at most the radius; and it does
-- not pass otherwise.
pub verify_geofence-IsVerdict :
    (distance : Distance) (m : BusinessMembership) (lat lng : Option ℤ) (db : Db)
    → let result = verify_geofence distance m lat lng db in
      IsVerdict distance m lat lng db result.passed result.setting
verify_geofence-IsVerdict distance m lat lng db =
    rw (setting_lem distance m lat lng db, passed_lem distance m lat lng db)
      (go (get_applicable_geofence m db) (get_applicable_geofence-IsApplicable m db))
  where
    go :
        (o : Option (ℕ × GeofenceSetting))
        → IsApplicable m.business m.location db o
        → IsVerdict distance m lat lng db
            (elim o [ none ↦ true | some s ↦ is_within distance s lat lng ])
            o
    go none h = (h, refl)
    go (some s) h = (h, refl)
