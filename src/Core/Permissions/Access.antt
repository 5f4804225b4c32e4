-- ===== src/Core/Permissions/Access.antt =====
-- Who is let in.
use food_tech_crm_backend.Prelude.{
  ℕ, ◌≤◌, Option, none, some, [], ◌∷◌, ◌≡◌, arith, refl, sym, ◌∙◌, ◌⊎◌, inl, inr, Bool-cases, Bool,
  true, false, not, ◌&&◌, ◌==◌, leb, first_where, any_where, if◌then◌else◌,
}
use food_tech_crm_backend.Prelude.Queries.{any_where-later}
use food_tech_crm_backend.Prelude.Table.{Table, lookup}
use food_tech_crm_backend.Core.Db.{Business, Role, BusinessMembership}
use food_tech_crm_backend.Core.Permissions.{
  User, Db, role_rank, is_member, get_membership, business_is_active, role_is_sufficient, may_act,
  has_permission, has_object_permission,
}
use food_tech_crm_backend.Core.Trials.{has_subscription, check_expired_trials}
use food_tech_crm_backend.Core.Trials.Status.{check_expired_trials-settled}

-- A membership that lets a user act at a business.
abbrev pub grants : Role → ℕ → ℕ → ℕ × BusinessMembership → Bool
grants required user business (_, m) =
    m.business == business
    && m.user == user
    && m.is_active
    && leb (role_rank required) (role_rank m.role)

abbrev pub IsGranted : Role → ℕ → ℕ → Db → Type 0
IsGranted required user business db =
    (any_where (grants required user business) db.memberships ≡ true)
    × (b : Business) × (lookup business db.businesses ≡ some b)
    × (b.is_active ≡ true)

grants_lem :
    (required : Role) (user business : ℕ) (x : ℕ × BusinessMembership)
    → is_member user business x ≡ true
    → role_is_sufficient required (some x) ≡ true
    → grants required user business x ≡ true
grants_lem required user business (k, m) member enough = ground arith

granted_by_first :
    (required : Role) (user business : ℕ) (t : Table BusinessMembership)
    → role_is_sufficient required (first_where (is_member user business) t) ≡ true
    → any_where (grants required user business) t ≡ true
granted_by_first required user business [] h = ground arith
granted_by_first required user business (x ∷ t) h = elim (Bool-cases (is_member user business x)) [
  | inl e ↦
      let enough : role_is_sufficient required (some x) ≡ true = ground arith in
      let here = grants_lem required user business x e enough in ground arith
  | inr e ↦
      any_where-later (grants required user business) x t
        (granted_by_first required user business t (ground arith))
]

may_act-IsGranted :
    (required : Role) (user : User) (business : ℕ) (db : Db)
    → may_act required user business db ≡ true
    → IsGranted required user.id business db
unfolding get_membership business_is_active
may_act-IsGranted required user business db h =
    let (enough, active) = both _ _ h in
    let (b, found, open_row) = row _ refl active in
    (granted_by_first required user.id business db.memberships enough, b, found, open_row)
  where
    both : (a b : Bool) → (a && b) ≡ true → (a ≡ true) × (b ≡ true)
    both true b h = (refl, h)
    both false b h = absurd (ground arith)

    row :
        (o : Option Business)
        → lookup business db.businesses ≡ o
        → (elim o [ none ↦ false | some b ↦ b.is_active ]) ≡ true
        → (b : Business) × (lookup business db.businesses ≡ some b) × (b.is_active ≡ true)
    row none e h = absurd (ground arith)
    row (some b) e h = (b, e, h)

view_refused :
    (required : Role) (user : User) (business : ℕ) (db : Db)
    → user.is_superadmin ≡ false
    → may_act required user business db ≡ false
    → has_permission required user (some business) db ≡ false
unfolding has_permission
view_refused required user business db plain h = rw (h, plain) (either user.is_authenticated)
  where
    either : (c : Bool) → (if not c then false else false) ≡ false
    either true = refl
    either false = refl

object_refused :
    (required : Role) (user : User) (business : ℕ) (db : Db)
    → user.is_superadmin ≡ false
    → may_act required user business db ≡ false
    → has_object_permission required user (some business) db ≡ false
unfolding has_object_permission
object_refused required user business db plain h = rw (h, plain) refl

acts :
    (required : Role) (user : User) (business : ℕ) (db : Db)
    → user.is_superadmin ≡ false
    → (has_permission required user (some business) db ≡ true)
      ⊎ (has_object_permission required user (some business) db ≡ true)
    → may_act required user business db ≡ true
acts required user business db plain let_in =
    elim (Bool-cases (may_act required user business db)) [ inl e ↦ e | inr e ↦ clash e let_in ]
  where
    clash :
        may_act required user business db ≡ false
        → (has_permission required user (some business) db ≡ true)
          ⊎ (has_object_permission required user (some business) db ≡ true)
        → may_act required user business db ≡ true
    clash e (inl view) = e ∙ (sym (view_refused required user business db plain e) ∙ view)
    clash e (inr object) = e ∙ (sym (object_refused required user business db plain e) ∙ object)

-- Whoever is let in on a view of a business, or on an object of it, and is not a superadmin, has an
-- active membership of that very business with a role of at least the rank required, and the business
-- is there and is active.
pub has_permission-IsGranted :
    (required : Role) (user : User) (business : ℕ) (db : Db)
    → user.is_superadmin ≡ false
    → (has_permission required user (some business) db ≡ true)
      ⊎ (has_object_permission required user (some business) db ≡ true)
    → IsGranted required user.id business db
has_permission-IsGranted required user business db plain let_in =
    may_act-IsGranted required user business db (acts required user business db plain let_in)

-- A role that is enough for a view is enough for every view that requires a lower one: what an owner
-- may see a manager's view may ask for, and what a manager may see any member's.
pub may_act_mono :
    (low high : Role) (user : User) (business : ℕ) (db : Db)
    → role_rank low ≤ role_rank high
    → may_act high user business db ≡ true
    → may_act low user business db ≡ true
may_act_mono low high user business db le h = go (get_membership user business db) h
  where
    go :
        (o : Option (ℕ × BusinessMembership))
        → (role_is_sufficient high o && business_is_active business db) ≡ true
        → (role_is_sufficient low o && business_is_active business db) ≡ true
    go none h = absurd (ground arith)
    go (some (k, m)) h = ground arith

no_act :
    (required : Role) (user : User) (business : ℕ) (db : Db)
    → business_is_active business db ≡ false
    → may_act required user business db ≡ false
no_act required user business db h = rw h (right_false _)
  where
    right_false : (b : Bool) → (b && false) ≡ false
    right_false true = refl
    right_false false = refl

inactive_business :
    (business : ℕ) (b : Business) (db : Db)
    → lookup business db.businesses ≡ some b
    → b.is_active ≡ false
    → business_is_active business db ≡ false
unfolding business_is_active
inactive_business business b db row closed = ground arith

-- After the daily check, nobody but a superadmin acts at a business whose trial has expired and which
-- has no active or trialing subscription and is not a legacy account: every request on a view or an
-- object of it is refused, whatever the role.
pub lapsed_refused :
    (now : ℕ) (required : Role) (user : User) (business : ℕ) (b : Business) (db : Db)
    → user.is_superadmin ≡ false
    → lookup business (check_expired_trials now db.businesses) ≡ some b
    → has_subscription b ≡ false
    → b.trial_expired ≡ true
    → b.is_legacy ≡ false
    → let after : Db = record db { businesses = check_expired_trials now db.businesses } in
      (has_permission required user (some business) after ≡ false)
      × (has_object_permission required user (some business) after ≡ false)
lapsed_refused now required user business b db plain row free expired legacy =
    let after : Db = record db { businesses = check_expired_trials now db.businesses } in
    let settled = check_expired_trials-settled now business b db.businesses row in
    let closed : b.is_active ≡ false = ground arith in
    let refused =
      no_act required user business after (inactive_business business b after row closed) in
    (
      view_refused required user business after plain refused,
      object_refused required user business after plain refused,
    )
