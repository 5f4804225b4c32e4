-- ===== src/Core/Permissions.antt =====
-- core/permissions.py: who may do what at a business.
pub mod Access
use food_tech_crm_backend.Prelude.{
  ℕ, Option, none, some, List, [], ◌∷◌, ◌≡◌, arith, refl, Bool, true, false, not, ◌&&◌, ◌||◌, ◌==◌,
  leb, any_where, first_where, if◌then◌else◌,
}
use food_tech_crm_backend.Prelude.Table.{Table, lookup}
use food_tech_crm_backend.Core.Db.{Business, Role, owner, manager, staff, BusinessMembership}

-- What the classes read of `request.user`.
pub record User : Type 0 where
  pub id : ℕ
  pub is_authenticated : Bool
  pub is_superadmin : Bool

pub record Db : Type 0 where
  pub businesses : Table Business
  pub memberships : Table BusinessMembership

-- ROLE_RANK
abbrev pub role_rank : Role → ℕ
role_rank staff = 1
role_rank manager = 2
role_rank owner = 3

abbrev pub is_member : ℕ → ℕ → ℕ × BusinessMembership → Bool
is_member user business (_, m) = m.business == business && m.user == user && m.is_active

unfoldable pub get_membership : User → ℕ → Db → Option (ℕ × BusinessMembership)
get_membership user business db = first_where (is_member user.id business) db.memberships

abbrev pub business_keys : Table Business → List ℕ
business_keys [] = []
business_keys ((k, _) ∷ t) = k ∷ business_keys t

abbrev pub businesses_of : ℕ → Table BusinessMembership → List ℕ
businesses_of user [] = []
businesses_of user ((_, m) ∷ t) =
    let rest = businesses_of user t in
    if m.user == user && m.is_active then m.business ∷ rest else rest

unfoldable pub business_ids_for_user : User → Db → List ℕ
business_ids_for_user user db =
    if user.is_superadmin then business_keys db.businesses else businesses_of user.id db.memberships

-- `_business_is_active`
unfoldable pub business_is_active : ℕ → Db → Bool
business_is_active business db = elim (lookup business db.businesses) [
  | none ↦ false
  | some b ↦ b.is_active
]

-- `_role_is_sufficient`
abbrev pub role_is_sufficient : Role → Option (ℕ × BusinessMembership) → Bool
role_is_sufficient required none = false
role_is_sufficient required (some (_, m)) = leb (role_rank required) (role_rank m.role)

abbrev pub may_act : Role → User → ℕ → Db → Bool
may_act required user business db =
    role_is_sufficient required (get_membership user business db) && business_is_active business db

-- A request without a user is one whose user is not authenticated. `business` is the URL's argument.
unfoldable pub has_permission : Role → User → Option ℕ → Db → Bool
has_permission required user business db =
    if not user.is_authenticated
    then false
    else if user.is_superadmin
    then true
    else elim business [ none ↦ true | some b ↦ may_act required user b db ]

-- `business` is the object's.
unfoldable pub has_object_permission : Role → User → Option ℕ → Db → Bool
has_object_permission required user business db =
    if user.is_superadmin
    then true
    else elim business [ none ↦ false | some b ↦ may_act required user b db ]
