-- ===== src/Core/Trials/Status.antt =====
-- What the daily check leaves each business with.
use food_tech_crm_backend.Prelude.{
  ℕ, none, some, Option-cases, [], ◌∷◌, ◌≡◌, arith, refl, sym, subst, ap, ◌∙◌, Bool, true, not,
  ◌&&◌, ◌||◌, inl, inr,
}
use food_tech_crm_backend.Prelude.Table.{Table, lookup, map_row}
use food_tech_crm_backend.Core.Db.{Business}
use food_tech_crm_backend.Core.Trials.{has_subscription, is_past, check_expired_trials, checked}

pub lookup-check_expired_trials :
    (now k : ℕ) (t : Table Business)
    → lookup k (check_expired_trials now t) ≡ map_row (checked now) (lookup k t)
unfolding check_expired_trials
lookup-check_expired_trials now k [] = refl
lookup-check_expired_trials now k ((j, b) ∷ t) = ground (arith, lookup-check_expired_trials now k t)

-- A business with an active subscription is active, one that is not legacy and whose trial has expired
-- without one is not, and a trial that has ended without one has expired.
abbrev pub is_settled : ℕ → Business → Bool
is_settled now b =
    (not (has_subscription b) || b.is_active)
    && (has_subscription b || b.is_legacy || not b.trial_expired || not b.is_active)
    && (has_subscription b || not (is_past now b.trial_ends_at) || b.trial_expired)

checked-settled : (now : ℕ) (b : Business) → is_settled now (checked now b) ≡ true
checked-settled now b = cases (has_subscription b) refl (is_past now b.trial_ends_at) refl
  where
    cases :
        (s : Bool)
        → has_subscription b ≡ s
        → (p : Bool) → is_past now b.trial_ends_at ≡ p
        → is_settled now (checked now b) ≡ true
    cases s e p f = ground arith

-- After the check, a business with an active or trialing subscription is active; one without, whose
-- trial has expired and which is not a legacy account, is not; and a trial that has ended without a
-- subscription is marked as expired.
pub check_expired_trials-settled :
    (now k : ℕ) (b : Business) (t : Table Business)
    → lookup k (check_expired_trials now t) ≡ some b
    → is_settled now b ≡ true
check_expired_trials-settled now k b t h = elim (Option-cases (lookup k t)) [
  | inl e ↦
      let gone : none ≡ some b =
        sym (lookup-check_expired_trials now k t ∙ ap (map_row (checked now)) e) ∙ h in
      absurd (ground arith)
  | inr (old, e) ↦
      let new : some (checked now old) ≡ some b =
        sym (lookup-check_expired_trials now k t ∙ ap (map_row (checked now)) e) ∙ h in
      let same : checked now old ≡ b = ground arith in
      subst (λ x. is_settled now x ≡ true) same (checked-settled now old)
]

checked-twice : (now : ℕ) (b : Business) → checked now (checked now b) ≡ checked now b
checked-twice now b = cases (has_subscription b) refl (is_past now b.trial_ends_at) refl
  where
    cases :
        (s : Bool)
        → has_subscription b ≡ s
        → (p : Bool) → is_past now b.trial_ends_at ≡ p
        → checked now (checked now b) ≡ checked now b
    cases s e p f = ground arith

-- The check that is run again at the same time changes nothing.
pub check_expired_trials-twice :
    (now : ℕ) (t : Table Business)
    → check_expired_trials now (check_expired_trials now t) ≡ check_expired_trials now t
unfolding check_expired_trials
check_expired_trials-twice now [] = refl
check_expired_trials-twice now ((k, b) ∷ t) =
    rw (check_expired_trials-twice now t)
      (ap (λ x. (k, x) ∷ check_expired_trials now t) (checked-twice now b))
