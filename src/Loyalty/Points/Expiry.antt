-- ===== src/Loyalty/Points/Expiry.antt =====
-- The expiry task: a grant that a run has processed is never due again.
use food_tech_crm_backend.Prelude.{
  ℕ, none, List, [], ◌∷◌, ◌≡◌, arith, refl, subst, ◌∙◌, Bool, true, false, any_where, rows_where,
  Bool-cases, Option-cases, inl, inr,
}
use food_tech_crm_backend.Prelude.Int.{pos, ltb_ℤ, min_ℤ}
use food_tech_crm_backend.Prelude.Table.{Table, insert, lookup}
use food_tech_crm_backend.Prelude.Exec.{Result, ok, err, ◌>>=◌}
use food_tech_crm_backend.Loyalty.Db.{PointsTransaction, Db, Error}
use food_tech_crm_backend.Loyalty.Points.{
  expires, is_due, expire_one, next_count, expire_each, expire_due_points,
}
use food_tech_crm_backend.Loyalty.Points.Outcomes.{
  expire_one_lem, expire_one_missing, expire_one_no_program,
}

-- The ledger `u` is `t` with more rows, none of which expires.
data Adds (t : Table PointsTransaction) : Table PointsTransaction → Type 0 where
  same : Adds t t
  more :
      (id : ℕ) (r : PointsTransaction) {u : Table PointsTransaction}
      → r.expires_at ≡ none
      → Adds t u
      → Adds t (insert id r u)

Adds-trans : {t u v : Table PointsTransaction} → Adds t u → Adds u v → Adds t v
Adds-trans a same = a
Adds-trans a (more id r e b) = more id r e (Adds-trans a b)

any_where-Adds :
    {t u : Table PointsTransaction} (k : ℕ)
    → Adds t u
    → any_where (expires k) t ≡ true
    → any_where (expires k) u ≡ true
any_where-Adds k same h = h
any_where-Adds k (more id r e a) h = ground (arith, any_where-Adds k a h)

-- Of every grant in the list, the ledger has an expiration.
AllDone : Table PointsTransaction → List (ℕ × PointsTransaction) → Type 0
AllDone t [] = Unit
AllDone t ((k, _) ∷ due) = (any_where (expires k) t ≡ true) × AllDone t due

AllDone-Adds :
    {t u : Table PointsTransaction} (due : List (ℕ × PointsTransaction))
    → Adds t u
    → AllDone t due
    → AllDone u due
unfolding AllDone
AllDone-Adds [] a h = tt
AllDone-Adds ((k, _) ∷ due) a (h, hs) = (any_where-Adds k a h, AllDone-Adds due a hs)

expire_one-Adds :
    (id k : ℕ) (earned : PointsTransaction) (db : Db)
    → Adds db.points_transactions (expire_one id k earned db).1.points_transactions
expire_one-Adds id k earned db = elim (Option-cases (lookup earned.account db.accounts)) [
  | inl e ↦ rw (expire_one_missing id earned.account db k earned e) same
  | inr (a, row) ↦ elim (Option-cases (lookup a.loyalty_program db.programs)) [
    | inl e ↦
        rw (expire_one_no_program id earned.account db k earned a row e)
          (elim (Bool-cases (ltb_ℤ (pos 0) (min_ℤ earned.points_change a.available_points))) [
            | inl f ↦ rw f same
            | inr f ↦ rw f (elim (Bool-cases (any_where (expires k) db.points_transactions)) [
              | inl g ↦ rw g same
              | inr g ↦ rw g (more id _ refl same)
            ])
          ])
    | inr (p, found) ↦
        rw (expire_one_lem id earned.account a p db row found k earned refl)
          (elim (Bool-cases (any_where (expires k) db.points_transactions)) [
            | inl g ↦ rw g same
            | inr g ↦
                rw g
                  (elim (Bool-cases
                    (ltb_ℤ (pos 0) (min_ℤ earned.points_change a.available_points))) [
                      | inl f ↦ rw f (more id _ refl same)
                      | inr f ↦ rw f (more id _ refl same)
                    ])
          ])
  ]
]

expire_one_done :
    (id k : ℕ) (earned : PointsTransaction) (n m : ℕ) (db : Db)
    → next_count (expire_one id k earned db).0 n ≡ ok m
    → any_where (expires k) (expire_one id k earned db).1.points_transactions ≡ true
unfolding expire_one
expire_one_done id k earned n m db h = ground arith

-- A run that ends without an exception has an expiration of every grant it was given.
expire_each_done :
    (fresh : ℕ → ℕ) (due : List (ℕ × PointsTransaction)) (n m : ℕ) (db : Db)
    → (expire_each fresh due n db).0 ≡ ok m
    → let t = (expire_each fresh due n db).1.points_transactions in
      Adds db.points_transactions t × AllDone t due
unfolding expire_each AllDone
expire_each_done fresh [] n m db h = (same, tt)
expire_each_done fresh ((k, earned) ∷ due) n m db h =
    after (next_count (expire_one (fresh k) k earned db).0 n) refl (expire_each fresh due)
      (λ i. expire_each_done fresh due i m (expire_one (fresh k) k earned db).1) h
  where
    after :
        (o : Result Error ℕ)
        → next_count (expire_one (fresh k) k earned db).0 n ≡ o
        → (run : ℕ → Db → Result Error ℕ × Db)
        → let db' = (expire_one (fresh k) k earned db).1 in
          ((i : ℕ)
            → (run i db').0 ≡ ok m
            → Adds db'.points_transactions (run i db').1.points_transactions
              × AllDone (run i db').1.points_transactions due)
          → (((λ s. (o, s)) >>= run) db').0 ≡ ok m
          → let t = (((λ s. (o, s)) >>= run) db').1.points_transactions in
            Adds db.points_transactions t × ((any_where (expires k) t ≡ true) × AllDone t due)
    after (err x) e run ih h = ground arith
    after (ok i) e run ih h =
        let (added, done) = ih i h in
        (
          Adds-trans (expire_one-Adds (fresh k) k earned db) added,
          (any_where-Adds k added (expire_one_done (fresh k) k earned n i db e), done),
        )

-- Rows that do not expire are never due.
rows_due-Adds :
    (now : ℕ) (all : Table PointsTransaction) {t u : Table PointsTransaction}
    → Adds t u
    → rows_where (is_due now all) u ≡ rows_where (is_due now all) t
rows_due-Adds now all same = refl
rows_due-Adds now all (more id r e a) = ground (arith, rows_due-Adds now all a)

module _ {A : Type 0} (p : A → Bool) (x : A) (xs : List A) where
  rows_where-true : p x ≡ true → rows_where p (x ∷ xs) ≡ x ∷ rows_where p xs
  rows_where-true h = ground arith

  rows_where-false : p x ≡ false → rows_where p (x ∷ xs) ≡ rows_where p xs
  rows_where-false h = ground arith

none_due :
    (now : ℕ) (t u : Table PointsTransaction) (rows : List (ℕ × PointsTransaction))
    → Adds t u
    → AllDone u (rows_where (is_due now t) rows)
    → rows_where (is_due now u) rows ≡ []
unfolding AllDone
none_due now t u [] a h = refl
none_due now t u ((k, r) ∷ rows) a h = elim (Bool-cases (is_due now t (k, r))) [
  | inl due ↦
      let (done, rest) : (any_where (expires k) u ≡ true)
          × AllDone u (rows_where (is_due now t) rows) =
        subst (AllDone u) (rows_where-true (is_due now t) (k, r) rows due) h in
      skip (not_again done) ∙ none_due now t u rows a rest
  | inr not_due ↦
      skip (still_not not_due)
      ∙ none_due now t u rows a
          (subst (AllDone u) (rows_where-false (is_due now t) (k, r) rows not_due) h)
]
  where
    skip :
        is_due now u (k, r) ≡ false
        → rows_where (is_due now u) ((k, r) ∷ rows) ≡ rows_where (is_due now u) rows
    skip not_now = rows_where-false (is_due now u) (k, r) rows not_now

    not_again : any_where (expires k) u ≡ true → is_due now u (k, r) ≡ false
    not_again done = ground arith

    still_not : is_due now t (k, r) ≡ false → is_due now u (k, r) ≡ false
    still_not not_due = ground (arith, any_where-Adds k a)

-- After a run of the expiry task that ends without an exception, a second run at the same time, with
-- whatever new keys, finds no grant due: it counts none and changes nothing.
pub expire_due_points_once :
    (now m : ℕ) (fresh fresh' : ℕ → ℕ) (db : Db)
    → (expire_due_points now fresh db).0 ≡ ok m
    → let after = (expire_due_points now fresh db).1 in
      expire_due_points now fresh' after ≡ (ok 0, after)
unfolding expire_due_points expire_each
expire_due_points_once now m fresh fresh' db h =
    let t = db.points_transactions in
    let (added, done) = expire_each_done fresh (rows_where (is_due now t) t) 0 m db h in
    let u = (expire_each fresh (rows_where (is_due now t) t) 0 db).1.points_transactions in
    rw (rows_due-Adds now u added ∙ none_due now t u t added done) refl
