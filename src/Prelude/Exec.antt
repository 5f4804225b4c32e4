-- ===== src/Prelude/Exec.antt =====
-- The monad of the service functions: a database state, and an exception or a result. What was
-- written before an exception stays written, unless the code stands in `transaction.atomic()`.
use food_tech_crm_backend.Prelude.{Bool, true, false, Option, none, some, ◌≡◌, refl, if◌then◌else◌}

pub data Result (E : Type 0) (A : Type 0) : Type 0 where
  ok : A → Result E A
  err : E → Result E A

abbrev pub Exec : Type 0 → Type 0 → Type 0 → Type 0
Exec S E A = S → Result E A × S

module _ {S E A : Type 0} where
  abbrev pub pure : A → Exec S E A
  pure a s = (ok a, s)

  abbrev pub raise : E → Exec S E A
  raise e s = (err e, s)

  abbrev pub gets : (S → A) → Exec S E A
  gets f s = (ok (f s), s)

  -- `get()`, which raises where there is no row
  abbrev pub or_raise : Option A → E → Exec S E A
  or_raise none e s = (err e, s)
  or_raise (some a) e s = (ok a, s)

  -- `with transaction.atomic():` an exception rolls the state back
  abbrev pub atomic : Exec S E A → Exec S E A
  atomic m s = let (r, s') = m s in elim r [ ok a ↦ (ok a, s') | err e ↦ (err e, s) ]

infixl 5 ◌>>=◌ ◌>>◌
abbrev pub ◌>>=◌ : {S E A B : Type 0} → Exec S E A → (A → Exec S E B) → Exec S E B
◌>>=◌ m f s = let (r, s') = m s in elim r [ ok a ↦ f a s' | err e ↦ (err e, s') ]

abbrev pub ◌>>◌ : {S E A B : Type 0} → Exec S E A → Exec S E B → Exec S E B
m >> k = m >>= λ _. k

module _ {S E : Type 0} where
  abbrev pub raise_if : Bool → E → Exec S E (Unit {0})
  raise_if c e s = (if c then err e else ok tt, s)

  abbrev pub modify : (S → S) → Exec S E (Unit {0})
  modify f s = (ok tt, f s)

  abbrev pub when : Bool → Exec S E (Unit {0}) → Exec S E (Unit {0})
  when c m s = if c then m s else (ok tt, s)

-- What holds of the state after a call that branches on a test.
pub if_keeps :
    {S E A : Type 0} (P : S → Type 0) (b : Bool) (x y : Result E A × S)
    → (b ≡ true → P x.1)
    → (b ≡ false → P y.1)
    → P (if b then x else y).1
if_keeps P true x y h k = h refl
if_keeps P false x y h k = k refl

-- What holds of the state after a block: of the state before it, where the block raises.
pub atomic_keeps :
    {S E A : Type 0} (P : S → Type 0) (m : Exec S E A) (s : S) → P s → P (m s).1 → P (atomic m s).1
atomic_keeps {S = S} {E = E} {A = A} P m s before after = cases (m s) after
  where
    cases : (o : Result E A × S) → P o.1 → P (atomic (λ _. o) s).1
    cases (ok a, s') after = after
    cases (err e, s') after = before

pub bind_keeps :
    {S E A B : Type 0} (P : S → Type 0) (m : Exec S E A) (f : A → Exec S E B) (s : S)
    → P (m s).1
    → ((a : A) (s' : S) → P s' → P (f a s').1)
    → P ((m >>= f) s).1
bind_keeps {S = S} {E = E} {A = A} P m f s after keeps = cases (m s) after
  where
    cases : (o : Result E A × S) → P o.1 → P (((λ _. o) >>= f) s).1
    cases (ok a, s') after = keeps a s' after
    cases (err e, s') after = after

pub when_keeps :
    {S E : Type 0} (P : S → Type 0) (b : Bool) (m : Exec S E (Unit {0})) (s : S)
    → P s
    → (b ≡ true → P (m s).1)
    → P (when b m s).1
when_keeps P true m s before after = after refl
when_keeps P false m s before after = before
