-- ===== src/Prelude/Results.antt =====
-- The outcome of a call that may throw or reject.
use mathlib.Core.Path.{◌≡◌, refl}
use mathlib.Core.Logic.{◌⊎◌, inl, inr}
use mathlib.Core.Bool.{Bool, true, false}
use mathlib.Core.Option.{Option, none, some}

pub data Result {ℓ κ} (E : Type ℓ) (A : Type κ) : Type (ℓ ⊔ κ) where
  ok : A → Result E A
  err : E → Result E A

infixl 5 ◌>>=◌ ◌>>◌
abbrev pub ◌>>=◌ {ℓ κ μ} :
    {E : Type ℓ} {A : Type κ} {B : Type μ} → Result E A → (A → Result E B) → Result E B
ok a >>= f = f a
err e >>= f = err e

abbrev pub ◌>>◌ {ℓ κ μ} :
    {E : Type ℓ} {A : Type κ} {B : Type μ} → Result E A → Result E B → Result E B
m >> k = m >>= λ _. k

module _ {ℓ κ} {E : Type ℓ} {A : Type κ} where
  -- `if (x == null) throw e`
  abbrev pub or_throw : Option A → E → Result E A
  or_throw none e = err e
  or_throw (some a) e = ok a

  -- `try { return await m } catch { return d }`
  abbrev pub or_default : A → Result E A → A
  or_default d (ok a) = a
  or_default d (err e) = d

  pub Result-cases : (r : Result E A) → ((a : A) × (r ≡ ok a)) ⊎ ((e : E) × (r ≡ err e))
  Result-cases (ok a) = inl (a, refl)
  Result-cases (err e) = inr (e, refl)

module _ {ℓ} {E : Type ℓ} where
  -- `if (!test) throw e`
  abbrev pub guard : Bool → E → Result E (Unit {0})
  guard true e = ok tt
  guard false e = err e

-- What a successful outcome tells of its parts
pub bind_ok {ℓ κ μ} :
    {E : Type ℓ} {A : Type κ} {B : Type μ} (m : Result E A) (f : A → Result E B) {b : B}
    → (m >>= f) ≡ ok b
    → (a : A) × (m ≡ ok a) × (f a ≡ ok b)
bind_ok (ok a) f e = (a, refl, e)
bind_ok (err x) f e = absurd cc

pub or_throw_ok {ℓ κ} :
    {E : Type ℓ} {A : Type κ} (o : Option A) (x : E) {a : A} → or_throw o x ≡ ok a → o ≡ some a
or_throw_ok none x e = absurd cc
or_throw_ok (some a) x e = cc

pub guard_ok {ℓ} : {E : Type ℓ} (t : Bool) (x : E) {u : Unit {0}} → guard t x ≡ ok u → t ≡ true
guard_ok true x e = refl
guard_ok false x e = absurd cc

module _ {ℓ κ} {E : Type ℓ} {A : Type κ} where
  abbrev succeeds : A → Result E A
  succeeds a = ok a

  pub ok_inj : {a b : A} → succeeds a ≡ ok b → a ≡ b
  ok_inj e = cc

pub bind_congr {ℓ κ μ} :
    {E : Type ℓ} {A : Type κ} {B : Type μ} (r : Result E A) (f g : A → Result E B)
    → ((a : A) → f a ≡ g a)
    → (r >>= f) ≡ (r >>= g)
bind_congr (ok a) f g same = same a
bind_congr (err e) f g same = refl
