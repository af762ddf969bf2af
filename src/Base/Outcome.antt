-- ===== src/Base/Outcome.antt =====
-- What a Python function returns or raises, with `do` blocks over it.
use mathlib.Core.Path.{◌≡◌, refl, subst}
use mathlib.Core.Logic.{◌⊎◌, inl, inr}
use mathlib.Core.Bool.{Bool, true, false}
use mathlib.Core.Option.{Option, none, some}

pub data Result {ℓ} (E : Type 0) (A : Type ℓ) : Type ℓ where
  ok : A → Result E A
  err : E → Result E A

infixl 5 ◌>>=◌ ◌>>◌
abbrev pub ◌>>=◌ {ℓ κ} :
    {E : Type 0} {A : Type ℓ} {B : Type κ} → Result E A → (A → Result E B) → Result E B
ok a >>= f = f a
err e >>= f = err e

abbrev pub ◌>>◌ {ℓ} : {E : Type 0} {B : Type ℓ} → Result E (Unit {0}) → Result E B → Result E B
m >> k = m >>= λ _. k

-- `if test: raise e`
abbrev pub raise_if : {E : Type 0} → Bool → E → Result E (Unit {0})
raise_if true e = err e
raise_if false e = ok tt

abbrev pub or_raise {ℓ} : {E : Type 0} {A : Type ℓ} → Option A → E → Result E A
or_raise (some a) e = ok a
or_raise none e = err e

ok_inj {ℓ} : (E : Type 0) {A : Type ℓ} {a b : A} → ◌≡◌ {A = Result E A} (ok a) (ok b) → a ≡ b
ok_inj E e = cc

-- The run returns, with a value that satisfies `P`.
pub data Returns {ℓ κ} {E : Type 0} {A : Type ℓ} (P : A → Type κ) : Result E A → Type (ℓ ⊔ κ) where
  returns : {a : A} → P a → Returns P (ok a)

pub Returns-map {ℓ κ κ'} :
    {E : Type 0} {A : Type ℓ} {P : A → Type κ} {Q : A → Type κ'} {m : Result E A}
    → Returns P m
    → ((v : A) → P v → Q v)
    → Returns Q m
Returns-map (returns held) weaken = returns (weaken _ held)

pub Returns-value {ℓ κ} :
    {E : Type 0} {A : Type ℓ} {P : A → Type κ} {m : Result E A}
    → Returns P m
    → (v : A) × (m ≡ ok v) × P v
Returns-value (returns held) = (_, refl, held)

pub Returns-at {ℓ κ} :
    {E : Type 0} {A : Type ℓ} {P : A → Type κ} {m : Result E A} {v : A}
    → Returns P m
    → m ≡ ok v
    → P v
Returns-at {E} {P} (returns held) e = subst P (ok_inj E e) held

pub Returns-bind {ℓ κ ι μ} :
    {E : Type 0} {A : Type ℓ} {B : Type ι} {P : A → Type κ} {Q : B → Type μ} {m : Result E A}
    {next : A → Result E B}
    → Returns P m
    → ((v : A) → P v → Returns Q (next v))
    → Returns Q (m >>= next)
Returns-bind (returns held) rest = rest _ held

pub Result-cases {ℓ} :
    {E : Type 0} {A : Type ℓ} (m : Result E A) → ((a : A) × (m ≡ ok a)) ⊎ ((e : E) × (m ≡ err e))
Result-cases (ok a) = inl (a, refl)
Result-cases (err e) = inr (e, refl)

-- A chain that returns ran each of its steps.
pub bind-ok {ℓ κ} :
    {E : Type 0} {A : Type ℓ} {B : Type κ} (m : Result E A) {f : A → Result E B} {b : B}
    → (m >>= f) ≡ ok b
    → (a : A) × (m ≡ ok a) × (f a ≡ ok b)
bind-ok (ok a) e = (a, refl, e)
bind-ok (err fault) e = absurd (cc e)

pub raise_if-ok {ℓ} :
    {E : Type 0} {A : Type ℓ} (test : Bool) (fault : E) {m : Result E A} {a : A}
    → (raise_if test fault >> m) ≡ ok a
    → (test ≡ false) × (m ≡ ok a)
raise_if-ok true fault e = absurd (cc e)
raise_if-ok false fault e = (refl, e)

pub or_raise-ok {ℓ} :
    {E : Type 0} {A : Type ℓ} (o : Option A) (fault : E) {a : A}
    → or_raise o fault ≡ ok a
    → o ≡ some a
or_raise-ok (some a) fault e = cc
or_raise-ok none fault e = absurd (cc e)
