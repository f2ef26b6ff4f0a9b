-- ===== src/Prelude/Results.antt =====
-- A thrown error as a value, and `do` blocks over it.
use mathlib.Core.Path.{◌≡◌, refl, ap}
use mathlib.Core.Bool.{Bool, true, false}
use mathlib.Core.List.{List, [], ◌∷◌}
use mathlib.Core.Option.{Option, none, some}

pub data Result {ℓ} (E : Type ℓ) (A : Type ℓ) : Type ℓ where
  ok : A → Result E A
  err : E → Result E A

infixl 5 ◌>>=◌ ◌>>◌
abbrev pub ◌>>=◌ : {E A B : Type 0} → Result E A → (A → Result E B) → Result E B
step >>= next = elim step [ err thrown ↦ err thrown | ok value ↦ next value ]

abbrev pub ◌>>◌ : {E B : Type 0} → Result E (Unit {0}) → Result E B → Result E B
check >> rest = elim check [ err thrown ↦ err thrown | ok _ ↦ rest ]

-- `if (c) throw e;`
abbrev pub throw_if : {E : Type 0} → Bool → E → Result E (Unit {0})
throw_if true e = err e
throw_if false e = ok tt

-- `if (!row) throw e;` on the row that a query found.
abbrev pub or_throw : {E A : Type 0} → Option A → E → Result E A
or_throw none e = err e
or_throw (some a) e = ok a

pub ok-injective : {E A : Type 0} {a b : A} → ◌≡◌ {A = Result E A} (ok a) (ok b) → a ≡ b
ok-injective {E} {A} {a} h = ap value h
  where
    value : Result E A → A
    value (ok x) = x
    value (err e) = a

-- What a `do` block that succeeds did in its first step.
pub >>=-eq-ok :
    {E A B : Type 0} (step : Result E A) (next : A → Result E B) {y : B}
    → (step >>= next) ≡ ok y
    → (x : A) × (step ≡ ok x) × (next x ≡ ok y)
>>=-eq-ok (err thrown) next done = cc
>>=-eq-ok (ok x) next done = (x, refl, done)

pub >>-eq-ok :
    {E B : Type 0} (check : Result E (Unit {0})) (rest : Result E B) {y : B}
    → (check >> rest) ≡ ok y
    → (check ≡ ok tt) × (rest ≡ ok y)
>>-eq-ok (err thrown) rest done = cc
>>-eq-ok (ok tt) rest done = (refl, done)

pub throw_if-eq-ok :
    {E B : Type 0} (c : Bool) (e : E) (k : Result E B) {b : B}
    → (throw_if c e >> k) ≡ ok b
    → (c ≡ false) × (k ≡ ok b)
throw_if-eq-ok true e k h = cc
throw_if-eq-ok false e k h = (refl, h)

pub or_throw-eq-ok :
    {E A B : Type 0} (o : Option A) (e : E) (k : A → Result E B) {b : B}
    → (or_throw o e >>= k) ≡ ok b
    → (a : A) × (o ≡ some a) × (k a ≡ ok b)
or_throw-eq-ok none e k h = cc
or_throw-eq-ok (some a) e k h = (a, refl, h)

-- `for (const x of xs) check(x);`
abbrev pub for_each : {E A : Type 0} → (A → Result E (Unit {0})) → List A → Result E (Unit {0})
for_each check [] = ok tt
for_each check (x ∷ xs) = check x >> for_each check xs
