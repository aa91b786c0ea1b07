-- ===== src/Common/Result.antt =====
-- The outcome of a C function that answers a status code.
use mathlib.Core.Path.{◌≡◌, refl, subst}
use mathlib.Core.Bool.{Bool, true, false}

-- Behaviour that the C standard leaves undefined, or that ends the process.
pub data Fault : Type 0 where
  out_of_bounds assertion out_of_fuel : Fault

-- `ok` is the success code together with what was written through the return pointers. `err` is
-- any other code; what was written before it is unspecified and is not kept. `abort` stands for
-- a read outside of a buffer, a failed assert, or a loop of the model that ran out of fuel.
pub data Result {ℓ κ} (E : Type ℓ) (A : Type κ) : Type (ℓ ⊔ κ) where
  ok : A → Result E A
  err : E → Result E A
  abort : Fault → Result E A

infixl 5 ◌>>=◌ ◌>>◌
abbrev pub ◌>>=◌ {ℓ κ μ} :
    {E : Type ℓ} {A : Type κ} {B : Type μ} → Result E A → (A → Result E B) → Result E B
ok a >>= f = f a
err e >>= f = err e
abort x >>= f = abort x

abbrev pub ◌>>◌ {ℓ κ} : {E : Type ℓ} {B : Type κ} → Result E (Unit {0}) → Result E B → Result E B
m >> k = m >>= λ _. k

-- `if (bad) return e;`
unfoldable pub refuse {ℓ} : {E : Type ℓ} → Bool → E → Result E (Unit {0})
refuse true e = err e
refuse false e = ok tt

-- `assert(b);`
unfoldable pub check {ℓ} : {E : Type ℓ} → Bool → Result E (Unit {0})
check true = ok tt
check false = abort Fault.assertion

-- Total correctness: no abort, and every success satisfies `P`.
abbrev pub Returns {ℓ κ} : {E : Type ℓ} {A : Type κ} → (A → Type 0) → Result E A → Type 0
Returns P (ok a) = P a
Returns P (err e) = Unit
Returns P (abort x) = ⊥

pub Returns-bind {ℓ κ μ} :
    {E : Type ℓ} {A : Type κ} {B : Type μ} (P : A → Type 0) (Q : B → Type 0) (m : Result E A)
    (f : A → Result E B)
    → Returns P m
    → ((a : A) → m ≡ ok a → P a → Returns Q (f a))
    → Returns Q (m >>= f)
Returns-bind P Q (ok a) f h k = k a refl h
Returns-bind P Q (err e) f h k = tt
Returns-bind P Q (abort x) f h k = elim h [ ]

pub Returns-mono {ℓ κ} :
    {E : Type ℓ} {A : Type κ} (P Q : A → Type 0) (m : Result E A)
    → ((a : A) → P a → Q a)
    → Returns P m
    → Returns Q m
Returns-mono P Q (ok a) f h = f a h
Returns-mono P Q (err e) f h = tt
Returns-mono P Q (abort x) f h = h

pub Returns_ok {ℓ κ} :
    {E : Type ℓ} {A : Type κ} (P : A → Type 0) (m : Result E A) {a : A}
    → Returns P m
    → m ≡ ok a
    → P a
Returns_ok P m h e = subst (Returns P) e h

-- Every success satisfies `P`; nothing is said of an abort.
abbrev pub Allows {ℓ κ} : {E : Type ℓ} {A : Type κ} → (A → Type 0) → Result E A → Type 0
Allows P (ok a) = P a
Allows P (err e) = Unit {0}
Allows P (abort x) = Unit {0}

pub Allows-bind {ℓ κ μ} :
    {E : Type ℓ} {A : Type κ} {B : Type μ} (P : A → Type 0) (Q : B → Type 0) (m : Result E A)
    (f : A → Result E B)
    → Allows P m
    → ((a : A) → m ≡ ok a → P a → Allows Q (f a))
    → Allows Q (m >>= f)
Allows-bind P Q (ok a) f h k = k a refl h
Allows-bind P Q (err e) f h k = tt
Allows-bind P Q (abort x) f h k = tt

pub Allows-mono {ℓ κ} :
    {E : Type ℓ} {A : Type κ} (P Q : A → Type 0) (m : Result E A)
    → ((a : A) → P a → Q a)
    → Allows P m
    → Allows Q m
Allows-mono P Q (ok a) f h = f a h
Allows-mono P Q (err e) f h = tt
Allows-mono P Q (abort x) f h = tt

pub Allows-any {ℓ κ} : {E : Type ℓ} {A : Type κ} (m : Result E A) → Allows (λ _. Unit {0}) m
Allows-any (ok a) = tt
Allows-any (err e) = tt
Allows-any (abort x) = tt

pub Allows-refuse {ℓ κ} :
    {E : Type ℓ} {B : Type κ} (Q : B → Type 0) (b : Bool) (e : E) (f : Unit {0} → Result E B)
    → (b ≡ false → Allows Q (f tt))
    → Allows Q (refuse b e >>= f)
unfolding refuse
Allows-refuse Q true e f h = tt
Allows-refuse Q false e f h = h refl

pub Returns-Allows {ℓ κ} :
    {E : Type ℓ} {A : Type κ} (P Q : A → Type 0) (m : Result E A)
    → Returns P m
    → Allows Q m
    → Returns (λ a. P a × Q a) m
Returns-Allows P Q (ok a) h k = (h, k)
Returns-Allows P Q (err e) h k = tt
Returns-Allows P Q (abort x) h k = elim h [ ]

-- The same without an error: the answer is a success that satisfies `P`.
abbrev pub Yields {ℓ κ} : {E : Type ℓ} {A : Type κ} → (A → Type 0) → Result E A → Type 0
Yields P (ok a) = P a
Yields P (err e) = ⊥
Yields P (abort x) = ⊥

pub Yields-bind {ℓ κ μ} :
    {E : Type ℓ} {A : Type κ} {B : Type μ} (P : A → Type 0) (Q : B → Type 0) (m : Result E A)
    (f : A → Result E B)
    → Yields P m
    → ((a : A) → m ≡ ok a → P a → Yields Q (f a))
    → Yields Q (m >>= f)
Yields-bind P Q (ok a) f h k = k a refl h
Yields-bind P Q (err e) f h k = elim h [ ]
Yields-bind P Q (abort x) f h k = elim h [ ]

pub Yields-mono {ℓ κ} :
    {E : Type ℓ} {A : Type κ} (P Q : A → Type 0) (m : Result E A)
    → ((a : A) → P a → Q a)
    → Yields P m
    → Yields Q m
Yields-mono P Q (ok a) f h = f a h
Yields-mono P Q (err e) f h = h
Yields-mono P Q (abort x) f h = h

pub Yields-Returns {ℓ κ} :
    {E : Type ℓ} {A : Type κ} (P Q : A → Type 0) (m : Result E A)
    → ((a : A) → P a → Q a)
    → Yields P m
    → Returns Q m
Yields-Returns P Q (ok a) f h = f a h
Yields-Returns P Q (err e) f h = tt
Yields-Returns P Q (abort x) f h = h

-- What satisfies `P` or ends with an error that satisfies `Q`, and is not an abort.
abbrev pub Ends {ℓ κ} :
    {E : Type ℓ} {A : Type κ} → (E → Type 0) → (A → Type 0) → Result E A → Type 0
Ends Q P (ok a) = P a
Ends Q P (err e) = Q e
Ends Q P (abort x) = ⊥

module _ {ℓ} {E : Type ℓ} (Q : E → Type 0) where
  pub Ends-bind {κ μ} :
      {A : Type κ} {B : Type μ} (P : A → Type 0) (R : B → Type 0) (m : Result E A)
      (f : A → Result E B)
      → Ends Q P m
      → ((a : A) → m ≡ ok a → P a → Ends Q R (f a))
      → Ends Q R (m >>= f)
  Ends-bind P R (ok a) f h k = k a refl h
  Ends-bind P R (err e) f h k = h
  Ends-bind P R (abort x) f h k = h

  pub Ends-mono {κ} :
      {A : Type κ} (P R : A → Type 0) (m : Result E A)
      → ((a : A) → P a → R a)
      → Ends Q P m
      → Ends Q R m
  Ends-mono P R (ok a) f h = f a h
  Ends-mono P R (err e) f h = h
  Ends-mono P R (abort x) f h = h

  pub Ends_ok {κ} :
      {A : Type κ} (P : A → Type 0) (m : Result E A) {a : A} → Ends Q P m → m ≡ ok a → P a
  Ends_ok P m h e = subst (Ends Q P) e h

  pub Ends_err {κ} :
      {A : Type κ} (P : A → Type 0) (m : Result E A) {e : E} → Ends Q P m → m ≡ err e → Q e
  Ends_err P m h e = subst (Ends Q P) e h

pub Yields-ok {ℓ κ} :
    {E : Type ℓ} {A : Type κ} (P : A → Type 0) (m : Result E A)
    → Yields P m
    → (a : A) × (m ≡ ok a) × P a
Yields-ok P (ok a) h = (a, refl, h)
Yields-ok P (err e) h = elim h [ ]
Yields-ok P (abort x) h = elim h [ ]
