-- ===== src/Common/Buffer.antt =====
-- Reads of a byte buffer, and the comparisons of memory of basic.h and the C library.
use Prim.Native.Nat.{ℕ, zero, suc, ◌+◌, ◌≤◌, ◌<◌}
use mathlib.Core.Path.{◌≡◌, refl, sym, ap, subst, ◌∙◌}
use mathlib.Core.Bool.{Bool, true, false}
use mathlib.Core.Logic.{◌↔◌}
use mathlib.Core.Option.{Option, none, some, some-injective}
use mathlib.Core.List.{[], ◌∷◌}
use native.Mathlib.Omega.{arith}
use simple_x509_authenticate.Common.Tests.{◌==◌, if◌then◌else◌}
use simple_x509_authenticate.Common.Lists.{length, get_elem?, get_elem?-lt, take, drop, drop-cons}
use simple_x509_authenticate.Common.Words.{Bytes}
use simple_x509_authenticate.Common.Result.{
  Ends, Result, ok, err, abort, Fault, Returns, Returns-bind, Yields, Allows, ◌>>=◌, refuse, check,
}

abbrev pub or_out_of_bounds {ℓ κ} : {E : Type ℓ} {A : Type κ} → Option A → Result E A
or_out_of_bounds none = abort Fault.out_of_bounds
or_out_of_bounds (some a) = ok a

-- A null pointer answers the code `e`.
unfoldable pub require {ℓ κ} : {E : Type ℓ} {A : Type κ} → Option A → E → Result E A
require none e = err e
require (some a) e = ok a

-- `buffer[i]`.
unfoldable pub read {ℓ} : {E : Type ℓ} → Bytes → ℕ → Result E ℕ
read raw i = or_out_of_bounds (get_elem? raw i)

-- `size` bytes from `buffer[i]` on.
unfoldable pub read_bytes {ℓ} : {E : Type ℓ} → ℕ → Bytes → ℕ → Result E Bytes
read_bytes zero raw i = ok []
read_bytes (suc size) raw i = do b ← read raw i; bs ← read_bytes size raw (i + 1); ok (b ∷ bs)

-- The byte strings have equal sizes and equal contents.
unfoldable pub memeq : Bytes → Bytes → Bool
memeq [] [] = true
memeq [] (y ∷ ys) = false
memeq (x ∷ xs) [] = false
memeq (x ∷ xs) (y ∷ ys) = if x == y then memeq xs ys else false

pub memeq_iff : (xs ys : Bytes) → (memeq xs ys ≡ true) ↔ (xs ≡ ys)
unfolding memeq
memeq_iff [] [] = ground arith
memeq_iff [] (y ∷ ys) = ground arith
memeq_iff (x ∷ xs) [] = ground arith
memeq_iff (x ∷ xs) (y ∷ ys) = ground (arith, memeq_iff xs ys)

module _ {ℓ} (E : Type ℓ) where
  pub read_bytes-length :
      (size : ℕ) (raw : Bytes) (i : ℕ)
      → i + size ≤ length raw
      → Returns (λ bs. length bs ≡ size) (read_bytes {E = E} size raw i)
  unfolding read_bytes read
  read_bytes-length zero raw i h = refl
  read_bytes-length (suc size) raw i h =
      let (b, e) = get_elem?-lt raw i (omega arith) in
      rw e (
        Returns-bind (λ (bs : Bytes). length bs ≡ size) _ (read_bytes size raw (i + 1)) _
          (read_bytes-length size raw (i + 1) (omega arith)) λ bs _ n. ap suc n)

  -- The bytes that are read, where they lie in the buffer.
  pub read_bytes-take :
      (size : ℕ) (raw : Bytes) (i : ℕ)
      → i + size ≤ length raw
      → Returns (λ bs. bs ≡ take size (drop i raw)) (read_bytes {E = E} size raw i)
  unfolding read_bytes read
  read_bytes-take zero raw i h = refl
  read_bytes-take (suc size) raw i h =
      let (b, e) = get_elem?-lt raw i (omega arith) in
      let next : i + 1 ≡ suc i = omega arith in
      rw (e, next)
        (Returns-bind (λ (bs : Bytes). bs ≡ take size (drop (suc i) raw)) _
          (read_bytes size raw (suc i)) _ (read_bytes-take size raw (suc i) (omega arith))
          λ bs _ n. ap (◌∷◌ b) n ∙ ap (take (suc size)) (sym (drop-cons raw i e)))

-- Rules for `Returns` of a block that begins with a check or a read.
module _ {ℓ κ} {E : Type ℓ} {B : Type κ} (Q : B → Type 0) where
  pub Returns-refuse :
      (b : Bool) (e : E) (f : Unit {0} → Result E B)
      → (b ≡ false → Returns Q (f tt))
      → Returns Q (refuse b e >>= f)
  unfolding refuse
  Returns-refuse true e f h = tt
  Returns-refuse false e f h = h refl

  pub Returns-check :
      (b : Bool) (f : Unit {0} → Result E B)
      → b ≡ true
      → Returns Q (f tt)
      → Returns Q (check b >>= f)
  unfolding check
  Returns-check true f e h = h
  Returns-check false f e h = cc

  pub Returns-if :
      (b : Bool) (m n : Result E B)
      → (b ≡ true → Returns Q m)
      → (b ≡ false → Returns Q n)
      → Returns Q (if b then m else n)
  Returns-if true m n h k = h refl
  Returns-if false m n h k = k refl

  pub Returns-some {μ} :
      {A : Type μ} (o : Option A) (f : A → Result E B) {b : A}
      → o ≡ some b
      → Returns Q (f b)
      → Returns Q (or_out_of_bounds o >>= f)
  Returns-some none f e h = cc
  Returns-some (some a) f {b} e h = subst (λ c. Returns Q (f c)) (sym (some-injective a b e)) h

  pub Returns-read :
      (raw : Bytes) (i : ℕ) (f : ℕ → Result E B)
      → i < length raw
      → ((b : ℕ) → get_elem? raw i ≡ some b → Returns Q (f b))
      → Returns Q (read raw i >>= f)
  unfolding read
  Returns-read raw i f lt h =
      let (b, e) = get_elem?-lt raw i lt in Returns-some (get_elem? raw i) f e (h b e)

  pub Returns-require {μ} :
      {A : Type μ} (o : Option A) (e : E) (f : A → Result E B)
      → ((a : A) → o ≡ some a → Returns Q (f a))
      → Returns Q (require o e >>= f)
  unfolding require
  Returns-require none e f h = tt
  Returns-require (some a) e f h = h a refl

pub Yields-some {ℓ κ μ} :
    {E : Type ℓ} {A : Type κ} {B : Type μ} (Q : B → Type 0) (o : Option A) (f : A → Result E B)
    {b : A}
    → o ≡ some b
    → Yields Q (f b)
    → Yields Q (or_out_of_bounds o >>= f)
Yields-some Q none f e h = cc
Yields-some Q (some a) f {b} e h = subst (λ c. Yields Q (f c)) (sym (some-injective a b e)) h

pub Yields-check {ℓ κ} :
    {E : Type ℓ} {B : Type κ} (Q : B → Type 0) (b : Bool) (f : Unit {0} → Result E B)
    → b ≡ true
    → Yields Q (f tt)
    → Yields Q (check b >>= f)
unfolding check
Yields-check Q true f e h = h
Yields-check Q false f e h = cc

pub Ends-some {ℓ κ μ} :
    {E : Type ℓ} {A : Type κ} {B : Type μ} (R : E → Type 0) (Q : B → Type 0) (o : Option A)
    (f : A → Result E B) {b : A}
    → o ≡ some b
    → Ends R Q (f b)
    → Ends R Q (or_out_of_bounds o >>= f)
Ends-some R Q none f e h = cc
Ends-some R Q (some a) f {b} e h = subst (λ c. Ends R Q (f c)) (sym (some-injective a b e)) h

pub Ends-check {ℓ κ} :
    {E : Type ℓ} {B : Type κ} (R : E → Type 0) (Q : B → Type 0) (b : Bool)
    (f : Unit {0} → Result E B)
    → b ≡ true
    → Ends R Q (f tt)
    → Ends R Q (check b >>= f)
unfolding check
Ends-check R Q true f e h = h
Ends-check R Q false f e h = cc

pub Allows-require {ℓ κ μ} :
    {E : Type ℓ} {A : Type κ} {B : Type μ} (Q : B → Type 0) (o : Option A) (e : E)
    (f : A → Result E B)
    → ((a : A) → o ≡ some a → Allows Q (f a))
    → Allows Q (require o e >>= f)
unfolding require
Allows-require Q none e f h = tt
Allows-require Q (some a) e f h = h a refl
