-- ===== src/Crypto/Ranges.antt =====
-- Rules for the small functions of src/crypto.c, and the bytes of a range.
use simple_x509_authenticate.Common.{
  ℕ, ◌-◌, ◌^◌, ◌≤◌, ◌<◌, ◌≡◌, ◌≢◌, refl, sym, ◌∙◌, Bool, true, Option, none, some, Bytes, length,
  take, drop, sub64, ◌==◌, arith,
}
use simple_x509_authenticate.Common.Result.{ok, err, abort, ◌>>=◌, Returns, Returns-bind}
use simple_x509_authenticate.Common.Buffer.{read_bytes, memeq_iff, read_bytes-take, Returns-if}
use simple_x509_authenticate.X509.Code.{Parse}
use simple_x509_authenticate.Crypto.{ExtractCode, Extract, or_code, or_stay, assert_some, certeq}

-- The bytes from `start` to `end`.
abbrev pub slice : Bytes → ℕ → ℕ → Bytes
slice raw start end = take (end - start) (drop start raw)

pub or_code-Returns {ℓ} :
    {A : Type ℓ} (P : A → Type 0) (e : ExtractCode) (m : Parse A)
    → Returns P m
    → Returns P (or_code e m)
unfolding or_code
or_code-Returns P e (ok a) h = h
or_code-Returns P e (err c) h = tt
or_code-Returns P e (abort f) h = h

pub or_stay-Returns :
    (P : ℕ → Type 0) (idx : ℕ) (m : Parse ℕ) → Returns P m → Returns (λ i. Unit {0}) (or_stay idx m)
unfolding or_stay
or_stay-Returns P idx (ok i) h = tt
or_stay-Returns P idx (err c) h = tt
or_stay-Returns P idx (abort f) h = h

pub Returns-assert {ℓ κ} :
    {A : Type ℓ} {B : Type κ} (Q : B → Type 0) (o : Option A) (f : A → Extract B)
    → o ≢ none
    → ((a : A) → o ≡ some a → Returns Q (f a))
    → Returns Q (assert_some o >>= f)
unfolding assert_some
Returns-assert Q none f e h = absurd (e refl)
Returns-assert Q (some a) f e h = h a refl

module _ (raw : Bytes) (small : length raw < 2 ^ 63) where
  -- The bytes of a range that lies in the buffer.
  pub slice-Returns :
      (E : Type 0) (start end : ℕ)
      → start ≤ end
      → end ≤ length raw
      → Returns (λ bs. bs ≡ slice raw start end) (read_bytes {E = E} (sub64 end start) raw start)
  slice-Returns E start end h k =
      let size : sub64 end start ≡ end - start = omega arith in
      rw size (read_bytes-take E (end - start) raw start (omega arith))

  pub certeq-Returns :
      (s0 e0 s1 e1 : ℕ)
      → s0 ≤ e0
      → e0 ≤ length raw
      → s1 ≤ e1
      → e1 ≤ length raw
      → Returns (λ same. same ≡ true → slice raw s0 e0 ≡ slice raw s1 e1) (certeq raw s0 e0 s1 e1)
  unfolding certeq
  certeq-Returns s0 e0 s1 e1 h0 k0 h1 k1 =
      let Same : Bool → Type 0 = λ same. same ≡ true → slice raw s0 e0 ≡ slice raw s1 e1 in
      Returns-if Same (sub64 e0 s0 == sub64 e1 s1) _ _
        (λ _.
          Returns-bind _ Same (read_bytes (sub64 e0 s0) raw s0) _
            (slice-Returns ExtractCode s0 e0 h0 k0)
            λ a _ ea.
              Returns-bind _ Same (read_bytes (sub64 e1 s1) raw s1) _
                (slice-Returns ExtractCode s1 e1 h1 k1)
                λ b _ eb same. sym ea ∙ (memeq_iff a b).0 same ∙ eb)
        (λ _ impossible. cc)
