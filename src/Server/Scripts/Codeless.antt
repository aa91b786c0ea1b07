-- ===== src/Server/Scripts/Codeless.antt =====
-- pub_key_verify, and with it the loop over the keys, answers no status code.
use simple_x509_authenticate.Common.{
  ℕ, zero, suc, ◌+◌, ◌-◌, inl, inr, Bool, true, false, Option, none, some, Bytes, length, get_elem?,
  All, All-get_elem?, add64, take, drop, ltb, ◌!=◌, if◌then◌else◌, Bool-cases, Option-cases,
}
use simple_x509_authenticate.Common.Int.{ℤ, ltb_ℤ}
use simple_x509_authenticate.Common.Result.{ok, err, abort, ◌>>=◌}
use simple_x509_authenticate.Common.Buffer.{read, or_out_of_bounds}
use simple_x509_authenticate.Crypto.Ssl.{OpenSsl}
use simple_x509_authenticate.Crypto.{
  Extract, assert_some, PubKey, SupportedAlg, supported_algs, openssl_verify, pub_key_verify,
}
use simple_x509_authenticate.Server.Scripts.{
  next_number, Keys, Outcome, executed, try_key, swap_remove, auth_loop, authenticate,
}

unfoldable pub Codeless {ℓ} : {A : Type ℓ} → Extract A → Type 0
Codeless (ok a) = Unit {0}
Codeless (err e) = ⊥
Codeless (abort x) = Unit {0}

Codeless-ok {ℓ} : {A : Type ℓ} (a : A) → Codeless (ok a)
unfolding Codeless
Codeless-ok a = tt

Codeless-bind {ℓ κ} :
    {A : Type ℓ} {B : Type κ} (m : Extract A) (f : A → Extract B)
    → Codeless m
    → ((a : A) → Codeless (f a))
    → Codeless (m >>= f)
unfolding Codeless
Codeless-bind (ok a) f h k = k a
Codeless-bind (err e) f h k = h
Codeless-bind (abort x) f h k = tt

Codeless-if {ℓ} :
    {A : Type ℓ} (b : Bool) (m n : Extract A)
    → Codeless m
    → Codeless n
    → Codeless (if b then m else n)
Codeless-if true m n h k = h
Codeless-if false m n h k = k

Codeless-some {ℓ} : {A : Type ℓ} (o : Option A) → Codeless (or_out_of_bounds o)
unfolding Codeless
Codeless-some none = tt
Codeless-some (some a) = tt

Codeless-assert_some {ℓ} : {A : Type ℓ} (o : Option A) → Codeless (assert_some o)
unfolding assert_some Codeless
Codeless-assert_some none = tt
Codeless-assert_some (some a) = tt

module _ (ssl : OpenSsl) where
  openssl_verify-Codeless :
      (key : PubKey ssl) (message sig : Bytes) → Codeless (openssl_verify ssl key message sig)
  unfolding openssl_verify
  openssl_verify-Codeless key message sig = Codeless-if _ _ _ (Codeless-ok _) (
      Codeless-bind (assert_some key.md_ctx) _ (Codeless-assert_some key.md_ctx)
        λ ctx. Codeless-if _ _ _ (Codeless-ok _) (Codeless-ok _))

  VerifiesCodeless : SupportedAlg ssl → Type 0
  VerifiesCodeless alg =
      (key : PubKey ssl) (message sig : Bytes) → Codeless (alg.verify_sig key message sig)

  supported_algs-Codeless : All VerifiesCodeless (supported_algs ssl)
  unfolding VerifiesCodeless
  supported_algs-Codeless =
      (openssl_verify-Codeless, (openssl_verify-Codeless, (openssl_verify-Codeless, tt)))

  pub_key_verify-Codeless :
      (key : PubKey ssl) (message sig : Bytes) → Codeless (pub_key_verify ssl key message sig)
  unfolding pub_key_verify VerifiesCodeless assert_some Codeless
  pub_key_verify-Codeless key message sig =
      Codeless-if (key.exp_sig_size != length sig) (ok false)
        (assert_some (get_elem? (supported_algs ssl) key.alg_idx) >>= λ alg.
          alg.verify_sig key message sig)
        tt
        (elim (Option-cases (get_elem? (supported_algs ssl) key.alg_idx)) [
          | inl missing ↦ rw missing tt
          | inr (alg, e) ↦ rw e (
              All-get_elem? VerifiesCodeless (supported_algs ssl) key.alg_idx
                supported_algs-Codeless e key message sig)
        ])

  try_key-Codeless : (key : PubKey ssl) (buf : Bytes) → Codeless (try_key ssl key buf)
  unfolding try_key read
  try_key-Codeless key buf =
      Codeless-if _ _ _
        (Codeless-bind (read buf key.exp_sig_size) _
          (Codeless-some (get_elem? buf key.exp_sig_size))
          λ c.
            Codeless-if _ _ _
              (Codeless-bind
                (pub_key_verify ssl key (drop (add64 key.exp_sig_size 1) buf)
                  (take key.exp_sig_size buf))
                _ (pub_key_verify-Codeless key _ _) λ good. Codeless-ok _)
              (Codeless-ok _))
        (Codeless-ok _)

  swap_remove-Codeless :
      (i : ℕ) (key : PubKey ssl) (ks : Keys ssl) → Codeless (swap_remove ssl i key ks)
  unfolding swap_remove
  swap_remove-Codeless i key ks =
      Codeless-bind (or_out_of_bounds (get_elem? ks.keys (ks.keys_size - 1))) _
        (Codeless-some (get_elem? ks.keys (ks.keys_size - 1))) λ last. Codeless-ok _

  executed-Codeless :
      (key : PubKey ssl) (ks : Keys ssl) (found : Option Bytes)
      (later : Extract (Outcome ssl × Keys ssl))
      → Codeless later
      → Codeless (elim found [
        | some script ↦ ok (executed key script, record ks { script_n = next_number ks.script_n })
        | none ↦ later
      ])
  executed-Codeless key ks none later h = h
  executed-Codeless key ks (some script) later h = Codeless-ok _

  auth_loop-Codeless :
      (fuel : ℕ) (now : ℤ) (buf : Bytes) (bound i : ℕ) (ks : Keys ssl)
      → Codeless (auth_loop ssl fuel now buf bound i ks)
  unfolding auth_loop Codeless
  auth_loop-Codeless zero now buf bound i ks = tt
  auth_loop-Codeless (suc fuel) now buf bound i ks = elim (Bool-cases (ltb i bound)) [
    | inr done ↦ rw (done, auth_loop) tt
    | inl more ↦
        rw (more, auth_loop)
          (Codeless-bind (or_out_of_bounds (get_elem? ks.keys i)) _
            (Codeless-some (get_elem? ks.keys i))
            λ key. elim (Bool-cases (ltb_ℤ key.expiry now)) [
              | inl late ↦ rw late (elim (Bool-cases (ltb 1 ks.keys_size)) [
                | inr only ↦ rw only tt
                | inl others ↦ rw others (
                    Codeless-bind (swap_remove ssl i key ks) _ (swap_remove-Codeless i key ks)
                      λ fewer. auth_loop-Codeless fuel now buf bound i fewer)
              ])
              | inr valid ↦ rw valid (
                  Codeless-bind (try_key ssl key buf) _ (try_key-Codeless key buf) λ found.
                    executed-Codeless key ks found _
                      (auth_loop-Codeless fuel now buf bound (suc i) ks))
            ])
  ]

  pub authenticate-Codeless :
      (now : ℤ) (buf : Bytes) (ks : Keys ssl) → Codeless (authenticate ssl now buf ks)
  unfolding authenticate
  authenticate-Codeless now buf ks =
      auth_loop-Codeless (suc (ks.keys_size + ks.keys_size)) now buf ks.keys_size 0 ks
