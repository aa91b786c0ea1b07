-- ===== src/Server/Scripts/Number.antt =====
-- The numbers that the loop over the keys gives to the scripts.
use simple_x509_authenticate.Common.{
  ℕ, zero, suc, ◌+◌, ◌-◌, ◌≡◌, refl, ap, subst, inl, inr, Option-cases, Bytes, get_elem?, ltb,
  Bool-cases,
}
use simple_x509_authenticate.Common.Int.{ℤ, ltb_ℤ}
use simple_x509_authenticate.Common.Result.{ok, Allows, Allows-bind, Allows-any}
use simple_x509_authenticate.Common.Buffer.{or_out_of_bounds}
use simple_x509_authenticate.Crypto.Ssl.{OpenSsl}
use simple_x509_authenticate.Crypto.{PubKey}
use simple_x509_authenticate.Server.Scripts.{
  next_number, Keys, Outcome, executed, unauthentic, all_expired, try_key, swap_remove, auth_loop,
  authenticate,
}

module _ (ssl : OpenSsl) where
  -- A script that is executed has the next number.
  abbrev pub Numbered : ℕ → Outcome ssl → Keys ssl → Type 0
  Numbered n (executed key script) ks = ks.script_n ≡ next_number n
  Numbered n unauthentic ks = ks.script_n ≡ n
  Numbered n all_expired ks = ks.script_n ≡ n

  module _ (n : ℕ) where
    abbrev Next : Outcome ssl × Keys ssl → Type 0
    Next r = Numbered n r.0 r.1

    swap_remove-number :
        (i : ℕ) (key : PubKey ssl) (ks : Keys ssl)
        → ks.script_n ≡ n
        → Allows (λ fewer. fewer.script_n ≡ n) (swap_remove ssl i key ks)
    unfolding swap_remove
    swap_remove-number i key ks e =
        Allows-bind (λ _. Unit {0}) (λ (fewer : Keys ssl). fewer.script_n ≡ n)
          (or_out_of_bounds (get_elem? ks.keys (ks.keys_size - 1))) _ (Allows-any _) (λ last _ _. e)

    auth_loop-Next :
        (fuel : ℕ) (now : ℤ) (buf : Bytes) (bound i : ℕ) (ks : Keys ssl)
        → ks.script_n ≡ n
        → Allows Next (auth_loop ssl fuel now buf bound i ks)
    unfolding auth_loop
    auth_loop-Next zero now buf bound i ks e = tt
    auth_loop-Next (suc fuel) now buf bound i ks e = elim (Bool-cases (ltb i bound)) [
      | inr over ↦ rw (auth_loop, over) e
      | inl more ↦
          rw (auth_loop, more)
            (Allows-bind (λ _. Unit {0}) Next (or_out_of_bounds (get_elem? ks.keys i)) _
              (Allows-any _)
              λ key _ _. elim (Bool-cases (ltb_ℤ key.expiry now)) [
                | inl expired ↦ rw expired (elim (Bool-cases (ltb 1 ks.keys_size)) [
                  | inr last ↦ rw last e
                  | inl others ↦ rw others (
                      Allows-bind (λ fewer. fewer.script_n ≡ n) Next (swap_remove ssl i key ks) _
                        (swap_remove-number i key ks e)
                        λ fewer _ same. auth_loop-Next fuel now buf bound i fewer same)
                ])
                | inr fresh ↦ rw fresh (
                    Allows-bind (λ _. Unit {0}) Next (try_key ssl key buf) _ (Allows-any _)
                      λ found _ _. elim (Option-cases found) [
                        | inl nothing ↦ rw nothing (auth_loop-Next fuel now buf bound (suc i) ks e)
                        | inr (script, good) ↦ rw good (ap next_number e)
                      ])
              ])
    ]

  pub authenticate-Numbered :
      (now : ℤ) (buf : Bytes) (ks : Keys ssl) {outcome : Outcome ssl} {keys : Keys ssl}
      → authenticate ssl now buf ks ≡ ok (outcome, keys)
      → Numbered ks.script_n outcome keys
  unfolding authenticate
  authenticate-Numbered now buf ks e = subst (Allows (Next ks.script_n)) e (
      auth_loop-Next ks.script_n (suc (ks.keys_size + ks.keys_size)) now buf ks.keys_size 0 ks refl)
