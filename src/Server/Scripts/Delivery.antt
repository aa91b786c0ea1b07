-- ===== src/Server/Scripts/Delivery.antt =====
-- What gen_sig writes is executed by the server.
use simple_x509_authenticate.Common.{
  ℕ, zero, suc, ◌∙◌, ◌+◌, ◌^◌, ◌<◌, ◌≡◌, refl, Bool, true, false, ◌∷◌, ◌++◌, Option, none, some,
  Bytes, length, length-append, get_elem?, get_elem?-lt, get_elem?-some_lt, get_elem?-drop,
  drop-suc, take-append, drop-append, add64, leb, ltb, arith,
}
use simple_x509_authenticate.Common.Int.{ℤ, ltb_ℤ}
use simple_x509_authenticate.Common.Result.{ok, ◌>>=◌}
use simple_x509_authenticate.Common.Buffer.{read, or_out_of_bounds}
use simple_x509_authenticate.Crypto.Ssl.{OpenSsl}
use simple_x509_authenticate.Crypto.{Extract, PubKey, pub_key_verify}
use simple_x509_authenticate.Server.Scripts.{
  next_number, frame, Keys, executed, try_key, auth_loop, authenticate,
}

-- A signature that the key accepts, of its size.
module _ (ssl : OpenSsl) (key : PubKey ssl) (sig script : Bytes)
    (size : length sig ≡ key.exp_sig_size) (small : key.exp_sig_size < 2 ^ 63)
    (good : pub_key_verify ssl key script sig ≡ ok true) where
  try_key-frame : try_key ssl key (frame sig script) ≡ ok (some script)
  unfolding try_key frame read
  try_key-frame =
      let behind = drop-append sig (b'\n' ∷ script) in
      let newline = get_elem?-drop (sig ++ b'\n' ∷ script) (length sig) behind in
      let rest = drop-suc (sig ++ b'\n' ∷ script) (length sig) behind in
      let front = take-append sig (b'\n' ∷ script) in
      let n = key.exp_sig_size in
      let start : add64 n 1 ≡ suc n = omega arith in
      let fits : leb (suc n) (length (sig ++ b'\n' ∷ script)) ≡ true =
        ground (arith, length-append sig (b'\n' ∷ script)) in
      rw (start, fits, rw size at newline, rw size at rest, rw size at front, good) refl

-- A round of the loop with a key that has not expired, and that finds a script.
valid_round :
    {X : Type 0} (late : Bool) (tried : Extract (Option Bytes)) (a b : Extract X) (f : Bytes → X)
    {script : Bytes}
    → late ≡ false
    → tried ≡ ok (some script)
    → (elim late [
      | true ↦ a
      | false ↦ tried >>= λ found. elim found [ some s ↦ ok (f s) | none ↦ b ]
    ])
      ≡ ok (f script)
valid_round late tried a b f h k = rw (h, k) refl

-- One with a key that has not expired, and that finds none.
skipped_round :
    {X : Type 0} (late : Bool) (tried : Extract (Option Bytes)) (a b : Extract X) (f : Bytes → X)
    → late ≡ false
    → tried ≡ ok none
    → (elim late [
      | true ↦ a
      | false ↦ tried >>= λ found. elim found [ some s ↦ ok (f s) | none ↦ b ]
    ])
      ≡ b
skipped_round late tried a b f h k = rw (h, k) refl

module _ (ssl : OpenSsl) (now : ℤ) where
  -- The key has not expired, and does not find a script that it signed.
  abbrev pub Skips : Bytes → PubKey ssl → Type 0
  Skips buf key = (ltb_ℤ key.expiry now ≡ false) × (try_key ssl key buf ≡ ok none)

  -- The key has not expired, and verifies the signature, of its size, on the script; the keys in
  -- front of it have not expired, and refuse what gen_sig writes.
  pub record Signatory (key : PubKey ssl) (sig script : Bytes) (ks : Keys ssl) : Type 0 where
    pub k : ℕ
    pub inside : k < ks.keys_size
    pub at : get_elem? ks.keys k ≡ some key
    pub size : length sig ≡ key.exp_sig_size
    pub small : key.exp_sig_size < 2 ^ 63
    pub good : pub_key_verify ssl key script sig ≡ ok true
    pub valid : ltb_ℤ key.expiry now ≡ false
    pub earlier :
        (j : ℕ) (other : PubKey ssl)
        → j < k
        → get_elem? ks.keys j ≡ some other
        → Skips (frame sig script) other

  module _ (key : PubKey ssl) (sig script : Bytes) (ks : Keys ssl)
      (s : Signatory key sig script ks) where
    auth_loop-Signatory :
        (d fuel i : ℕ)
        → i + d ≡ s.k
        → d < fuel
        → auth_loop ssl fuel now (frame sig script) ks.keys_size i ks
          ≡ ok (executed key script, record ks { script_n = next_number ks.script_n })
    unfolding auth_loop or_out_of_bounds
    auth_loop-Signatory d zero i e enough = absurd (omega arith)
    auth_loop-Signatory zero (suc fuel) i e enough =
        let inside = s.inside in
        let more : ltb i ks.keys_size ≡ true = ground arith in
        let here : i ≡ s.k = omega arith in
        rw (auth_loop, more, here, s.at)
          (valid_round (ltb_ℤ key.expiry now) (try_key ssl key (frame sig script)) _ _ _ s.valid
            (try_key-frame ssl key sig script s.size s.small s.good))
    auth_loop-Signatory (suc d) (suc fuel) i e enough =
        let inside = s.inside in
        let more : ltb i ks.keys_size ≡ true = ground arith in
        let in_list = get_elem?-some_lt ks.keys s.k s.at in
        let (other, at) = get_elem?-lt ks.keys i (omega arith) in
        let (valid, none_found) = s.earlier i other (omega arith) at in
        rw (auth_loop, more, at)
          (skipped_round (ltb_ℤ other.expiry now) (try_key ssl other (frame sig script)) _ _ _ valid
              none_found
            ∙ auth_loop-Signatory d fuel (suc i) (omega arith) (omega arith))

-- Where one of the keys in use has not expired at the time `now` and verifies `sig`, of the size of
-- its signatures, on `script`, and the keys in front of it have not expired and refuse what gen_sig
-- writes for the two, this lets authenticate execute the script; the keys stay as they are, and one
-- more script is counted.
pub authenticate-frame :
    (ssl : OpenSsl) (now : ℤ) (key : PubKey ssl) (sig script : Bytes) (ks : Keys ssl)
    → Signatory ssl now key sig script ks
    → authenticate ssl now (frame sig script) ks
      ≡ ok (executed key script, record ks { script_n = next_number ks.script_n })
unfolding authenticate
authenticate-frame ssl now key sig script ks s =
    let inside = s.inside in
    auth_loop-Signatory ssl now key sig script ks s s.k (suc (ks.keys_size + ks.keys_size)) 0
      (omega arith) (omega arith)
