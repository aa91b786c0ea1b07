-- ===== src/GenSig/Written.antt =====
-- What gen_sig writes.
use simple_x509_authenticate.Common.{
  ℕ, ◌^◌, ◌<◌, ◌≡◌, refl, ◌∙◌, Bool, true, false, not, [], ◌∷◌, ◌++◌, append_assoc, Option, none,
  some, Bytes, length, ltb, arith,
}
use simple_x509_authenticate.Common.Result.{◌>>=◌, Yields, Yields-bind, Yields-mono, refuse}
use simple_x509_authenticate.Common.Buffer.{require}
use simple_x509_authenticate.Output.{Writes, Succeeds}
use simple_x509_authenticate.Server.Scripts.{frame}
use simple_x509_authenticate.GenSig.Loops.{
  Reads, write_loop-whole, write_loop-lost, read_loop-Yields,
}
use simple_x509_authenticate.GenSig.{
  Sign, failure, Signing, read_loop, write_loop, newline_failed, gen_sig,
}

-- A check that lets the program go on.
Yields-pass :
    (Q : Bytes → Type 0) (b : Bool) (f : Unit {0} → Sign Bytes)
    → b ≡ false
    → Yields Q (f tt)
    → Yields Q (refuse b failure >>= f)
unfolding refuse
Yields-pass Q true f e h = cc
Yields-pass Q false f e h = h

Yields-given :
    (Q : Bytes → Type 0) (o : Option Bytes) (f : Bytes → Sign Bytes) {a : Bytes}
    → o ≡ some a
    → Yields Q (f a)
    → Yields Q (require o failure >>= f)
unfolding require
Yields-given Q o f e h = rw e h

not-false : {b : Bool} → b ≡ true → not b ≡ false
not-false e = rw e refl

-- What gen_sig is given so that it gets as far as its output.
pub record Prepared (s : Signing) (file sig : Bytes) : Type 0 where
  pub enough : ltb s.argc 3 ≡ false
  pub key_opened : s.key_opened ≡ true
  pub key_read : s.key_read ≡ true
  pub context : s.context ≡ true
  pub prepared : s.prepared ≡ true
  pub opened : s.opened ≡ true
  pub reads : Reads s.fread file
  pub signed : s.digest_sign file ≡ some sig
  pub newline : newline_failed s.write_newline ≡ false

-- The output, where `signed` is what the loop over the signature writes.
gen_sig-output :
    (fuel : ℕ) (s : Signing) (file sig signed : Bytes)
    → Prepared s file sig
    → Yields (λ out. out ≡ signed) (write_loop fuel s.write_sig 0 0 sig [])
    → Writes s.write_script
    → Succeeds s.write_script
    → length file < 2 ^ 62
    → length file < fuel
    → Yields (λ output. output ≡ (signed ++ b'\n' ∷ []) ++ file) (gen_sig fuel s)
unfolding gen_sig
gen_sig-output fuel s file sig signed p sent parts all_done small lt =
    let Q : Bytes → Type 0 = λ output. output ≡ (signed ++ b'\n' ∷ []) ++ file in
    Yields-pass Q (ltb s.argc 3) _ p.enough (
      Yields-pass Q (not s.key_opened) _ (not-false p.key_opened) (
        Yields-pass Q (not s.key_read) _ (not-false p.key_read) (
          Yields-pass Q (not s.context) _ (not-false p.context) (
            Yields-pass Q (not s.prepared) _ (not-false p.prepared) (
              Yields-pass Q (not s.opened) _ (not-false p.opened) (
                Yields-bind (λ script. script ≡ file) Q (read_loop fuel s.fread 0 [] (2 ^ 18)) _
                  (read_loop-Yields s.fread file p.reads small fuel 0 (2 ^ 18) [] (omega arith) refl
                    (omega arith) (omega arith))
                  λ script _ same. rw same (
                    Yields-given Q (s.digest_sign file) _ p.signed (
                      Yields-bind (λ out. out ≡ signed) Q (write_loop fuel s.write_sig 0 0 sig []) _
                        sent
                        λ out _ e. Yields-pass Q (newline_failed s.write_newline) _ p.newline (
                          rw e (
                            write_loop-whole s.write_script parts all_done file (omega arith) fuel
                              (signed ++ b'\n' ∷ []) lt))))))))))

-- Where the key and the script are opened and read, and no write fails, gen_sig ends and writes the
-- frame of the signature that OpenSSL answers for the script, whatever sizes fread and write answer.
-- The fuel is enough that is larger than the script and the signature.
pub gen_sig-frame :
    (fuel : ℕ) (s : Signing) (file sig : Bytes)
    → Prepared s file sig
    → Writes s.write_sig
    → Succeeds s.write_sig
    → Writes s.write_script
    → Succeeds s.write_script
    → length file < 2 ^ 62
    → length sig < 2 ^ 62
    → length file < fuel
    → length sig < fuel
    → Yields (λ output. output ≡ frame sig file) (gen_sig fuel s)
unfolding frame
gen_sig-frame fuel s file sig p sig_parts sig_done parts all_done small sig_small lt sig_lt =
    Yields-mono (λ output. output ≡ (sig ++ b'\n' ∷ []) ++ file) (λ output. output ≡ frame sig file)
      (gen_sig fuel s) (λ out h. h ∙ append_assoc sig (b'\n' ∷ []) file)
      (gen_sig-output fuel s file sig sig p
        (write_loop-whole s.write_sig sig_parts sig_done sig (omega arith) fuel [] sig_lt) parts
        all_done small lt)

-- Where the first write of the signature fails and all else goes well, gen_sig still answers success:
-- its output is the newline and the script, without the signature.
pub gen_sig-unsigned :
    (fuel : ℕ) (s : Signing) (file sig : Bytes)
    → Prepared s file sig
    → 0 < length sig
    → s.write_sig 0 (length sig) ≡ none
    → Writes s.write_script
    → Succeeds s.write_script
    → length file < 2 ^ 62
    → length sig < 2 ^ 62
    → length file < fuel
    → 1 < fuel
    → Yields (λ output. output ≡ b'\n' ∷ file) (gen_sig fuel s)
gen_sig-unsigned fuel s file sig p some_byte failed parts all_done small sig_small lt rounds =
    gen_sig-output fuel s file sig [] p
      (write_loop-lost fuel s.write_sig sig [] some_byte sig_small failed rounds) parts all_done
      small lt
