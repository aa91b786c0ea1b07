-- ===== src/Crypto/Memory.antt =====
-- The extraction of an RSA key in src/crypto.c hands EVP_PKEY_fromdata what stands in the memory
-- for the key.
use simple_x509_authenticate.Common.{ℕ, ◌≡◌, refl, sym, ap, ◌∙◌, Option, none, some, Bytes, sub64}
use simple_x509_authenticate.Common.Result.{
  ◌>>=◌, Returns, Returns-mono, Allows, Allows-bind, Allows-any, Allows-refuse, Returns-Allows,
}
use simple_x509_authenticate.Common.Buffer.{read_bytes, Allows-require}
use simple_x509_authenticate.X509.Der.{parse_null}
use simple_x509_authenticate.X509.Der.Bounds.{Fits}
use simple_x509_authenticate.X509.Fields.{X509Fields}
use simple_x509_authenticate.X509.Fields.Bounds.{CertBounds}
use simple_x509_authenticate.Crypto.Ssl.{OpenSsl, Documented}
use simple_x509_authenticate.Crypto.Rsa.{Ready, rsa_extract-Returns}
use simple_x509_authenticate.Crypto.{
  Extract, or_stay, RsaSpans, rsa_spans, rsa_sig_size, PubKey, assert_some, rsa_digest,
  rsa_build_key, rsa_extract,
}

-- EVP_PKEY_fromdata makes a new key only where the pointer that it is given is null.
pub record Reuses (ssl : OpenSsl) : Type 0 where
  pub same_key :
      (ctx : ssl.PkeyCtx) (params : ssl.Params) (old : ssl.Pkey)
      → (ssl.fromdata ctx params (some old)).1 ≡ some old

pub Allows-assert_some {ℓ} :
    {A : Type 0} {B : Type ℓ} (Q : B → Type 0) (o : Option A) (f : A → Extract B)
    → ((a : A) → o ≡ some a → Allows Q (f a))
    → Allows Q (assert_some o >>= f)
unfolding assert_some
Allows-assert_some Q none f h = tt
Allows-assert_some Q (some a) f h = h a refl

module _ (ssl : OpenSsl) (reuses : Reuses ssl) (old : ssl.Pkey) where
  abbrev Old : PubKey ssl → Type 0
  Old key = key.pkey ≡ some old

  rsa_build_key-Old :
      (raw : Bytes) (s : RsaSpans) (ret : PubKey ssl)
      → Old ret
      → Allows Old (rsa_build_key ssl raw s ret)
  unfolding rsa_build_key
  rsa_build_key-Old raw s ret held =
      Allows-bind (λ _. Unit {0}) Old
        (read_bytes (sub64 s.modulus_end s.modulus_start) raw s.modulus_start) _ (Allows-any _)
        λ mb _ _. Allows-require Old _ _ _ λ modulus _.
          Allows-bind (λ _. Unit {0}) Old (read_bytes (sub64 s.exp_end s.exp_start) raw s.exp_start)
            _ (Allows-any _)
            λ eb _ _. Allows-require Old _ _ _ λ exp _. Allows-require Old _ _ _ λ build _.
              Allows-refuse Old _ _ _ λ _. Allows-refuse Old _ _ _ λ _. Allows-refuse Old _ _ _ λ _.
                Allows-require Old _ _ _ λ params _. Allows-require Old _ _ _ λ ctx _.
                  Allows-refuse Old _ _ _ λ _. Allows-refuse Old _ _ _ λ _.
                    Allows-assert_some Old _ _ λ pkey made. Allows-require Old _ _ _ λ md_ctx _.
                      sym made
                      ∙ ap (λ p. (ssl.fromdata (ssl.fromdata_init ctx).1 params p).1) held
                      ∙ reuses.same_key (ssl.fromdata_init ctx).1 params old

  rsa_extract-Old :
      (raw : Bytes) (fields : X509Fields) (ret : PubKey ssl)
      → Old ret
      → Allows Old (rsa_extract ssl raw fields ret)
  unfolding rsa_extract
  rsa_extract-Old raw fields ret held =
      Allows-bind (λ _. Unit {0}) Old
        (or_stay fields.pub_key_oid_end
          (parse_null raw fields.pub_key_oid_end fields.pub_key_id_end))
        _ (Allows-any _)
        λ idx _ _. Allows-refuse Old _ _ _ λ _.
          Allows-bind (λ _. Unit {0}) Old
            (read_bytes (sub64 fields.sig_oid_end fields.sig_oid_start) raw fields.sig_oid_start) _
            (Allows-any _)
            λ oid _ _.
              Allows-bind (λ _. Unit {0}) Old (rsa_digest ssl oid) _ (Allows-any _)
                λ md _ _.
                  Allows-bind (λ _. Unit {0}) Old (rsa_spans raw fields) _ (Allows-any _)
                    λ s _ _.
                      Allows-bind (λ _. Unit {0}) Old
                        (rsa_sig_size (sub64 s.modulus_end s.modulus_start)) _ (Allows-any _)
                        λ n _ _.
                          rsa_build_key-Old raw s (record ret { md = some md; exp_sig_size = n })
                            held

-- Where EVP_PKEY_fromdata makes a new key only where the pointer that it is given is null, and the
-- memory for a key is not null there, as memory of malloc that was not cleared or that holds a key
-- which was freed before, an RSA key that rsa_extract answers is the object at this old pointer.
pub rsa_extract-old_key :
    (ssl : OpenSsl) (raw : Bytes) (size : ℕ) (fields : X509Fields) (ret : PubKey ssl)
    (old : ssl.Pkey)
    → Documented ssl
    → Reuses ssl
    → Fits raw size
    → CertBounds size fields
    → ret.pkey ≡ some old
    → Returns (λ key. key.pkey ≡ some old) (rsa_extract ssl raw fields ret)
rsa_extract-old_key ssl raw size fields ret old doc reuses fits bounds held =
    Returns-mono _ (Old ssl reuses old) (rsa_extract ssl raw fields ret) (λ key both. both.1)
      (Returns-Allows (Ready ssl ret) (Old ssl reuses old) (rsa_extract ssl raw fields ret)
        (rsa_extract-Returns ssl doc raw size fits fields bounds ret)
        (rsa_extract-Old ssl reuses old raw fields ret held))
