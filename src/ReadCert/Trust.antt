-- ===== src/ReadCert/Trust.antt =====
-- From the bytes of a file to a key that can be trusted.
use simple_x509_authenticate.Common.{
  ℕ, zero, suc, ◌^◌, ◌<◌, ◌≡◌, refl, ◌∙◌, ap, some, Bytes, IsByte, All, length, arith,
}
use simple_x509_authenticate.Common.Int.{ℤ, pos, negsuc}
use simple_x509_authenticate.Common.Result.{ok, err, abort, Returns, Returns-bind, Returns-mono}
use simple_x509_authenticate.Common.Buffer.{Returns-refuse, Returns-require}
use simple_x509_authenticate.X509.Code.{Parse}
use simple_x509_authenticate.X509.Der.Bounds.{Fits}
use simple_x509_authenticate.X509.Fields.{X509Fields}
use simple_x509_authenticate.X509.Fields.Bounds.{CertBounds}
use simple_x509_authenticate.X509.Time.{Timegm}
use simple_x509_authenticate.X509.Certificate.{parse_x509}
use simple_x509_authenticate.X509.Certificate.Safety.{parse_x509-Returns}
use simple_x509_authenticate.Crypto.Ssl.{OpenSsl, Documented}
use simple_x509_authenticate.Crypto.{Extract, PubKey}
use simple_x509_authenticate.Crypto.Trust.{Trusted, extract_self_sign_for_code_sign-Returns}
use simple_x509_authenticate.ReadCert.{File, zero_fields, parsed, extracted, positive, read_cert}

-- mmap answers as many bytes as fstat said; the size is a positive int64.
pub record Mapped (file : File) : Type 0 where
  pub size :
      (raw : Bytes) (n : ℕ) → file.mapping ≡ some raw → file.stat ≡ some (pos n) → length raw ≡ n
  pub small : (n : ℕ) → file.stat ≡ some (pos n) → n < 2 ^ 63
  pub bytes : (raw : Bytes) → file.mapping ≡ some raw → All IsByte raw

-- The fields of the mapped file by which the key is trusted.
pub record FromFile (ssl : OpenSsl) (timegm : Timegm) (file : File) (now : ℤ) (key : PubKey ssl)
    : Type 0 where
  pub raw : Bytes
  pub fields : X509Fields
  pub contents : file.mapping ≡ some raw
  pub accepted : parse_x509 timegm raw (length raw) zero_fields ≡ ok fields
  pub bounds : CertBounds (length raw) fields
  pub addressed : length raw < 2 ^ 63
  pub trusted : Trusted ssl raw fields now key

parsed-ok :
    {A : Type 0} (P : A → Type 0) (m : Parse A)
    → Returns P m
    → Returns (λ a. (m ≡ ok a) × P a) (parsed m)
unfolding parsed
parsed-ok P (ok a) h = (refl, h)
parsed-ok P (err code) h = tt
parsed-ok P (abort x) h = h

extracted-Returns {ℓ} :
    {A : Type ℓ} (P : A → Type 0) (m : Extract A) → Returns P m → Returns P (extracted m)
unfolding extracted
extracted-Returns P (ok a) h = h
extracted-Returns P (err code) h = tt
extracted-Returns P (abort x) h = h

positive-Returns : (size : ℤ) → Returns (λ n. size ≡ pos n) (positive size)
unfolding positive
positive-Returns (pos zero) = tt
positive-Returns (pos (suc n)) = refl
positive-Returns (negsuc n) = tt

-- Whatever a file holds, read_cert reads no byte outside of it and no assert fails, where mmap
-- and OpenSSL behave as documented. If it answers true, the bytes of the file were accepted by
-- parse_x509, and the key is trusted by the fields that it answered.
pub read_cert-Returns :
    (ssl : OpenSsl) (timegm : Timegm) (file : File) (now : ℤ) (ret : PubKey ssl)
    → Documented ssl
    → Mapped file
    → Returns (FromFile ssl timegm file now) (read_cert ssl timegm file now ret)
unfolding read_cert
read_cert-Returns ssl timegm file now ret doc mapped =
    let F = FromFile ssl timegm file now in
    Returns-refuse F _ _ _ λ _. Returns-require F _ _ _ λ st_size stat.
      Returns-bind _ F (positive st_size) _ (positive-Returns st_size) λ n _ e.
        Returns-require F _ _ _ λ raw contents.
          let known : file.stat ≡ some (pos n) = stat ∙ ap some e in
          let size : length raw ≡ n = mapped.size raw n contents known in
          let small : n < 2 ^ 63 = mapped.small n known in
          let fits : Fits raw n = record {
            small = omega arith;
            inside = omega arith;
            bytes = mapped.bytes raw contents;
          } in
          Returns-bind _ F (parsed (parse_x509 timegm raw n zero_fields)) _
            (parsed-ok _ _ (parse_x509-Returns timegm raw n zero_fields fits))
            λ fields _ (accepted, bounds). extracted-Returns F _ (
              Returns-mono _ F _
                (λ key trusted. record {
                  raw = raw;
                  fields = fields;
                  contents = contents;
                  accepted = rw size accepted;
                  bounds = rw size bounds;
                  addressed = omega arith;
                  trusted = trusted;
                })
                (extract_self_sign_for_code_sign-Returns ssl doc raw n fits fields bounds now ret))
