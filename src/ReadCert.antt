-- ===== src/ReadCert.antt =====
-- src/read_cert.c: from a file to a trusted key. What the system calls answer is an argument.
pub mod Trust
pub mod Sizes
use simple_x509_authenticate.Common.{
  ℕ, zero, suc, Bool, true, false, not, Option, none, some, Bytes,
}
use simple_x509_authenticate.Common.Int.{ℤ, pos, negsuc}
use simple_x509_authenticate.Common.Result.{Result, ok, err, abort, ◌>>=◌, ◌>>◌, refuse}
use simple_x509_authenticate.Common.Buffer.{require}
use simple_x509_authenticate.X509.Code.{ParseCode, Parse}
use simple_x509_authenticate.X509.Fields.{X509Fields}
use simple_x509_authenticate.X509.Time.{Timegm}
use simple_x509_authenticate.X509.Certificate.{parse_x509}
use simple_x509_authenticate.Crypto.Ssl.{OpenSsl}
use simple_x509_authenticate.Crypto.{ExtractCode, Extract, PubKey, extract_self_sign_for_code_sign}

-- The answers of open, fstat (st_size) and mmap.
pub record File : Type 0 where
  pub opened : Bool
  pub stat : Option ℤ
  pub mapping : Option Bytes

-- Why read_cert answers false: each is one of the messages that it prints.
pub data Refusal : Type 0 where
  cannot_open fstat_failed no_data mmap_failed : Refusal
  unparsed : ParseCode → Refusal
  untrusted : ExtractCode → Refusal

-- `x509Fields fields = {0};`
abbrev pub zero_fields : X509Fields
zero_fields = record {
  sig_id_start = 0;
  sig_id_end = 0;
  sig_oid_start = 0;
  sig_oid_end = 0;
  sig_start = 0;
  sig_end = 0;
  pub_key_id_start = 0;
  pub_key_id_end = 0;
  pub_key_oid_start = 0;
  pub_key_oid_end = 0;
  pub_key_start = 0;
  pub_key_end = 0;
  signed_data_start = 0;
  signed_data_end = 0;
  cert_serial_start = 0;
  cert_serial_end = 0;
  skid_start = 0;
  skid_end = 0;
  akid_start = 0;
  akid_end = 0;
  not_before = pos 0;
  not_after = pos 0;
  key_cert_sign = false;
  path_len_constraint = 0;
  has_key_usage = false;
  has_ext_key_usage = false;
  key_usage_flags = 0;
}

-- The labels of the outer `switch`, and of the inner one.
unfoldable pub parsed {ℓ} : {A : Type ℓ} → Parse A → Result Refusal A
parsed (ok a) = ok a
parsed (err code) = err (unparsed code)
parsed (abort x) = abort x

unfoldable pub extracted {ℓ} : {A : Type ℓ} → Extract A → Result Refusal A
extracted (ok a) = ok a
extracted (err code) = err (untrusted code)
extracted (abort x) = abort x

-- The size as a uinta, where it is positive.
unfoldable pub positive : ℤ → Result Refusal ℕ
positive (pos zero) = err no_data
positive (pos (suc n)) = ok (suc n)
positive (negsuc n) = err no_data

-- The case that answers true is `ok`, with the key that was written to `*ret_pub_key`.
unfoldable pub read_cert :
    (ssl : OpenSsl) → Timegm → File → ℤ → PubKey ssl → Result Refusal (PubKey ssl)
read_cert ssl timegm file now ret = do
  refuse (not file.opened) cannot_open
  st_size ← require file.stat fstat_failed
  raw_cert_size ← positive st_size
  raw_cert ← require file.mapping mmap_failed
  fields ← parsed (parse_x509 timegm raw_cert raw_cert_size zero_fields)
  extracted (extract_self_sign_for_code_sign ssl raw_cert fields now ret)
