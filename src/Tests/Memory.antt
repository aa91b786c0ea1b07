-- ===== src/Tests/Memory.antt =====
-- An RSA key that is read to memory which holds an old key.
use simple_x509_authenticate.Common.{
  ◌≡◌, refl, true, [], ◌∷◌, ◌++◌, none, some, Bytes, replicate, arith,
}
use simple_x509_authenticate.Common.Result.{ok, Returns, refuse}
use simple_x509_authenticate.Common.Buffer.{read, read_bytes, require, memeq}
use simple_x509_authenticate.X509.Der.{
  parse_any, parse_data_element, parse_length, long_form, read_octets, parse_null,
}
use simple_x509_authenticate.X509.Der.Bounds.{Fits}
use simple_x509_authenticate.X509.Fields.{X509Fields}
use simple_x509_authenticate.X509.Fields.Bounds.{CertBounds}
use simple_x509_authenticate.Crypto.Ssl.{OpenSsl, Documented}
use simple_x509_authenticate.Crypto.{
  PubKey, or_stay, or_code, rsa_spans, rsa_sig_size, rsa_digest, rsa_build_key, assert_some,
  rsa_extract,
}
use simple_x509_authenticate.Crypto.Memory.{Reuses, rsa_extract-old_key}
use simple_x509_authenticate.ReadCert.{zero_fields}
use simple_x509_authenticate.Tests.Inputs.{agreeable, blank, all_bytes-IsByte}

-- The parameters, the oid of sha256WithRSAEncryption, and a key of 3072 bits.
abbrev rsa_bytes : Bytes
rsa_bytes =
    (0 ∷ 5 ∷ 0 ∷ [])
    ++ (0x2a ∷ 0x86 ∷ 0x48 ∷ 0x86 ∷ 0xf7 ∷ 0x0d ∷ 0x01 ∷ 0x01 ∷ 0x0b ∷ [])
    ++ (0x30 ∷ 0x82 ∷ 0x01 ∷ 0x88 ∷ 0x02 ∷ 0x82 ∷ 0x01 ∷ 0x81 ∷ [])
    ++ replicate 385 1
    ++ (2 ∷ 1 ∷ 3 ∷ [])

rsa_bytes-Fits : Fits rsa_bytes 408
rsa_bytes-Fits = record {
  small = omega arith;
  inside = omega arith;
  bytes = all_bytes-IsByte rsa_bytes refl;
}

abbrev rsa_fields : X509Fields
rsa_fields = record zero_fields {
  signed_data_start = 1;
  signed_data_end = 408;
  cert_serial_start = 1;
  cert_serial_end = 1;
  sig_id_start = 3;
  sig_id_end = 12;
  sig_oid_start = 3;
  sig_oid_end = 12;
  pub_key_id_start = 1;
  pub_key_id_end = 3;
  pub_key_oid_start = 1;
  pub_key_oid_end = 1;
  pub_key_start = 12;
  pub_key_end = 408;
  sig_start = 408;
  sig_end = 408;
}

rsa_fields-CertBounds : CertBounds 408 rsa_fields
rsa_fields-CertBounds = ground arith

abbrev reusing : OpenSsl
reusing = record agreeable {
  fromdata = λ c p old. (true, some (elim old [ none ↦ [] | some key ↦ key ]));
}

reusing-Documented : Documented reusing
reusing-Documented = record { fromdata_success = λ ctx params old e absent. cc }

reusing-Reuses : Reuses reusing
reusing-Reuses = record { same_key = λ ctx params old. refl }

abbrev dangling : PubKey reusing
dangling = record {
  expiry = blank.expiry;
  exp_sig_size = 0;
  alg_idx = 2;
  pkey = some (0xde ∷ 0xad ∷ []);
  md_ctx = none;
  md = none;
}

rsa_extract-success :
    rsa_extract reusing rsa_bytes rsa_fields dangling
    ≡ ok (record dangling { exp_sig_size = 384; md_ctx = some 1; md = some 256 })
unfolding rsa_extract rsa_spans rsa_sig_size rsa_digest rsa_build_key or_stay or_code assert_some
    parse_any parse_data_element parse_length long_form read_octets parse_null read read_bytes
    require memeq refuse
rsa_extract-success = refl

rsa_extract-old_key_example :
    Returns
      (λ key. key.pkey ≡ some (0xde ∷ 0xad ∷ []))
      (rsa_extract reusing rsa_bytes rsa_fields dangling)
rsa_extract-old_key_example =
    rsa_extract-old_key reusing rsa_bytes 408 rsa_fields dangling (0xde ∷ 0xad ∷ [])
      reusing-Documented reusing-Reuses rsa_bytes-Fits rsa_fields-CertBounds refl
