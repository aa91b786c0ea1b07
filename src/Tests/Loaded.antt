-- ===== src/Tests/Loaded.antt =====
-- The key that read_cert answers for the sample certificate.
use simple_x509_authenticate.Common.{◌≡◌, refl, some, none, take, drop}
use simple_x509_authenticate.Common.Int.{pos}
use simple_x509_authenticate.Common.Result.{ok, refuse}
use simple_x509_authenticate.Common.Buffer.{read, read_bytes, memeq, require}
use simple_x509_authenticate.Crypto.{
  PubKey, certeq, assert_some, ed_extract, ed25519_extract, extract_from, pub_key_extract,
  openssl_verify, pub_key_verify, check_key_ids, check_fields, extract_self_sign_for_code_sign,
}
use simple_x509_authenticate.ReadCert.{parsed, extracted, positive, read_cert}
use simple_x509_authenticate.Samples.{certificate, calendar}
use simple_x509_authenticate.Tests.Inputs.{agreeable, blank}
use simple_x509_authenticate.Tests.X509.{parse_x509-certificate}
use simple_x509_authenticate.Tests.Crypto.{certificate_file}

abbrev pub certificate_key : PubKey agreeable
certificate_key = record {
  expiry = pos 1794247280;
  exp_sig_size = 64;
  alg_idx = 0;
  pkey = some (take 32 (drop 240 certificate));
  md_ctx = some 1;
  md = none;
}

pub read_cert-certificate :
    read_cert agreeable calendar certificate_file (pos 1780000000) blank ≡ ok certificate_key
unfolding read_cert parsed extracted positive refuse require read read_bytes memeq certeq
    assert_some ed_extract ed25519_extract extract_from pub_key_extract openssl_verify
    pub_key_verify check_key_ids check_fields extract_self_sign_for_code_sign
read_cert-certificate = rw parse_x509-certificate refl
