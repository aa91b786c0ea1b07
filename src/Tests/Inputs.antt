-- ===== src/Tests/Inputs.antt =====
-- What the tests share: the sample certificate is a buffer of bytes, and an OpenSSL that answers
-- success everywhere.
use simple_x509_authenticate.Common.{
  ℕ, ◌≡◌, refl, Bool, true, ◌&&◌, none, some, Bytes, IsByte, [], ◌∷◌, All, ltb, arith,
}
use simple_x509_authenticate.Common.Int.{pos}
use simple_x509_authenticate.X509.Der.Bounds.{Fits}
use simple_x509_authenticate.Crypto.Ssl.{OpenSsl, Documented}
use simple_x509_authenticate.Crypto.{PubKey}
use simple_x509_authenticate.Samples.{certificate}

abbrev pub all_bytes : Bytes → Bool
all_bytes [] = true
all_bytes (b ∷ bs) = ltb b 256 && all_bytes bs

pub all_bytes-IsByte : (bs : Bytes) → all_bytes bs ≡ true → All IsByte bs
all_bytes-IsByte [] h = tt
all_bytes-IsByte (b ∷ bs) h = (ground arith, all_bytes-IsByte bs (ground arith))

pub certificate-Fits : Fits certificate 468
certificate-Fits = record {
  small = omega arith;
  inside = omega arith;
  bytes = all_bytes-IsByte certificate refl;
}

-- Its key is the raw key, its context is a token, and every signature is a good one.
abbrev pub agreeable : OpenSsl
agreeable = record {
  Pkey = Bytes;
  Md = ℕ;
  MdCtx = ℕ;
  Bignum = Bytes;
  Builder = ℕ;
  Params = ℕ;
  PkeyCtx = ℕ;
  sha256 = 256;
  sha384 = 384;
  sha512 = 512;
  new_raw_public_key = λ t bytes. some bytes;
  md_ctx_new = some 1;
  bin2bn = λ bytes. some bytes;
  bld_new = some 2;
  push_bn = λ b p n. (true, b);
  to_param = λ b. some 3;
  pkey_ctx_new = some 4;
  fromdata_init = λ c. (true, c);
  fromdata = λ c p old. (true, some []);
  digest_verify_init = λ c md key. (pos 1, c);
  digest_verify = λ c sig message. pos 1;
}

pub agreeable-Documented : Documented agreeable
agreeable-Documented = record { fromdata_success = λ ctx params old e absent. cc }

abbrev pub blank : PubKey agreeable
blank = record {
  expiry = pos 0;
  exp_sig_size = 0;
  alg_idx = 0;
  pkey = none;
  md_ctx = none;
  md = none;
}
