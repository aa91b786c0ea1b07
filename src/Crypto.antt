-- ===== src/Crypto.antt =====
-- src/crypto.c: the public key of a self-signed certificate. OpenSSL is an argument, `ssl`. The
-- calls that free its objects are left out: they answer nothing, and no later call sees the objects.
pub mod Ssl
pub mod Ranges
pub mod Rsa
pub mod Memory
pub mod Keys
pub mod Trust
use simple_x509_authenticate.Common.{
  ℕ, zero, suc, ◌+◌, ◌-◌, ◌*◌, ◌^◌, Bool, true, false, ◌||◌, ◌&&◌, not, List, [], ◌∷◌, Option, none,
  some, Bytes, length, get_elem?, sub64, bit_and, bit_or, ltb, ◌==◌, ◌!=◌, if◌then◌else◌,
}
use simple_x509_authenticate.Common.Int.{ℤ, pos, ltb_ℤ, eq_ℤ}
use simple_x509_authenticate.Common.Result.{
  Result, ok, err, abort, Fault, ◌>>=◌, ◌>>◌, refuse, check,
}
use simple_x509_authenticate.Common.Buffer.{read_bytes, memeq, require}
use simple_x509_authenticate.X509.Code.{Parse}
use simple_x509_authenticate.X509.Tag
use simple_x509_authenticate.X509.Der.{parse_data_element, parse_null, idx_none}
use simple_x509_authenticate.X509.Fields.{
  X509Fields, flag_sign, flag_key_cert_sign, flag_code_signing,
}
use simple_x509_authenticate.Crypto.Ssl.{
  OpenSsl, KeyType, ed25519_key, ed448_key, n_param, e_param, d_param,
}

-- CERT_OK is the constructor `ok` of `Result`.
pub data ExtractCode : Type 0 where
  expired not_before invalid_usage invalid_self_sign invalid_sig : ExtractCode
  invalid_pub_key invalid_pub_key_params unsupported_alg : ExtractCode

abbrev pub Extract {ℓ} : Type ℓ → Type ℓ
Extract A = Result ExtractCode A

-- Any code but PARSE_OK answers `e`.
unfoldable pub or_code {ℓ} : {A : Type ℓ} → ExtractCode → Parse A → Extract A
or_code e (ok a) = ok a
or_code e (err c) = err e
or_code e (abort f) = abort f

-- The code is ignored, and the index stays where it was on an error.
unfoldable pub or_stay : ℕ → Parse ℕ → Extract ℕ
or_stay idx (ok i) = ok i
or_stay idx (err c) = ok idx
or_stay idx (abort f) = abort f

-- `assert(p != NULL);`
unfoldable pub assert_some {ℓ} : {A : Type ℓ} → Option A → Extract A
assert_some none = abort Fault.assertion
assert_some (some a) = ok a

unfoldable pub certeq : Bytes → ℕ → ℕ → ℕ → ℕ → Extract Bool
certeq raw start0 end0 start1 end1 =
    if sub64 end0 start0 == sub64 end1 start1
    then (read_bytes (sub64 end0 start0) raw start0 >>= λ a.
        read_bytes (sub64 end1 start1) raw start1 >>= λ b. ok (memeq a b))
    else ok false

-- Where the integers of an RSA public key lie.
pub record RsaSpans : Type 0 where
  pub modulus_start : ℕ
  pub modulus_end : ℕ
  pub exp_start : ℕ
  pub exp_end : ℕ

unfoldable pub rsa_spans : Bytes → X509Fields → Extract RsaSpans
rsa_spans raw fields = do
  seq ←
      or_code invalid_pub_key
        (parse_data_element raw Tag.sequence fields.pub_key_start fields.pub_key_end)
  modulus ← or_code invalid_pub_key (parse_data_element raw Tag.integer seq.idx seq.content_end)
  exp ←
      or_code invalid_pub_key
        (parse_data_element raw Tag.integer modulus.content_end seq.content_end)
  refuse (exp.content_end != seq.content_end) invalid_pub_key
  ok (record {
    modulus_start = modulus.idx;
    modulus_end = modulus.content_end;
    exp_start = exp.idx;
    exp_end = exp.content_end;
  })

-- The `switch` on the size of the modulus, with the zero octet in front.
unfoldable pub rsa_sig_size : ℕ → Extract ℕ
rsa_sig_size n = if n == 385 then ok 384 else if n == 513 then ok 512 else err unsupported_alg

-- The flags that extract_self_sign_for_code_sign asks for.
abbrev pub usage_mask : ℕ
usage_mask = bit_or (bit_or flag_sign flag_key_cert_sign) flag_code_signing

-- A certificate with one of the key identifiers must have both, and equal ones.
unfoldable pub check_key_ids : Bytes → X509Fields → Extract (Unit {0})
check_key_ids raw fields = do
  let is_skid = fields.skid_start != idx_none
  let is_akid = fields.akid_start != idx_none
  refuse (is_skid && not is_akid || not is_skid && is_akid) invalid_self_sign
  same ←
      if is_skid
      then certeq raw fields.skid_start fields.skid_end fields.akid_start fields.akid_end
      else ok true
  refuse (not same) invalid_self_sign

-- The checks in front of pub_key_extract.
unfoldable pub check_fields : Bytes → X509Fields → ℤ → Extract (Unit {0})
check_fields raw fields now = do
  refuse (ltb_ℤ fields.not_after now) expired
  refuse (ltb_ℤ now fields.not_before) ExtractCode.not_before
  refuse (not fields.key_cert_sign) invalid_usage
  check_key_ids raw fields
  refuse
      (not fields.has_key_usage
        || not fields.has_ext_key_usage
        || bit_and fields.key_usage_flags usage_mask != usage_mask)
      invalid_usage

abbrev pub rsa_oid_prefix : Bytes → Bytes
rsa_oid_prefix last = 0x2a ∷ 0x86 ∷ 0x48 ∷ 0x86 ∷ 0xf7 ∷ 0x0d ∷ 0x01 ∷ 0x01 ∷ last

module _ (ssl : OpenSsl) where
  -- The members that OpenSSL fills in stand for the anonymous union.
  pub record PubKey : Type 0 where
    pub expiry : ℤ
    pub exp_sig_size : ℕ
    pub alg_idx : ℕ
    pub pkey : Option ssl.Pkey
    pub md_ctx : Option ssl.MdCtx
    pub md : Option ssl.Md

  unfoldable pub ed_extract : Bytes → X509Fields → KeyType → PubKey → Extract PubKey
  ed_extract raw fields key_type ret = do
    refuse (fields.pub_key_oid_end != fields.pub_key_id_end) invalid_pub_key_params
    same ←
        certeq raw fields.sig_id_start fields.sig_id_end fields.pub_key_id_start
          fields.pub_key_id_end
    refuse (not same) invalid_sig
    bytes ← read_bytes (sub64 fields.pub_key_end fields.pub_key_start) raw fields.pub_key_start
    pkey ← require (ssl.new_raw_public_key key_type bytes) invalid_pub_key
    ctx ← require ssl.md_ctx_new invalid_pub_key
    ok (record ret { pkey = some pkey; md = none; md_ctx = some ctx })

  unfoldable pub ed25519_extract : Bytes → X509Fields → PubKey → Extract PubKey
  ed25519_extract raw fields ret =
      ed_extract raw fields ed25519_key (record ret { exp_sig_size = 64 })

  unfoldable pub ed448_extract : Bytes → X509Fields → PubKey → Extract PubKey
  ed448_extract raw fields ret = ed_extract raw fields ed448_key (record ret { exp_sig_size = 114 })

  -- The digest that the oid of the signature names.
  unfoldable pub rsa_digest : Bytes → Extract ssl.Md
  rsa_digest oid =
      if memeq oid (rsa_oid_prefix (0x0b ∷ []))
      then ok ssl.sha256
      else if memeq oid (rsa_oid_prefix (0x0c ∷ []))
      then ok ssl.sha384
      else if memeq oid (rsa_oid_prefix (0x0d ∷ []))
      then ok ssl.sha512
      else err unsupported_alg

  -- The calls behind "Construct the key using OpenSSL".
  unfoldable pub rsa_build_key : Bytes → RsaSpans → PubKey → Extract PubKey
  rsa_build_key raw s ret = do
    modulus_bytes ← read_bytes (sub64 s.modulus_end s.modulus_start) raw s.modulus_start
    modulus ← require (ssl.bin2bn modulus_bytes) invalid_pub_key
    exp_bytes ← read_bytes (sub64 s.exp_end s.exp_start) raw s.exp_start
    exp ← require (ssl.bin2bn exp_bytes) invalid_pub_key
    build ← require ssl.bld_new invalid_pub_key
    let pushed_n = ssl.push_bn build n_param (some modulus)
    refuse (not pushed_n.0) invalid_pub_key
    let pushed_e = ssl.push_bn pushed_n.1 e_param (some exp)
    refuse (not pushed_e.0) invalid_pub_key
    let pushed_d = ssl.push_bn pushed_e.1 d_param none
    refuse (not pushed_d.0) invalid_pub_key
    params ← require (ssl.to_param pushed_d.1) invalid_pub_key
    ctx ← require ssl.pkey_ctx_new invalid_pub_key
    let started = ssl.fromdata_init ctx
    refuse (not started.0) invalid_pub_key
    let made = ssl.fromdata started.1 params ret.pkey
    refuse (not made.0) invalid_pub_key
    pkey ← assert_some made.1
    md_ctx ← require ssl.md_ctx_new invalid_pub_key
    ok (record ret { pkey = some pkey; md_ctx = some md_ctx })

  unfoldable pub rsa_extract : Bytes → X509Fields → PubKey → Extract PubKey
  rsa_extract raw fields ret = do
    idx ←
        or_stay fields.pub_key_oid_end (parse_null raw fields.pub_key_oid_end fields.pub_key_id_end)
    refuse (idx != fields.pub_key_id_end) invalid_pub_key_params
    oid ← read_bytes (sub64 fields.sig_oid_end fields.sig_oid_start) raw fields.sig_oid_start
    md ← rsa_digest oid
    s ← rsa_spans raw fields
    size ← rsa_sig_size (sub64 s.modulus_end s.modulus_start)
    rsa_build_key raw s (record ret { md = some md; exp_sig_size = size })

  -- The verify function of each of the algorithms.
  unfoldable pub openssl_verify : PubKey → Bytes → Bytes → Extract Bool
  openssl_verify key message sig =
      if length sig != key.exp_sig_size
      then ok false
      else assert_some key.md_ctx >>= λ ctx.
          let init = ssl.digest_verify_init ctx key.md key.pkey in
          if eq_ℤ init.0 (pos 0)
          then ok false
          else ok (eq_ℤ (ssl.digest_verify init.1 sig message) (pos 1))

  pub record SupportedAlg : Type 0 where
    pub oid : Bytes
    pub extract_key : Bytes → X509Fields → PubKey → Extract PubKey
    pub verify_sig : PubKey → Bytes → Bytes → Extract Bool

  abbrev pub supported_algs : List SupportedAlg
  supported_algs =
      record {
        oid = 0x2b ∷ 0x65 ∷ 0x70 ∷ [];
        extract_key = ed25519_extract;
        verify_sig = openssl_verify;
      }
      ∷ record {
        oid = 0x2b ∷ 0x65 ∷ 0x71 ∷ [];
        extract_key = ed448_extract;
        verify_sig = openssl_verify;
      }
      ∷ record {
        oid = rsa_oid_prefix (0x01 ∷ []);
        extract_key = rsa_extract;
        verify_sig = openssl_verify;
      }
      ∷ []

  -- The loop of pub_key_extract, from the algorithm `idx` on.
  unfoldable pub extract_from :
      List SupportedAlg → ℕ → Bytes → Bytes → X509Fields → PubKey → Extract PubKey
  extract_from [] idx oid raw fields ret = err unsupported_alg
  extract_from (alg ∷ algs) idx oid raw fields ret =
      if memeq alg.oid oid
      then alg.extract_key raw fields (record ret { alg_idx = idx })
      else extract_from algs (suc idx) oid raw fields ret

  unfoldable pub pub_key_extract : Bytes → X509Fields → PubKey → Extract PubKey
  pub_key_extract raw fields ret = do
    oid ←
        read_bytes (sub64 fields.pub_key_oid_end fields.pub_key_oid_start) raw
          fields.pub_key_oid_start
    extract_from supported_algs 0 oid raw fields ret

  -- The sizes of `message` and `sig` are those of the lists.
  unfoldable pub pub_key_verify : PubKey → Bytes → Bytes → Extract Bool
  pub_key_verify key message sig =
      if key.exp_sig_size != length sig
      then ok false
      else assert_some (get_elem? supported_algs key.alg_idx) >>= λ alg.
          alg.verify_sig key message sig

  unfoldable pub extract_self_sign_for_code_sign : Bytes → X509Fields → ℤ → PubKey → Extract PubKey
  extract_self_sign_for_code_sign raw fields now ret = do
    check_fields raw fields now
    key ← pub_key_extract raw fields ret
    signed ←
        read_bytes (sub64 fields.signed_data_end fields.signed_data_start) raw
          fields.signed_data_start
    sig ← read_bytes (sub64 fields.sig_end fields.sig_start) raw fields.sig_start
    authentic ← pub_key_verify key signed sig
    refuse (not authentic) invalid_sig
    ok (record key { expiry = fields.not_after })
