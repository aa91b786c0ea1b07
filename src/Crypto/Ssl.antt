-- ===== src/Crypto/Ssl.antt =====
-- What src/crypto.c uses of OpenSSL, as an interface. Its objects are known by their handles.
use simple_x509_authenticate.Common.{◌≡◌, ◌≢◌, Bool, true, Option, none, Bytes}
use simple_x509_authenticate.Common.Int.{ℤ}

-- The key types that are named when a raw public key is made.
pub data KeyType : Type 0 where
  ed25519_key ed448_key : KeyType

-- The names under which the integers of an RSA key are pushed.
pub data RsaParam : Type 0 where
  n_param e_param d_param : RsaParam

-- `none` is a null pointer. A function that returns an int answers that int, as an integer, or
-- whether it was 1 where the code compares it with 1.
pub record OpenSsl : Type 1 where
  pub Pkey : Type 0
  pub Md : Type 0
  pub MdCtx : Type 0
  pub Bignum : Type 0
  pub Builder : Type 0
  pub Params : Type 0
  pub PkeyCtx : Type 0
  pub sha256 : Md
  pub sha384 : Md
  pub sha512 : Md
  pub new_raw_public_key : KeyType → Bytes → Option Pkey
  pub md_ctx_new : Option MdCtx
  pub bin2bn : Bytes → Option Bignum
  pub bld_new : Option Builder
  -- The answer, and the builder behind the call.
  pub push_bn : Builder → RsaParam → Option Bignum → Bool × Builder
  pub to_param : Builder → Option Params
  pub pkey_ctx_new : Option PkeyCtx
  pub fromdata_init : PkeyCtx → Bool × PkeyCtx
  -- The answer, and what stands at the pointer to the key behind the call.
  pub fromdata : PkeyCtx → Params → Option Pkey → Bool × Option Pkey
  -- The answer, and the context behind the call.
  pub digest_verify_init : MdCtx → Option Md → Option Pkey → ℤ × MdCtx
  -- The signature stands before the data.
  pub digest_verify : MdCtx → Bytes → Bytes → ℤ

-- EVP_PKEY_fromdata allocates a key where it answers success.
pub record Documented (ssl : OpenSsl) : Type 0 where
  pub fromdata_success :
      (ctx : ssl.PkeyCtx) (params : ssl.Params) (old : Option ssl.Pkey)
      → (ssl.fromdata ctx params old).0 ≡ true
      → (ssl.fromdata ctx params old).1 ≢ none
