-- ===== src/Crypto/Trust.antt =====
-- What extract_self_sign_for_code_sign guarantees of the key that it answers.
use simple_x509_authenticate.Common.{
  ℕ, zero, suc, ◌-◌, ◌≡◌, ◌≢◌, ◌⊎◌, refl, sym, ap, ap₂, ◌∙◌, inl, inr, Bool, true, false, ◌||◌,
  ◌&&◌, not, Option, none, some, Bytes, length, get_elem?, sub64, bit_and, ◌!=◌, Bool-cases, arith,
}
use simple_x509_authenticate.Common.Int.{ℤ, ltb_ℤ}
use simple_x509_authenticate.Common.Result.{
  ok, Returns, Returns-bind, Returns-mono, Returns_ok, refuse,
}
use simple_x509_authenticate.Common.Buffer.{
  read_bytes, read_bytes-length, Returns-refuse, Returns-if,
}
use simple_x509_authenticate.X509.Der.{idx_none}
use simple_x509_authenticate.X509.Der.Bounds.{Fits}
use simple_x509_authenticate.X509.Fields.{X509Fields}
use simple_x509_authenticate.X509.Fields.Bounds.{CertBounds}
use simple_x509_authenticate.Crypto.Ssl.{OpenSsl, Documented}
use simple_x509_authenticate.Crypto.Ranges.{slice, slice-Returns, certeq-Returns}
use simple_x509_authenticate.Crypto.Keys.{Chosen, pub_key_extract-Returns}
use simple_x509_authenticate.Crypto.{
  ExtractCode, Extract, assert_some, certeq, PubKey, openssl_verify, SupportedAlg, supported_algs,
  pub_key_extract, pub_key_verify, usage_mask, check_key_ids, check_fields,
  extract_self_sign_for_code_sign,
}

-- A check at the end of a function.
refused :
    (P : Type 0) (b : Bool) (e : ExtractCode) → (b ≡ false → P) → Returns (λ _. P) (refuse b e)
unfolding refuse
refused P true e h = tt
refused P false e h = h refl

module _ (raw : Bytes) (fields : X509Fields) where
  -- What check_key_ids demands.
  abbrev pub KeyIds : Type 0
  KeyIds =
      ((fields.skid_start ≡ 0) × (fields.akid_start ≡ 0))
      ⊎ (slice raw fields.skid_start fields.skid_end ≡ slice raw fields.akid_start fields.akid_end)

  -- What check_fields demands at the time `now`.
  pub record Admitted (now : ℤ) : Type 0 where
    pub begun : ltb_ℤ now fields.not_before ≡ false
    pub unexpired : ltb_ℤ fields.not_after now ≡ false
    pub authority : fields.key_cert_sign ≡ true
    pub key_usage : fields.has_key_usage ≡ true
    pub ext_key_usage : fields.has_ext_key_usage ≡ true
    pub usages : bit_and fields.key_usage_flags usage_mask ≡ usage_mask
    pub key_ids : KeyIds

module _ (raw : Bytes) (size : ℕ) (fits : Fits raw size) (fields : X509Fields)
    (bounds : CertBounds size fields) where
  check_key_ids-Returns : Returns (λ _. KeyIds raw fields) (check_key_ids raw fields)
  unfolding check_key_ids
  check_key_ids-Returns =
      let small = fits.small in
      let inside = fits.inside in
      let b = bounds in
      let Ids : Unit {0} → Type 0 = λ _. KeyIds raw fields in
      let is_skid = fields.skid_start != idx_none in
      let is_akid = fields.akid_start != idx_none in
      Returns-refuse Ids (is_skid && not is_akid || not is_skid && is_akid) _ _ λ both.
        elim (Bool-cases is_skid) [
          | inl present ↦
              let akid : fields.akid_start ≢ 0 = ground arith in
              rw present (
                Returns-bind (λ same. same ≡ true → KeyIds raw fields) Ids
                  (certeq raw fields.skid_start fields.skid_end fields.akid_start fields.akid_end) _
                  (Returns-mono _ (λ same. same ≡ true → KeyIds raw fields) _
                    (λ same h e. inr (h e))
                    (certeq-Returns raw small fields.skid_start fields.skid_end fields.akid_start
                      fields.akid_end (ground arith) (ground arith) (ground arith) (ground arith)))
                  λ same _ h. refused (KeyIds raw fields) (not same) _ λ e. h (ground arith))
          | inr missing ↦
              let gone : (fields.skid_start ≡ 0) × (fields.akid_start ≡ 0) = ground arith in
              rw missing (refused (KeyIds raw fields) false _ λ _. inl gone)
        ]

  check_fields-Returns :
      (now : ℤ) → Returns (λ _. Admitted raw fields now) (check_fields raw fields now)
  unfolding check_fields
  check_fields-Returns now =
      let Good : Unit {0} → Type 0 = λ _. Admitted raw fields now in
      Returns-refuse Good _ _ _ λ late. Returns-refuse Good _ _ _ λ early.
        Returns-refuse Good _ _ _ λ leaf.
          Returns-bind _ Good (check_key_ids raw fields) _ check_key_ids-Returns λ _ _ ids.
            refused (Admitted raw fields now) _ _ λ usages. record {
              begun = early;
              unexpired = late;
              authority = ground arith;
              key_usage = ground arith;
              ext_key_usage = ground arith;
              usages = ground arith;
              key_ids = ids;
            }

module _ (ssl : OpenSsl) where
  -- How a key of an entry of the table is verified, or of none.
  verify_of : Option (SupportedAlg ssl) → PubKey ssl → Bytes → Bytes → Extract Bool
  verify_of none = openssl_verify ssl
  verify_of (some alg) = alg.verify_sig

  verify_of-get_elem? : (i : ℕ) → verify_of (get_elem? (supported_algs ssl) i) ≡ openssl_verify ssl
  unfolding verify_of
  verify_of-get_elem? zero = refl
  verify_of-get_elem? (suc zero) = refl
  verify_of-get_elem? (suc (suc zero)) = refl
  verify_of-get_elem? (suc (suc (suc i))) = refl

  pub pub_key_verify-Returns :
      (oid : Bytes) (key : PubKey ssl) (message sig : Bytes)
      → Chosen ssl oid key
      → Returns (λ b. b ≡ true → key.exp_sig_size ≡ length sig) (pub_key_verify ssl key message sig)
  unfolding pub_key_verify Chosen assert_some verify_of openssl_verify
  pub_key_verify-Returns oid key message sig (alg, e, same, (ctx, c)) =
      let verify : alg.verify_sig ≡ openssl_verify ssl =
        sym (ap verify_of e) ∙ verify_of-get_elem? key.alg_idx in
      Returns-if (λ b. b ≡ true → key.exp_sig_size ≡ length sig) (key.exp_sig_size != length sig) _
        _ (λ _ impossible. cc) λ size. rw (e, verify, c) (ground arith)

  -- The date of expiry plays no part.
  verify_expiry :
      (i : ℕ) (key : PubKey ssl) (t : ℤ) (message sig : Bytes)
      → key.alg_idx ≡ i
      → pub_key_verify ssl (record key { expiry = t }) message sig
        ≡ pub_key_verify ssl key message sig
  unfolding pub_key_verify openssl_verify assert_some
  verify_expiry zero key t message sig e = rw e refl
  verify_expiry (suc zero) key t message sig e = rw e refl
  verify_expiry (suc (suc zero)) key t message sig e = rw e refl
  verify_expiry (suc (suc (suc i))) key t message sig e = rw e refl

  -- The key that is answered, and what it was found to be.
  pub record Trusted (raw : Bytes) (fields : X509Fields) (now : ℤ) (key : PubKey ssl) : Type 0 where
    pub admitted : Admitted raw fields now
    pub expires : key.expiry ≡ fields.not_after
    pub algorithm : SupportedAlg ssl
    pub chosen : get_elem? (supported_algs ssl) key.alg_idx ≡ some algorithm
    pub context : ssl.MdCtx
    pub held : key.md_ctx ≡ some context
    pub named : algorithm.oid ≡ slice raw fields.pub_key_oid_start fields.pub_key_oid_end
    pub sig_size : key.exp_sig_size ≡ fields.sig_end - fields.sig_start
    pub self_signed :
        pub_key_verify ssl key
          (slice raw fields.signed_data_start fields.signed_data_end)
          (slice raw fields.sig_start fields.sig_end)
        ≡ ok true

-- Given the fields of a certificate as parse_x509 answers them, the function reads no byte outside
-- of it and no assert fails. If it answers CERT_OK at the time `now`, then the certificate has begun
-- and has not expired; it may sign certificates, and has both usage extensions with the usages for
-- signatures, certificates and code; its key identifiers are both missing or equal; the key is of
-- the algorithm that the oid of the public key names; its signatures have the size of the
-- certificate's one; and this key verifies that signature on the signed bytes.
pub extract_self_sign_for_code_sign-Returns :
    (ssl : OpenSsl) (doc : Documented ssl) (raw : Bytes) (size : ℕ) (fits : Fits raw size)
    (fields : X509Fields) (bounds : CertBounds size fields) (now : ℤ) (ret : PubKey ssl)
    → Returns (Trusted ssl raw fields now) (extract_self_sign_for_code_sign ssl raw fields now ret)
unfolding extract_self_sign_for_code_sign Chosen
extract_self_sign_for_code_sign-Returns ssl doc raw size fits fields bounds now ret =
    let small = fits.small in
    let inside = fits.inside in
    let b = bounds in
    let T = Trusted ssl raw fields now in
    let oid = slice raw fields.pub_key_oid_start fields.pub_key_oid_end in
    let message = slice raw fields.signed_data_start fields.signed_data_end in
    let signature = slice raw fields.sig_start fields.sig_end in
    Returns-bind _ T (check_fields raw fields now) _
      (check_fields-Returns raw size fits fields bounds now)
      λ _ _ admitted.
        Returns-bind _ T (pub_key_extract ssl raw fields ret) _
          (pub_key_extract-Returns ssl doc raw size fits fields bounds ret)
          λ key _ (alg, chosen, named, ctx).
            Returns-bind _ T
              (read_bytes (sub64 fields.signed_data_end fields.signed_data_start) raw
                fields.signed_data_start)
              _
              (slice-Returns raw small ExtractCode fields.signed_data_start fields.signed_data_end
                (ground arith) (ground arith))
              λ signed _ es.
                Returns-bind _ T
                  (read_bytes (sub64 fields.sig_end fields.sig_start) raw fields.sig_start) _
                  (slice-Returns raw small ExtractCode fields.sig_start fields.sig_end
                    (ground arith) (ground arith))
                  λ sig got eg.
                    Returns-bind _ T (pub_key_verify ssl key signed sig) _
                      (pub_key_verify-Returns ssl oid key signed sig (alg, chosen, named, ctx))
                      λ authentic verified width. Returns-refuse T _ _ _ λ e.
                        let good : authentic ≡ true = ground arith in
                        record {
                          admitted = admitted;
                          expires = refl;
                          algorithm = alg;
                          chosen = chosen;
                          named = named;
                          context = ctx.0;
                          held = ctx.1;
                          sig_size =
                              width good
                              ∙ Returns_ok _ _
                                  (read_bytes-length ExtractCode _ raw fields.sig_start
                                    (ground arith))
                                  got
                              ∙ (ground arith);
                          self_signed =
                              verify_expiry ssl _ key fields.not_after message signature refl
                              ∙ sym (ap₂ (pub_key_verify ssl key) es eg)
                              ∙ verified
                              ∙ ap ok good;
                        }
